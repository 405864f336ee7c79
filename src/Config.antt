-- ===== src/Config.antt =====
-- lib/conf.c: one line of a configuration file.
pub mod Keys
pub mod Trim
pub mod Written
use xbps.Common.{
  ℕ, zero, suc, ◌+◌, ◌-◌, Bool, true, false, not, ◌&&◌, ◌||◌, Option, none, some, List, [], ◌∷◌,
  ◌++◌, if◌then◌else◌, ◌==◌, CStr, codes, length, take, in_set,
}

-- The keys, in the order of the array `keys`; KEY_ERROR is `none`.
pub data Key : Type 0 where
  key_architecture key_bestmatching key_cachedir key_ignorepkg key_include key_keepconf
        key_noextract key_preserve key_repository key_rootdir key_staging key_syslog
        key_virtualpkg :
      Key

unfoldable pub key_text : Key → CStr
key_text key_architecture = codes "architecture"
key_text key_bestmatching = codes "bestmatching"
key_text key_cachedir = codes "cachedir"
key_text key_ignorepkg = codes "ignorepkg"
key_text key_include = codes "include"
key_text key_keepconf = codes "keepconf"
key_text key_noextract = codes "noextract"
key_text key_preserve = codes "preserve"
key_text key_repository = codes "repository"
key_text key_rootdir = codes "rootdir"
key_text key_staging = codes "staging"
key_text key_syslog = codes "syslog"
key_text key_virtualpkg = codes "virtualpkg"

unfoldable pub is_blank : ℕ → Bool
is_blank c = c == 32 || c == 9

unfoldable pub is_delimiter : ℕ → Bool
is_delimiter c = is_blank c || c == 61

-- The line up to the first blank or `=`, and the rest; `none` where there is no rest.
unfoldable pub split_key : CStr → Option (CStr × CStr)
split_key [] = none
split_key (c ∷ line) =
    let rest = split_key line in
    if is_delimiter c
    then some ([], c ∷ line)
    else elim rest [ none ↦ none | some r ↦ some (c ∷ r.0, r.1) ]

-- `while (isblank(*p)) p++`
unfoldable pub eat_blanks : CStr → CStr
eat_blanks [] = []
eat_blanks (c ∷ s) = let rest = eat_blanks s in if is_blank c then rest else c ∷ s

-- The loop that eats trailing blanks.
unfoldable pub eat_trailing : CStr → CStr
eat_trailing [] = []
eat_trailing (c ∷ s) =
    let rest = eat_trailing s in
    elim rest [ [] ↦ if is_blank c then [] else c ∷ [] | d ∷ r ↦ c ∷ d ∷ r ]

-- What a C string reads as.
unfoldable pub until_nul : CStr → CStr
until_nul [] = []
until_nul (c ∷ s) = let rest = until_nul s in if c == 0 then [] else c ∷ rest

-- parse_option. `bsearch` is the search in `keys`; the buffer has the bytes `behind` after the NUL of
-- the line, which count where `linelen` is more than the length of the line.
unfoldable pub parse_option : (CStr → Option Key) → CStr → CStr → ℕ → Option (Key × CStr)
parse_option bsearch line behind linelen = elim (split_key line) [
  | none ↦ none
  | some (needle, rest) ↦ elim (eat_blanks rest) [
    | [] ↦ none
    | c ∷ q ↦ if not (c == 61) then none else elim (bsearch needle) [
      | none ↦ none
      | some key ↦
          let p = eat_blanks q in
          let len = linelen - (length line - length p) in
          some (key, until_nul (eat_trailing (take len (p ++ 0 ∷ behind))))
    ]
  ]
]
