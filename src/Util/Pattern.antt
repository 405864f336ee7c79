-- ===== src/Util/Pattern.antt =====
-- lib/util.c: package patterns such as `foo>=1.0` or `foo-[0-9]*`, and lists of file patterns.
pub mod Names
pub mod LastMatch
use Prim.Native.Nat.{ℕ}
use xbps.Common.{
  suc, ◌+◌, ◌-◌, ◌%◌, ◌^◌, Bool, true, false, ◌&&◌, ◌||◌, not, Option, none, some, List, [], ◌∷◌,
  ◌≡◌, if◌then◌else◌, ltb, ◌==◌, CStr, codes, strpbrk, streq, length, take, drop, is_some, ℤ, pos,
  negsuc,
}

-- `size_t` wraps around here.
abbrev pub size_mod : ℕ
size_mod = 2 ^ 64

abbrev pub pattern_chars : CStr
pattern_chars = codes "><*?[]"

-- `pkg[i]`, with the NUL at the end.
unfoldable pub byte_at : CStr → ℕ → ℕ
byte_at [] i = 0
byte_at (c ∷ s) ℕ.zero = c
byte_at (c ∷ s) (ℕ.suc i) = byte_at s i

-- The part of xbps_pkgpattern_name behind the search, with the offset of the first pattern byte.
unfoldable pub pattern_name_at : ℕ → CStr → ℕ → Option CStr
unfolding byte_at
pattern_name_at len pkg offset =
    let plen = offset + 1 in
    let back = (plen + size_mod - 2) % size_mod in
    if ltb (length pkg) back
    then none
    else let cut = if byte_at pkg back == b'-' then plen - 1 else plen in
      if ltb len cut then none else some (take (cut - 1) pkg)

unfoldable pub pkgpattern_name : ℕ → CStr → Option CStr
pkgpattern_name len pkg = elim (strpbrk pkg pattern_chars) [
  | none ↦ none
  | some res ↦ pattern_name_at len pkg (length pkg - length res)
]

unfoldable pub pkgpattern_version : CStr → Option CStr
pkgpattern_version pkg = strpbrk pkg pattern_chars

-- `fnmatch(3)` of the C library and dewey_match of lib/external/dewey.c: each gives its `int`.
module _ (fnmatch : CStr → CStr → Bool) (dewey_match : CStr → CStr → ℤ) where
  -- The `fnmatch` here is called with FNM_PERIOD.
  unfoldable pub pkgpattern_match : CStr → CStr → ℤ
  pkgpattern_match pkg pattern =
      if streq pattern pkg
      then pos 1
      else if is_some (strpbrk pattern (codes "<>"))
      then dewey_match pattern pkg
      else if is_some (strpbrk pattern (codes "*?[]"))
      then (if fnmatch pattern pkg then pos 1 else pos 0)
      else pos 0

-- xbps_patterns_match: `!` in front negates, and `\` protects a `!`.
unfoldable pub negated : CStr → Bool
negated pattern = byte_at pattern 0 == b'!'

-- The pattern behind a leading `!` or `\`.
unfoldable pub bare : CStr → CStr
bare pattern =
    if byte_at pattern 0 == b'!' || byte_at pattern 0 == b'\\' then drop 1 pattern else pattern

-- Here `fnmatch` is called with no flag.
module _ (fnmatch : CStr → CStr → Bool) where
  -- The loop; an entry that is no string is `none`.
  unfoldable pub patterns_match_loop : List (Option CStr) → CStr → Bool → Bool
  unfolding bare negated
  patterns_match_loop [] path match = match
  patterns_match_loop (none ∷ ps) path match = patterns_match_loop ps path match
  patterns_match_loop (some pattern ∷ ps) path match =
      patterns_match_loop ps path
        (if fnmatch (bare pattern) path then not (negated pattern) else match)

  unfoldable pub patterns_match : Option (List (Option CStr)) → CStr → Bool
  patterns_match none path = false
  patterns_match (some ps) path = patterns_match_loop ps path false
