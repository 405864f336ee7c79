-- ===== src/Util/Pkgver.antt =====
-- lib/util.c: package names, versions and revisions out of a pkgver such as `foo-1.0_1`.
pub mod Split
pub mod Revision
pub mod Build
use xbps.Common.{
  ℕ, suc, ◌+◌, ◌-◌, Bool, true, false, ◌&&◌, ◌||◌, not, Option, none, some, List, [], ◌∷◌, ◌≡◌,
  if◌then◌else◌, ltb, ◌==◌, CStr, is_digit, strchr, strrchr, length, take, drop,
}

-- XBPS_NAME_SIZE
abbrev pub name_size : ℕ
name_size = 64

-- `while (isdigit(*str) || *str == '_') ++str; return *str == '\0';`
unfoldable pub is_revision_rest : CStr → Bool
is_revision_rest [] = true
is_revision_rest (c ∷ s) = if is_digit c || c == b'_' then is_revision_rest s else false

unfoldable pub is_revision : CStr → Bool
is_revision [] = false
is_revision (c ∷ s) = is_revision_rest (c ∷ s)

-- The test at the first `_` behind a digit; `none` is a failed `strchr`.
abbrev at_underscore {ℓ} : {A : Type ℓ} → Option CStr → (CStr → A) → A → A
at_underscore none found next = next
at_underscore (some r) found next = found r

-- The loop of xbps_pkg_version over `p[i..]`: whether it returns `p`.
unfoldable pub version_loop : CStr → Bool
version_loop [] = false
version_loop (c ∷ s) =
    let rest = version_loop s in
    if c == b'_'
    then false
    else if is_digit c
    then at_underscore (strchr s b'_') (λ r. is_revision (drop 1 r)) rest
    else rest

unfoldable pub pkg_version : CStr → Option CStr
pkg_version pkg = elim (strrchr pkg b'-') [
  | none ↦ none
  | some p ↦ if version_loop (drop 1 p) then some (drop 1 p) else none
]

-- `strrchr(r, '_') + 1`
abbrev after_last : ℕ → CStr → Option CStr
after_last c r = elim (strrchr r c) [ none ↦ none | some q ↦ some (drop 1 q) ]

unfoldable pub revision_loop : CStr → Option CStr
revision_loop [] = none
revision_loop (c ∷ s) =
    let rest = revision_loop s in
    if c == b'_'
    then none
    else if is_digit c
    then at_underscore (strchr s b'_')
        (λ r. if not (is_revision (drop 1 r)) then none else after_last b'_' r) rest
    else rest

unfoldable pub pkg_revision : CStr → Option CStr
pkg_revision pkg = elim (strrchr pkg b'-') [ none ↦ none | some p ↦ revision_loop (drop 1 p) ]

-- The loop of xbps_pkg_name: the final value of `valid`.
unfoldable pub name_loop : CStr → Bool
name_loop [] = false
name_loop (c ∷ s) =
    let rest = name_loop s in
    if c == b'_'
    then false
    else if is_digit c
    then at_underscore (strchr s b'_') (λ r. is_revision (drop 1 r)) rest
    else rest

-- `dst` of size `len` is filled with the name; `none` is `return false`.
unfoldable pub pkg_name : ℕ → CStr → Option CStr
pkg_name len pkg = elim (strrchr pkg b'-') [
  | none ↦ none
  | some p ↦
      let plen = length pkg - length p + 1 in
      if not (name_loop (drop 1 p))
      then none
      else if ltb len plen
      then none
      else some (take (plen - 1) pkg)
]
