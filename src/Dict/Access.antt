-- ===== src/Dict/Access.antt =====
-- Reading a dictionary behind a change.
use xbps.Common.{
  Bool, true, Option, none, some, List, [], ◌∷◌, ◌≡◌, refl, ap, sym, ◌∙◌, inl, inr, if◌then◌else◌,
  In, here, there, truthy, CStr, streq, streq_iff, arith, Bool-cases, Option-cases,
}
use xbps.Util.Pkgver.{pkg_name, pkg_version, name_size}
use xbps.Util.Pattern.{pkgpattern_version, pkgpattern_name}
use xbps.Versions.{Versions, pattern_match}
use xbps.Pkg.{Pkg, Installed}
use xbps.Dict.{
  dict_get, dict_set, match_pkg_by_pkgver, checked, find_pkg_in_dict, match_pkg_by_pattern,
}

-- A lookup behind a change finds the new dictionary under its key, and what was there elsewhere.
pub dict_get-dict_set :
    (d : List Installed) (key other : CStr) (pkgd : Pkg)
    → dict_get (dict_set d key pkgd) other
      ≡ (if streq key other then some (record { key = key; pkgd = pkgd }) else dict_get d other)
unfolding dict_get dict_set
dict_get-dict_set [] key other pkgd = refl
dict_get-dict_set (obj ∷ d) key other pkgd = ground (
  arith,
  streq_iff obj.key key,
  streq_iff obj.key other,
  streq_iff key other,
  dict_get-dict_set d key other pkgd,
)

-- A pkgver that is no pattern.
pub record IsExact (pkgver name : CStr) : Type 0 where
  pub no_pattern : pkgpattern_version pkgver ≡ none
  pub version : CStr
  pub has_version : pkg_version pkgver ≡ some version
  pub has_name : pkg_name name_size pkgver ≡ some name

-- A search for an exact pkgver reads the entry of its name.
pub find_pkg_in_dict-exact :
    (v : Versions) (d : List Installed) {pkgver name : CStr}
    → IsExact pkgver name
    → find_pkg_in_dict v d pkgver ≡ checked (λ cur. streq cur pkgver) (dict_get d name)
unfolding find_pkg_in_dict match_pkg_by_pkgver
find_pkg_in_dict-exact v d h =
    rw (h.no_pattern, h.has_version) (rw (h.has_name, match_pkg_by_pkgver) refl)

pub dict_get-key :
    (d : List Installed) (key : CStr) {obj : Installed} → dict_get d key ≡ some obj → obj.key ≡ key
unfolding dict_get
dict_get-key [] key h = absurd (cc)
dict_get-key (o ∷ d) key {obj} h = elim (Bool-cases (streq o.key key)) [
  | inl e ↦ let same : o ≡ obj = ground arith in rw (← same) ((streq_iff o.key key).0 e)
  | inr e ↦ dict_get-key d key {obj = obj} (ground arith)
]

-- What the test of an entry lets pass.
pub checked-some :
    (test : CStr → Bool) (o : Option Installed) {obj : Installed}
    → checked test o ≡ some obj
    → (o ≡ some obj) × ((ver : CStr) × (obj.pkgd.pkgver ≡ some ver) × (test ver ≡ true))
checked-some test none h = absurd (cc)
checked-some test (some o) {obj} h = elim (Option-cases o.pkgd.pkgver) [
  | inl e ↦ absurd (ground arith)
  | inr (ver, e) ↦
      let t : test ver ≡ true = ground arith in
      let same : o ≡ obj = ground arith in
      (ap some same, (ver, ap (λ x. x.pkgd.pkgver) (sym same) ∙ e, t))
]

-- What a search finds is in the dictionary.
pub dict_get-In :
    (d : List Installed) (key : CStr) {obj : Installed} → dict_get d key ≡ some obj → In obj d
unfolding dict_get
dict_get-In [] key h = absurd (cc)
dict_get-In (o ∷ d) key {obj} h = elim (Bool-cases (streq o.key key)) [
  | inl e ↦ let same : o ≡ obj = ground arith in rw same here
  | inr e ↦ there (dict_get-In d key {obj = obj} (ground arith))
]

checked-In :
    (d : List Installed) (test : CStr → Bool) (key : CStr) {obj : Installed}
    → checked test (dict_get d key) ≡ some obj
    → In obj d
checked-In d test key h = dict_get-In d key ((checked-some test (dict_get d key) h).0)

match_pkg_by_pkgver-In :
    (d : List Installed) (p : CStr) {obj : Installed}
    → match_pkg_by_pkgver d p ≡ some obj
    → In obj d
unfolding match_pkg_by_pkgver
match_pkg_by_pkgver-In d p h = elim (Option-cases (pkg_name name_size p)) [
  | inl e ↦ absurd (ground (arith, e, h))
  | inr (name, e) ↦ checked-In d (λ pkgver. streq pkgver p) name (ground (arith, e, h))
]

pub find_pkg_in_dict-In :
    (v : Versions) (d : List Installed) (pkg : CStr) {obj : Installed}
    → find_pkg_in_dict v d pkg ≡ some obj
    → In obj d
unfolding find_pkg_in_dict match_pkg_by_pattern
find_pkg_in_dict-In v d pkg {obj} h = elim (Option-cases (pkgpattern_version pkg)) [
  | inl e ↦ elim (Option-cases (pkg_version pkg)) [
    | inl f ↦ dict_get-In d pkg (ground (arith, e, f, h))
    | inr (ver, f) ↦ match_pkg_by_pkgver-In d pkg (ground (arith, e, f, h))
  ]
  | inr (pat, e) ↦ elim (Option-cases (pkgpattern_name name_size pkg)) [
    | inr (name, f) ↦
        checked-In d (λ pkgver. truthy (pattern_match v pkgver pkg)) name (ground (arith, e, f, h))
    | inl f ↦ elim (Option-cases (pkg_name name_size pkg)) [
      | inl g ↦ absurd (ground (arith, e, f, g, h))
      | inr (name, g) ↦ match_pkg_by_pkgver-In d pkg (ground (arith, e, f, g, h))
    ]
  ]
]

-- What a search by a pkgver finds has it.
pub find_pkg_in_dict-pkgver :
    (v : Versions) (d : List Installed) (pkg : CStr) {ver : CStr} {obj : Installed}
    → pkgpattern_version pkg ≡ none
    → pkg_version pkg ≡ some ver
    → find_pkg_in_dict v d pkg ≡ some obj
    → obj.pkgd.pkgver ≡ some pkg
unfolding find_pkg_in_dict match_pkg_by_pkgver
find_pkg_in_dict-pkgver v d pkg {obj = obj} e f h = elim (Option-cases (pkg_name name_size pkg)) [
  | inl g ↦ absurd (ground (arith, e, f, g, h))
  | inr (name, g) ↦
      let found : checked (λ cur. streq cur pkg) (dict_get d name) ≡ some obj =
        ground (arith, e, f, g, h) in
      let (i, (ver, k, t)) = checked-some (λ cur. streq cur pkg) (dict_get d name) found in
      k ∙ ap some ((streq_iff ver pkg).0 t)
]
