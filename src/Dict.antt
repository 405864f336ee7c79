-- ===== src/Dict.antt =====
-- lib/plist_find.c: searches in a dictionary of packages, such as the pkgdb.
pub mod Access
use xbps.Common.{
  Bool, true, false, Option, none, some, List, [], ◌∷◌, if◌then◌else◌, CStr, streq, is_some, truthy,
}
use xbps.Util.Pkgver.{pkg_name, pkg_version, name_size}
use xbps.Util.Pattern.{pkgpattern_name, pkgpattern_version}
use xbps.Versions.{Versions, pattern_match}
use xbps.Pkg.{Pkg, Installed}

-- xbps_dictionary_get, with the key: the entry is a reference to the dictionary there.
unfoldable pub dict_get : List Installed → CStr → Option Installed
dict_get [] key = none
dict_get (obj ∷ d) key = if streq obj.key key then some obj else dict_get d key

-- xbps_dictionary_set
unfoldable pub dict_set : List Installed → CStr → Pkg → List Installed
dict_set [] key pkgd = record { key = key; pkgd = pkgd } ∷ []
dict_set (obj ∷ d) key pkgd =
    if streq obj.key key then record { key = key; pkgd = pkgd } ∷ d else obj ∷ dict_set d key pkgd

-- An entry whose pkgver passes a test.
abbrev pub checked : (CStr → Bool) → Option Installed → Option Installed
checked test none = none
checked test (some obj) = elim (obj.pkgd.pkgver) [
  | none ↦ none
  | some pkgver ↦ if test pkgver then some obj else none
]

unfoldable pub match_pkg_by_pkgver : List Installed → CStr → Option Installed
unfolding dict_get
match_pkg_by_pkgver repod p = elim (pkg_name name_size p) [
  | none ↦ none
  | some pkgname ↦ checked (λ pkgver. streq pkgver p) (dict_get repod pkgname)
]

module _ (v : Versions) where
  unfoldable pub match_pkg_by_pattern : List Installed → CStr → Option Installed
  unfolding match_pkg_by_pkgver
  match_pkg_by_pattern repod p = elim (pkgpattern_name name_size p) [
    | none ↦ if is_some (pkg_name name_size p) then match_pkg_by_pkgver repod p else none
    | some pkgname ↦ checked (λ pkgver. truthy (pattern_match v pkgver p)) (dict_get repod pkgname)
  ]

  unfoldable pub find_pkg_in_dict : List Installed → CStr → Option Installed
  unfolding match_pkg_by_pattern
  find_pkg_in_dict d pkg =
      if is_some (pkgpattern_version pkg)
      then match_pkg_by_pattern d pkg
      else if is_some (pkg_version pkg)
      then match_pkg_by_pkgver d pkg
      else dict_get d pkg
