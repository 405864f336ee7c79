-- ===== src/Arrays.antt =====
-- lib/plist_find.c: searches in arrays of package dictionaries.
pub mod Names
pub mod Removal
use xbps.Common.{
  Bool, true, false, ◌&&◌, not, Option, none, some, List, [], ◌∷◌, if◌then◌else◌, CStr, streq,
  is_some, truthy, Run, ret, abort, ◌>>=◌,
}
use xbps.Util.Pkgver.{pkg_name, pkg_version, name_size}
use xbps.Util.Pattern.{pkgpattern_version}
use xbps.Versions.{Versions, pattern_match}
use xbps.Match.{match_virtual_pkg_in_dict}
use xbps.Pkg.{Pkg, TransType, unknown, ◌same_trans◌, pkg_type}

module _ (v : Versions) where
  -- How the loop of get_pkg_in_array tests one dictionary. A dictionary without a pkgver, or with
  -- one that has no name where the name is wanted, aborts.
  unfoldable pub tests : CStr → Bool → Pkg → CStr → Run Bool
  tests str virtual obj pkgver =
      if virtual
      then ret (match_virtual_pkg_in_dict v obj.provides str)
      else if is_some (pkgpattern_version str)
      then ret (truthy (pattern_match v pkgver str))
      else if is_some (pkg_version str)
      then ret (streq str pkgver)
      else elim (pkg_name name_size pkgver) [
        | none ↦ abort
        | some pkgname ↦ ret (streq pkgname str)
      ]

  unfoldable pub is_wanted : CStr → Bool → Pkg → Run Bool
  unfolding tests
  is_wanted str virtual obj = elim (obj.pkgver) [
    | none ↦ abort
    | some pkgver ↦ tests str virtual obj pkgver
  ]

  unfoldable pub first_wanted : List Pkg → CStr → Bool → Run (Option Pkg)
  unfolding is_wanted
  first_wanted [] str virtual = ret none
  first_wanted (obj ∷ array) str virtual = is_wanted str virtual obj >>= λ found. elim found [
    | true ↦ ret (some obj)
    | false ↦ first_wanted array str virtual
  ]

  -- A dictionary of another transaction type than the wanted one is no match, and ends the search.
  unfoldable pub of_type : TransType → Option Pkg → Option Pkg
  of_type tt none = none
  of_type tt (some obj) =
      if not (tt same_trans unknown) && not (pkg_type obj same_trans tt) then none else some obj

  unfoldable pub get_pkg_in_array : List Pkg → CStr → TransType → Bool → Run (Option Pkg)
  unfolding first_wanted of_type
  get_pkg_in_array array str tt virtual = do
    obj ← first_wanted array str virtual
    ret (of_type tt obj)

  unfoldable pub find_pkg_in_array : List Pkg → CStr → TransType → Run (Option Pkg)
  unfolding get_pkg_in_array
  find_pkg_in_array a s tt = get_pkg_in_array a s tt false
