-- ===== src/Remove.antt =====
-- lib/plist_remove.c: the first match in an array is removed.
pub mod First
pub mod Modes
use xbps.Common.{
  ℕ, zero, suc, ◌+◌, Bool, true, false, Option, none, some, List, [], ◌∷◌, CStr, streq, truthy,
}
use xbps.Versions.{Versions, pattern_match}
use xbps.Match.{Probe, hit, miss, stop, probe, by_string, pkgname_against_pkgvers}
use xbps.Pkg.{Pkg}

-- The loop, with the test of its mode: the index of the element that is found.
unfoldable pub find_idx {ℓ} : {A : Type ℓ} → (A → Probe) → List A → ℕ → Option ℕ
find_idx test [] idx = none
find_idx test (obj ∷ array) idx =
    let rest = find_idx test array (idx + 1) in
    elim (test obj) [ hit ↦ some idx | miss ↦ rest | stop ↦ none ]

-- xbps_array_remove
unfoldable pub array_remove {ℓ} : {A : Type ℓ} → List A → ℕ → List A
array_remove [] idx = []
array_remove (obj ∷ array) zero = array
array_remove (obj ∷ array) (suc idx) = obj ∷ array_remove array idx

-- `none` is false, with the array as it was.
unfoldable pub remove_obj_from_array {ℓ} : {A : Type ℓ} → (A → Probe) → List A → Option (List A)
remove_obj_from_array test array = elim (find_idx test array 0) [
  | none ↦ none
  | some idx ↦ some (array_remove array idx)
]

-- The tests on a string of a dictionary. Where it is missing, the code compares the string of the
-- dictionary before once more, which was no match.
abbrev pub found_if : (CStr → Bool) → Option CStr → Probe
found_if test none = miss
found_if test (some curname) = elim (test curname) [ true ↦ hit | false ↦ miss ]

unfoldable pub remove_pkg_from_array_by_name : List Pkg → CStr → Option (List Pkg)
remove_pkg_from_array_by_name array str =
    remove_obj_from_array (λ obj. found_if (λ curname. streq curname str) obj.pkgname) array

unfoldable pub remove_pkg_from_array_by_pkgver : List Pkg → CStr → Option (List Pkg)
remove_pkg_from_array_by_pkgver array str =
    remove_obj_from_array (λ obj. found_if (λ curname. streq curname str) obj.pkgver) array

module _ (v : Versions) where
  unfoldable pub remove_string_from_array : List CStr → CStr → Option (List CStr)
  remove_string_from_array array str = remove_obj_from_array (probe v by_string str) array

  unfoldable pub remove_pkgname_from_array : List CStr → CStr → Option (List CStr)
  remove_pkgname_from_array array str =
      remove_obj_from_array (probe v pkgname_against_pkgvers str) array

  unfoldable pub remove_pkg_from_array_by_pattern : List Pkg → CStr → Option (List Pkg)
  remove_pkg_from_array_by_pattern array str =
      remove_obj_from_array
        (λ obj. found_if (λ curname. truthy (pattern_match v curname str)) obj.pkgver) array
