-- ===== src/Store.antt =====
-- lib/transaction_store.c: a package enters the transaction.
pub mod Newest
use xbps.Common.{
  ℕ, zero, suc, Bool, true, false, ◌||◌, Option, none, some, List, [], ◌∷◌, ◌++◌, if◌then◌else◌,
  CStr, codes, with_default, ℤ, pos, negsuc, Run, ret, abort, ◌>>=◌,
}
use xbps.Versions.{Versions}
use xbps.Pkg.{Pkg, unknown}
use xbps.Arrays.{find_pkg_in_array}
use xbps.Remove.{remove_pkg_from_array_by_pkgver}

-- The copy of `pkgrd` that is added: marked as automatic if so asked, and replacing any version
-- of its own name.
unfoldable pub stored_copy : Pkg → CStr → Bool → Pkg
stored_copy pkgrd pkgname autoinst = record pkgrd {
  automatic_install = if autoinst then some true else pkgrd.automatic_install;
  replaces = some (with_default [] pkgrd.replaces ++ (pkgname ++ codes ">=0") ∷ []);
}

-- `rv == 0 || rv == -1`
unfoldable pub not_newer : ℤ → Bool
not_newer (pos zero) = true
not_newer (pos (suc n)) = false
not_newer (negsuc zero) = true
not_newer (negsuc (suc n)) = false

module _ (v : Versions) where
  -- The part on the package of that name in the transaction, if there is one. The array is changed
  -- in place; the flag is the result.
  unfoldable pub store_over : List Pkg → Pkg → CStr → CStr → Bool → Option Pkg → List Pkg × Bool
  unfolding stored_copy not_newer
  store_over pkgs pkgrd pkgver pkgname autoinst none =
      (pkgs ++ stored_copy pkgrd pkgname autoinst ∷ [], true)
  store_over pkgs pkgrd pkgver pkgname autoinst (some d) = elim (d.pkgver) [
    | none ↦ (pkgs, false)
    | some curpkgver ↦
        if not_newer (v.cmpver pkgver curpkgver)
        then (pkgs, true)
        else elim (remove_pkg_from_array_by_pkgver pkgs curpkgver) [
          | none ↦ (pkgs, false)
          | some kept ↦ (kept ++ stored_copy pkgrd pkgname autoinst ∷ [], true)
        ]
  ]

  unfoldable pub transaction_store : List Pkg → Pkg → Bool → Run (List Pkg × Bool)
  unfolding store_over
  transaction_store pkgs pkgrd autoinst = elim (pkgrd.pkgver) [
    | none ↦ ret (pkgs, false)
    | some pkgver ↦ elim (pkgrd.pkgname) [
      | none ↦ ret (pkgs, false)
      | some pkgname ↦ find_pkg_in_array v pkgs pkgname unknown >>= λ d.
          ret (store_over pkgs pkgrd pkgver pkgname autoinst d)
    ]
  ]
