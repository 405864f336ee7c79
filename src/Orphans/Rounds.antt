-- ===== src/Orphans/Rounds.antt =====
-- lib/package_orphans.c, xbps_find_pkg_orphans in recursive mode: the loop over the array.
use xbps.Common.{
  ℕ, zero, suc, ◌+◌, Option, none, some, List, [], ◌∷◌, CStr, length, drop, with_default,
}
use xbps.Walks.{Walk, done, aborted, starved, from_run, ◌>>=◌}
use xbps.Versions.{Versions}
use xbps.Pkg.{Pkg, Installed}
use xbps.Virtual.{Virtuals}
use xbps.Fulldeptree.{pkgdb_get_pkg_fulldeptree}
use xbps.Orphans.Recursive.{users_packages, add_rdeps}

module _ (v : Versions) (vpkgd : List Virtuals) (pkgdb : List Installed)
    (revs : List (CStr × List CStr)) where
  -- One round. The search for a package without a pkgver ends in a fault.
  unfoldable pub process_pkg : List Pkg → Option CStr → Walk (List Pkg)
  process_pkg array none = aborted
  process_pkg array (some pkgver) = pkgdb_get_pkg_fulldeptree v vpkgd pkgdb pkgver >>= λ rdeps.
      from_run (add_rdeps v pkgdb revs array (with_default [] rdeps))

  -- The array grows during the loop; `i` is the index.
  unfoldable pub process : ℕ → ℕ → List Pkg → Walk (List Pkg)
  process zero i array = starved
  process (suc fuel) i array = elim (drop i array) [
    | [] ↦ done array
    | pkgd ∷ pkgds ↦ process_pkg array pkgd.pkgver >>= λ array'. process fuel (i + 1) array'
  ]

  -- One round for each package that the user names or that is installed, and a last one.
  unfoldable pub find_user_orphans : List CStr → Walk (List Pkg)
  find_user_orphans orphans_user =
      let array = users_packages v pkgdb orphans_user in
      process (length array + length pkgdb + 1) 0 array
