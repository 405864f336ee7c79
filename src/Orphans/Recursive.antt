-- ===== src/Orphans/Recursive.antt =====
-- lib/package_orphans.c, xbps_find_pkg_orphans in recursive mode: how the packages
-- that the user removes enter the array, and how the ones that they needed do.
use xbps.Common.{
  Bool, false, not, none, some, List, [], ◌∷◌, ◌++◌, if◌then◌else◌, ◌==◌, CStr, length,
  with_default, Run, ret, ◌>>=◌,
}
use xbps.Versions.{Versions}
use xbps.Pkg.{Pkg, Installed}
use xbps.Virtual.{pkgdb_get_pkg}
use xbps.Revdeps.{get_pkg_revdeps}
use xbps.Orphans.{is_queued, count_queued}

module _ (v : Versions) (pkgdb : List Installed) where
  -- The packages that the user names, where they are installed.
  unfoldable pub users_packages : List CStr → List Pkg
  users_packages [] = []
  users_packages (pkgver ∷ orphans_user) =
      let rest = users_packages orphans_user in
      elim (pkgdb_get_pkg v pkgdb pkgver) [ none ↦ rest | some obj ↦ obj.pkgd ∷ rest ]

  module _ (revs : List (CStr × List CStr)) where
    -- `cnt == reqbycnt`
    unfoldable pub is_unneeded : List Pkg → CStr → Run Bool
    is_unneeded array deppkgver = get_pkg_revdeps v pkgdb revs deppkgver >>= λ reqby.
        count_queued v array (with_default [] reqby) 0 >>= λ cnt.
        ret (cnt == length (with_default [] reqby))

    -- A package that is not found is not automatic.
    unfoldable pub add_rdep : List Pkg → CStr → Run (List Pkg)
    add_rdep array deppkgver = is_queued v array deppkgver >>= λ queued.
        if queued then ret array else elim (pkgdb_get_pkg v pkgdb deppkgver) [
          | none ↦ ret array
          | some obj ↦
              if not (with_default false obj.pkgd.automatic_install)
              then ret array
              else is_unneeded array deppkgver >>= λ unneeded.
                  ret (if unneeded then array ++ obj.pkgd ∷ [] else array)
        ]

    unfoldable pub add_rdeps : List Pkg → List CStr → Run (List Pkg)
    add_rdeps array [] = ret array
    add_rdeps array (deppkgver ∷ rdeps) =
        add_rdep array deppkgver >>= λ array'. add_rdeps array' rdeps
