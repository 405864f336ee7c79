-- ===== src/Revdeps.antt =====
-- lib/pkgdb.c: the table of reverse dependencies.
pub mod Table
pub mod Complete
use xbps.Common.{
  Bool, true, false, Option, none, some, List, [], ◌∷◌, ◌++◌, if◌then◌else◌, CStr, with_default,
  Run, ret, abort, ◌>>=◌, find_key, set_key,
}
use xbps.Util.Pkgver.{pkg_name, name_size}
use xbps.Util.Pattern.{pkgpattern_name}
use xbps.Versions.{Versions}
use xbps.Pkg.{Pkg, Installed}
use xbps.Match.{match_string_in_array, by_string}
use xbps.Virtual.{Virtuals, vpkg_user_conf, pkgdb_get_pkg}

-- The name of the package that a dependency asks for: xbps_pkgpattern_name, else xbps_pkg_name.
unfoldable pub dep_name : CStr → Option CStr
dep_name dep = elim (pkgpattern_name name_size dep) [
  | none ↦ pkg_name name_size dep
  | some name ↦ some name
]

-- xhp->pkgdb_revdeps and the local vpkg_cache.
pub record RevTable : Type 0 where
  pub revdeps : List (CStr × List CStr)
  pub vpkg_cache : List (CStr × CStr)

module _ (v : Versions) (vpkgd : List Virtuals) where
  -- The package that stands for a name, through the cache.
  unfoldable pub cached : List (CStr × CStr) → CStr → Run (List (CStr × CStr) × CStr)
  unfolding find_key set_key
  cached vpkg_cache name = elim (find_key vpkg_cache name) [
    | some real ↦ ret (vpkg_cache, real)
    | none ↦ vpkg_user_conf v vpkgd name >>= λ vpkgname.
        ret (set_key vpkg_cache name (with_default name vpkgname), with_default name vpkgname)
  ]

  -- The pkgver enters the array of the name, if it is not there.
  unfoldable pub add_revdep : List (CStr × List CStr) → CStr → CStr → List (CStr × List CStr)
  unfolding find_key set_key
  add_revdep revdeps name pkgver =
      let pkg = with_default [] (find_key revdeps name) in
      if match_string_in_array v by_string pkgver pkg
      then revdeps
      else set_key revdeps name (pkg ++ pkgver ∷ [])

  unfoldable pub one_dep : CStr → RevTable → CStr → Run RevTable
  unfolding cached add_revdep
  one_dep pkgver t pkgdep = elim (dep_name pkgdep) [
    | none ↦ abort
    | some curpkgname ↦ cached t.vpkg_cache curpkgname >>= λ r.
        ret (record { revdeps = add_revdep t.revdeps r.1 pkgver; vpkg_cache = r.0 })
  ]

  unfoldable pub all_deps : CStr → RevTable → List CStr → Run RevTable
  unfolding one_dep
  all_deps pkgver t [] = ret t
  all_deps pkgver t (pkgdep ∷ rundeps) =
      one_dep pkgver t pkgdep >>= λ t'. all_deps pkgver t' rundeps

  -- A package without a pkgver that has dependencies fails the assertion of the string search.
  unfoldable pub one_pkg : RevTable → Installed → Run RevTable
  unfolding all_deps
  one_pkg t obj = elim (with_default [] obj.pkgd.run_depends) [
    | [] ↦ ret t
    | dep ∷ deps ↦ elim (obj.pkgd.pkgver) [
      | none ↦ abort
      | some pkgver ↦ all_deps pkgver t (dep ∷ deps)
    ]
  ]

  unfoldable pub all_pkgs : RevTable → List Installed → Run RevTable
  unfolding one_pkg
  all_pkgs t [] = ret t
  all_pkgs t (obj ∷ pkgdb) = one_pkg t obj >>= λ t'. all_pkgs t' pkgdb

  unfoldable pub generate_full_revdeps_tree : List Installed → Run (List (CStr × List CStr))
  unfolding all_pkgs
  generate_full_revdeps_tree pkgdb =
      all_pkgs (record { revdeps = []; vpkg_cache = [] }) pkgdb >>= λ t. ret t.revdeps

module _ (v : Versions) where
  -- On the table that the handle keeps; a missing array is NULL, and a package without a pkgver
  -- fails an assertion of xbps_pkg_name.
  unfoldable pub get_pkg_revdeps :
      List Installed → List (CStr × List CStr) → CStr → Run (Option (List CStr))
  unfolding find_key
  get_pkg_revdeps pkgdb revdeps pkg = elim (pkgdb_get_pkg v pkgdb pkg) [
    | none ↦ ret none
    | some obj ↦ elim (obj.pkgd.pkgver) [
      | none ↦ abort
      | some pkgver ↦ elim (pkg_name name_size pkgver) [
        | none ↦ ret none
        | some pkgname ↦ ret (find_key revdeps pkgname)
      ]
    ]
  ]
