-- ===== src/Fulldeptree.antt =====
-- lib/package_fulldeptree.c: all packages that a package needs.
pub mod Needs
pub mod Steps
pub mod Loop
pub mod Opened
pub mod Visits
pub mod Exact
use xbps.Walks.{Walk, done, missing, aborted, starved, ◌>>=◌, from_run}
use xbps.Common.{
  ℕ, zero, suc, ◌+◌, Bool, true, false, not, ◌&&◌, Option, none, some, List, [], ◌∷◌, if◌then◌else◌,
  ltb, ◌==◌, CStr, length, with_default, Run, ret, abort, find_key, set_key,
}
use xbps.Versions.{Versions}
use xbps.Pkg.{Pkg, Installed}
use xbps.Match.{match_string_in_array, by_string, pkgname_against_pkgvers}
use xbps.Virtual.{Virtuals, pkgdb_get_pkg, pkgdb_get_virtualpkg}
use xbps.Revdeps.{dep_name}

-- `struct item`; the items of `dbase` are named by their keys.
pub record TreeItem : Type 0 where
  pub pkgver : CStr
  pub dbase : List CStr

-- The static variables `items` and `result`.
pub record Deptree : Type 0 where
  pub items : List (CStr × TreeItem)
  pub result : List CStr

-- `depn->dnext = xitem->dbase; xitem->dbase = depn`
unfoldable pub add_depn : CStr → CStr → Deptree → Deptree
add_depn pkgn xpkgn t = elim (find_key t.items xpkgn) [
  | none ↦ t
  | some x ↦ record t { items = set_key t.items xpkgn (record x { dbase = pkgn ∷ x.dbase }) }
]

-- A loop that passes the variables on.
unfoldable pub for_each : (CStr → Deptree → Walk Deptree) → List CStr → Deptree → Walk Deptree
for_each f [] t = done t
for_each f (x ∷ xs) t = f x t >>= λ t'. for_each f xs t'

module _ (v : Versions) where
  -- On fuel: the lists `dbase` might form a cycle.
  unfoldable pub add_deps_recursive : ℕ → CStr → Bool → Deptree → Walk Deptree
  add_deps_recursive zero pkgn first t = starved
  add_deps_recursive (suc fuel) pkgn first t = elim (find_key t.items pkgn) [
    | none ↦ aborted
    | some item ↦
        if match_string_in_array v by_string item.pkgver t.result
        then done t
        else for_each (λ dep t. add_deps_recursive fuel dep false t) item.dbase t >>= λ t'.
            done (if first then t' else record t' { result = item.pkgver ∷ t'.result })
  ]

  -- `provides && xbps_match_pkgname_in_array(provides, curdepname)`
  unfoldable pub is_provided : Option (List CStr) → CStr → Bool
  is_provided none curdepname = false
  is_provided (some provides) curdepname =
      match_string_in_array v pkgname_against_pkgvers curdepname provides

  -- `find` is the search in the repository pool, if `rpool`, or in the package database.
  module _ (find : CStr → Run (Option Pkg)) (rpool : Bool) where
    -- A dependency for which a package is found; `visit` is the recursive call.
    unfoldable pub found_depend :
        (Pkg → Deptree → Walk (CStr × Deptree))
        → CStr
        → Option (List CStr)
        → Pkg
        → Option CStr
        → Deptree
        → Walk Deptree
    found_depend visit pkgname provides pkgd none t = aborted
    found_depend visit pkgname provides pkgd (some curdepname) t =
        if is_provided provides curdepname then done t else elim (find_key t.items curdepname) [
          | some xitem ↦ add_deps_recursive (length t.items + 1) curdepname false t
          | none ↦ visit pkgd t >>= λ r. done (add_depn pkgname r.0 r.1)
        ]

    -- One round of the loop over `run_depends`.
    unfoldable pub one_depend :
        (Pkg → Deptree → Walk (CStr × Deptree))
        → CStr
        → Option (List CStr)
        → CStr
        → Deptree
        → Walk Deptree
    one_depend visit pkgname provides curdep t = from_run (find curdep) >>= λ curpkgd.
        elim curpkgd [
          | none ↦ if rpool then missing else done t
          | some pkgd ↦ found_depend visit pkgname provides pkgd (dep_name curdep) t
        ]

    -- The result is the key of the item.
    unfoldable pub ordered_depends : ℕ → Pkg → ℕ → Deptree → Walk (CStr × Deptree)
    ordered_depends zero pkgd depth t = starved
    ordered_depends (suc fuel) pkgd depth t = elim (pkgd.pkgname) [
      | none ↦ aborted
      | some pkgname ↦ elim (find_key t.items pkgname) [
        | some item ↦ add_deps_recursive (length t.items + 1) pkgname (depth == 0) t >>= λ t'.
            done (pkgname, t')
        | none ↦ elim (pkgd.pkgver) [
          | none ↦ aborted
          | some pkgver ↦
              for_each
                (one_depend (λ p t. ordered_depends fuel p (depth + 1) t) pkgname pkgd.provides)
                (with_default [] pkgd.run_depends)
                (record t { items = (pkgname, record { pkgver = pkgver; dbase = [] }) ∷ t.items })
              >>= λ t'. done (
                pkgname,
                (if ltb 0 depth && not (match_string_in_array v by_string pkgver t'.result)
                    then record t' { result = pkgver ∷ t'.result }
                    else t'),
              )
        ]
      ]
    ]

    -- `none` is a package that is not found. The static items are empty, as they are unless a walk
    -- before has returned NULL.
    unfoldable pub get_pkg_fulldeptree : ℕ → CStr → Walk (Option (List CStr))
    get_pkg_fulldeptree fuel pkg = from_run (find pkg) >>= λ found. elim found [
      | none ↦ done none
      | some pkgd ↦ ordered_depends fuel pkgd 0 (record { items = []; result = [] }) >>= λ r.
          done (some (r.1.result))
    ]

  -- xbps_pkgdb_get_pkg, else xbps_pkgdb_get_virtualpkg
  unfoldable pub find_installed : List Virtuals → List Installed → CStr → Run (Option Pkg)
  find_installed vpkgd pkgdb dep = elim (pkgdb_get_pkg v pkgdb dep) [
    | some obj ↦ ret (some obj.pkgd)
    | none ↦ elim (pkgdb_get_virtualpkg v vpkgd pkgdb dep) [
      | ret (some obj) ↦ ret (some obj.pkgd)
      | ret none ↦ ret none
      | abort ↦ abort
    ]
  ]

  -- xbps_pkgdb_get_pkg_fulldeptree: each call of ordered_depends adds an item, so that one for each
  -- package, and a last one, are enough.
  unfoldable pub pkgdb_get_pkg_fulldeptree :
      List Virtuals → List Installed → CStr → Walk (Option (List CStr))
  pkgdb_get_pkg_fulldeptree vpkgd pkgdb pkg =
      get_pkg_fulldeptree (find_installed vpkgd pkgdb) false (length pkgdb + 1) pkg
