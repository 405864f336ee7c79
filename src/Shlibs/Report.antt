-- ===== src/Shlibs/Report.antt =====
-- The report of the check is the one of the reference.
use mathlib.Core.List.{append_assoc}
use xbps.Common.{
  some, List, [], ◌∷◌, ◌++◌, ◌≡◌, refl, sym, ap, append-nil, inl, inr, CStr, All, arith, Bool-cases,
}
use xbps.Pkg.{Installed, Pkg}
use xbps.Shlibs.{
  ok, ShlibCtx, shlib_entry_find, libs, broken, check_requires, check_pkg, check_pkgs,
  check_installed, check_pkgdb, check_shlibs, left_missing, transaction_check_shlibs,
}
use xbps.Shlibs.Reference.{joins, stays, lacking, pkg_lacks, pkgs_lack, installed_lack, unresolved}
use xbps.Shlibs.Provided.{HasNames, Decided, passed_over-stays, collect_shlibs-provided}

check_requires_lem :
    (entries : List CStr) (ver : CStr) (missing array : List CStr)
    → check_requires entries (some ver) missing array
      ≡ ok (missing ++ lacking (shlib_entry_find entries) ver array)
unfolding check_requires lacking
check_requires_lem entries ver missing [] = ap ok (sym (append-nil missing))
check_requires_lem entries ver missing (l ∷ array) =
    elim (Bool-cases (shlib_entry_find entries l)) [
      | inl e ↦
          let rest = check_requires_lem entries ver missing array in
          rw (e, check_requires) (ground (arith, rest, e))
      | inr e ↦
          let rest = check_requires_lem entries ver (missing ++ broken ver l ∷ []) array in
          rw (e, check_requires)
            (ground (
              arith,
              rest,
              e,
              append_assoc missing (broken ver l ∷ [])
                  (lacking (shlib_entry_find entries) ver array),
            ))
    ]

check_pkg_lem :
    (ctx : ShlibCtx) (missing : List CStr) (p : Pkg)
    → HasNames p
    → check_pkg ctx missing p ≡ ok (missing ++ pkg_lacks (shlib_entry_find ctx.entries) (joins p) p)
unfolding check_pkg joins pkg_lacks
check_pkg_lem ctx missing p h =
    let g = h.has_ver in
    let r = check_requires_lem ctx.entries h.ver missing (libs p.shlib_requires) in
    let n = append-nil missing in ground (arith, g, r, n)

check_pkgs_lem :
    (ctx : ShlibCtx) (missing : List CStr) (pkgs : List Pkg)
    → All HasNames pkgs
    → check_pkgs ctx missing pkgs ≡ ok (missing ++ pkgs_lack (shlib_entry_find ctx.entries) pkgs)
unfolding check_pkgs pkgs_lack
check_pkgs_lem ctx missing [] h = ap ok (sym (append-nil missing))
check_pkgs_lem ctx missing (p ∷ pkgs) h =
    let has = shlib_entry_find ctx.entries in
    let first = check_pkg_lem ctx missing p h.0 in
    let rest = check_pkgs_lem ctx (missing ++ pkg_lacks has (joins p) p) pkgs h.1 in
    let a = append_assoc missing (pkg_lacks has (joins p) p) (pkgs_lack has pkgs) in
    ground (arith, first, rest, a)

abbrev pub HasPkgver : Installed → Type 0
HasPkgver obj = (ver : CStr) × (obj.pkgd.pkgver ≡ some ver)

module _ (ctx : ShlibCtx) (pkgs : List Pkg) (same : Decided ctx.seen pkgs) where
  check_installed_lem :
      (missing : List CStr) (obj : Installed)
      → HasPkgver obj
      → check_installed ctx missing obj
        ≡ ok (missing ++ pkg_lacks (shlib_entry_find ctx.entries) (stays pkgs obj) obj.pkgd)
  unfolding check_installed pkg_lacks
  check_installed_lem missing obj (ver, g) =
      let e = passed_over-stays ctx.seen pkgs same obj in
      let r = check_requires_lem ctx.entries ver missing (libs obj.pkgd.shlib_requires) in
      let n = append-nil missing in ground (arith, e, g, r, n)

  check_pkgdb_lem :
      (missing : List CStr) (pkgdb : List Installed)
      → All HasPkgver pkgdb
      → check_pkgdb ctx missing pkgdb
        ≡ ok (missing ++ installed_lack (shlib_entry_find ctx.entries) pkgs pkgdb)
  unfolding check_pkgdb installed_lack
  check_pkgdb_lem missing [] h = ap ok (sym (append-nil missing))
  check_pkgdb_lem missing (obj ∷ pkgdb) h =
      let has = shlib_entry_find ctx.entries in
      let first = check_installed_lem missing obj h.0 in
      let rest = check_pkgdb_lem (missing ++ pkg_lacks has (stays pkgs obj) obj.pkgd) pkgdb h.1 in
      let a =
        append_assoc missing (pkg_lacks has (stays pkgs obj) obj.pkgd)
          (installed_lack has pkgs pkgdb) in
      ground (arith, first, rest, a)

-- On packages with their names and installed packages with their pkgvers, the check never fails,
-- and what it leaves in `missing_shlibs` is exactly one message for each library that a package
-- of the resulting system requires and no package of the resulting system provides; without such
-- a library nothing is left.
pub transaction_check_shlibs-unresolved :
    (pkgdb : List Installed) (pkgs : List Pkg)
    → All HasNames pkgs
    → All HasPkgver pkgdb
    → transaction_check_shlibs pkgdb [] pkgs ≡ ok (left_missing (unresolved pkgdb pkgs))
unfolding transaction_check_shlibs check_shlibs unresolved
transaction_check_shlibs-unresolved pkgdb pkgs h k =
    let (ctx, runs, has, same) = collect_shlibs-provided pkgdb pkgs h in
    let first = check_pkgs_lem ctx [] pkgs h in
    let rest =
      check_pkgdb_lem ctx pkgs same (pkgs_lack (shlib_entry_find ctx.entries) pkgs) pkgdb k in
    rw (runs, first, rest, has) refl
