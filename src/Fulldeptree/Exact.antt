-- ===== src/Fulldeptree/Exact.antt =====
-- The result of the whole walk.
use xbps.Common.{
  ℕ, zero, suc, ◌+◌, ◌≤◌, ◌<◌, false, Option, some, List, [], ◌∷◌, ◌≡◌, refl, ap, subst, inl, CStr,
  length, map, Run, ret, In, find_key, arith, count_if-le-length,
}
use xbps.Versions.{Versions}
use xbps.Pkg.{Pkg, Installed}
use xbps.Virtual.{Virtuals}
use xbps.Walks.{Reaches, reached, Reaches-bind}
use xbps.Fulldeptree.{
  Deptree, ordered_depends, get_pkg_fulldeptree, find_installed, pkgdb_get_pkg_fulldeptree,
}
use xbps.Fulldeptree.Needs.{
  Listed, Needs, direct, further, IsFull, Closed, Belongs, IsSane, IsTree, unknown_to,
}
use xbps.Fulldeptree.Steps.{Kept}
use xbps.Fulldeptree.Opened.{filled}
use xbps.Fulldeptree.Visits.{ordered_depends-Visits}

module _ (v : Versions) (find : CStr → Run (Option Pkg)) (db : List Pkg) (sane : IsSane v find db)
    (root : Pkg) (root_in_db : In root db) where
  abbrev empty : Deptree
  empty = record { items = []; result = [] }

  empty-IsTree : IsTree v find db root empty
  unfolding find_key
  empty-IsTree = record {
    real = λ n x e. absurd (cc);
    sound = λ w i. elim i [ ];
    settled = λ n x e. absurd (cc);
  }

  pub Needs-in_db : {p : Pkg} → Needs v find root p → In p db
  Needs-in_db (direct s) = sane.in_db s.dep _ (root, root_in_db, s.has_dep) s.finds
  Needs-in_db (further {p = p} n s) = sane.in_db s.dep _ (p, Needs-in_db n, s.has_dep) s.finds

  module _ (t : Deptree) (kept : Kept v find db root empty t) (closed : Closed v find root t) where
    needed-Listed : {p : Pkg} → Needs v find root p → Listed p t
    unfolding find_key
    needed-Listed (direct {q = q} s) = closed q s
    needed-Listed (further {p = p} {q = q} n s) =
        let l = needed-Listed n in
        kept.closed p l.name (Needs-in_db n) l.has_name refl l.is_known q s

    full : IsFull v find root t.result
    full ver = (
      kept.tree.sound ver,
      λ (p, n, has).
          let l = needed-Listed n in
          let has' = l.has_ver in
          let same : l.ver ≡ ver = ground (arith, has, has') in
          subst (λ w. In w t.result) same l.in_result,
    )

  root_call :
      (fuel : ℕ)
      → length db ≤ fuel
      → Reaches
          (λ r. IsFull v find root (r.1.result))
          (ordered_depends v find false (suc fuel) root 0 empty)
  unfolding ordered_depends find_key
  root_call fuel enough =
      let (n, ver, e, g) = sane.whole root root_in_db in
      let b : Belongs v find db root root = record { in_db = root_in_db; part = inl refl } in
      let bound = count_if-le-length (unknown_to v find db root empty) db in
      simp (e, g, ordered_depends)
        (Reaches-bind
          (filled v find db root sane root n ver empty b e g refl empty-IsTree fuel _
            (ordered_depends-Visits v find db root sane fuel 1 (omega arith)) (omega arith))
          (λ t k. reached (full t (k.0) (k.1))))

  pub get_pkg_fulldeptree-IsFull :
      (pkg : CStr) (fuel : ℕ)
      → find pkg ≡ ret (some root)
      → length db < fuel
      → Reaches
          (λ o. (l : List CStr) × (o ≡ some l) × IsFull v find root l)
          (get_pkg_fulldeptree v find false fuel pkg)
  unfolding get_pkg_fulldeptree
  get_pkg_fulldeptree-IsFull pkg zero finds enough = absurd (omega arith)
  get_pkg_fulldeptree-IsFull pkg (suc fuel) finds enough =
      rw (finds, get_pkg_fulldeptree)
        (Reaches-bind (root_call fuel (omega arith)) (λ r full. reached (r.1.result, refl, full)))

pkgd-length : (pkgdb : List Installed) → length (map (λ o. o.pkgd) pkgdb) ≡ length pkgdb
pkgd-length [] = refl
pkgd-length (o ∷ pkgdb) = ap suc (pkgd-length pkgdb)

-- In a sane package database, the walk from an installed package always ends with a list, which
-- holds exactly the pkgvers of the packages that it needs over any number of steps.
pub pkgdb_get_pkg_fulldeptree-IsFull :
    (v : Versions) (vpkgd : List Virtuals) (pkgdb : List Installed) (pkg : CStr) (root : Pkg)
    → IsSane v (find_installed v vpkgd pkgdb) (map (λ o. o.pkgd) pkgdb)
    → find_installed v vpkgd pkgdb pkg ≡ ret (some root)
    → In root (map (λ o. o.pkgd) pkgdb)
    → Reaches
        (λ o. (l : List CStr) × (o ≡ some l) × IsFull v (find_installed v vpkgd pkgdb) root l)
        (pkgdb_get_pkg_fulldeptree v vpkgd pkgdb pkg)
unfolding pkgdb_get_pkg_fulldeptree
pkgdb_get_pkg_fulldeptree-IsFull v vpkgd pkgdb pkg root sane finds in_db =
    let same = pkgd-length pkgdb in
    get_pkg_fulldeptree-IsFull v (find_installed v vpkgd pkgdb) (map (λ o. o.pkgd) pkgdb) sane root
      in_db pkg (length pkgdb + 1) finds (omega arith)
