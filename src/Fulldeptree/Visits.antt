-- ===== src/Fulldeptree/Visits.antt =====
-- One call of ordered_depends, with all calls that it makes.
use xbps.Common.{
  ℕ, zero, suc, ◌+◌, ◌<◌, true, false, not, ◌&&◌, Option, none, some, List, [], ◌∷◌, ◌≡◌, subst,
  inl, inr, CStr, length, ltb, ◌==◌, if◌then◌else◌, with_default, Run, In, here, find_key, arith,
  Bool-cases, Option-cases,
}
use xbps.Versions.{Versions}
use xbps.Pkg.{Pkg}
use xbps.Match.{match_string_in_array, by_string}
use xbps.Match.FirstHit.{match_string_iff}
use xbps.Walks.{done, ◌>>=◌, Reaches, reached, Reaches-bind}
use xbps.Fulldeptree.{TreeItem, Deptree, add_deps_recursive, for_each, one_depend, ordered_depends}
use xbps.Fulldeptree.Needs.{known, Needs, Belongs, IsSane}
use xbps.Fulldeptree.Steps.{Kept, Kept-trans, add_deps_recursive-Reaches, add_first-Kept}
use xbps.Fulldeptree.Opened.{opened, filled}
use xbps.Fulldeptree.Loop.{Visited, Visits}

module _ (v : Versions) (find : CStr → Run (Option Pkg)) (db : List Pkg) (root : Pkg)
    (sane : IsSane v find db) where
  -- A package that is needed is put in front of what it was needed for, unless it is there.
  abbrev placed : CStr → ℕ → Deptree → Deptree
  placed ver depth t =
      if ltb 0 depth && not (match_string_in_array v by_string ver t.result)
      then record t { result = ver ∷ t.result }
      else t

  placed-Visited :
      (q : Pkg) (n ver : CStr) (depth : ℕ) (t t' : Deptree)
      → 0 < depth
      → Needs v find root q
      → q.pkgname ≡ some n
      → q.pkgver ≡ some ver
      → Kept v find db root t t'
      → known t' n ≡ true
      → Visited v find db root sane q t (n, placed ver depth t')
  placed-Visited q n ver depth t t' deep needs named has kept item =
      elim (Bool-cases (match_string_in_array v by_string ver t'.result)) [
        | inl y ↦ in_place t' kept ((match_string_iff v ver t'.result).0 y) item (ground (arith, y))
        | inr y ↦
            let t2 = record t' { result = ver ∷ t'.result } in
            in_place t2
              (Kept-trans v find db root kept
                (add_first-Kept v find db root t' q ver needs has (kept.tree)))
              here item (ground (arith, y, deep))
      ]
    where
      in_place :
          (t2 : Deptree)
          → Kept v find db root t t2
          → In ver t2.result
          → known t2 n ≡ true
          → placed ver depth t' ≡ t2
          → Visited v find db root sane q t (n, placed ver depth t')
      in_place t2 k i e same = rw same (
        k,
        named,
        record {
          name = n;
          ver = ver;
          has_name = named;
          has_ver = has;
          is_known = e;
          in_result = i;
        },
      )

  -- The call for a package that is needed returns, with enough fuel.
  pub ordered_depends-Visits :
      (fuel depth : ℕ)
      → 0 < depth
      → Visits v find db root sane fuel (λ p t. ordered_depends v find false fuel p depth t)
  unfolding ordered_depends
  ordered_depends-Visits zero depth deep q t in_db needs tree few = absurd (omega arith)
  ordered_depends-Visits (suc fuel) depth deep q t in_db needs tree few =
      let (n, ver, e, g) = sane.whole q in_db in
      elim (Option-cases (find_key t.items n)) [
        | inr (x, f) ↦ simp (e, f, ordered_depends) (has_item n x e f)
        | inl f ↦
            simp (e, f, g, ordered_depends)
              (has_no_item n ver e f g (ordered_depends-Visits fuel (depth + 1) (omega arith)))
      ]
    where
      has_item :
          (n : CStr) (x : TreeItem)
          → q.pkgname ≡ some n
          → find_key t.items n ≡ some x
          → Reaches
              (Visited v find db root sane q t)
              (add_deps_recursive v (length t.items + 1) n (depth == 0) t >>= λ t'. done (n, t'))
      has_item n x e f =
          let (p, b, named, has) = tree.real n x f in
          let same : p ≡ q = sane.unique p q n b.in_db in_db named e in
          let inner : (depth == 0) ≡ false = ground arith in
          rw inner (
            Reaches-bind
              (add_deps_recursive-Reaches v find db root (length t.items + 1) n x q t (omega arith)
                tree f needs e (subst (λ q. q.pkgver ≡ some x.pkgver) same has))
              (λ t' k. reached (k.0, e, k.1)))

      has_no_item :
          (n ver : CStr)
          → q.pkgname ≡ some n
          → find_key t.items n ≡ none
          → q.pkgver ≡ some ver
          → Visits v find db root sane fuel
              (λ p t. ordered_depends v find false fuel p (depth + 1) t)
          → Reaches (Visited v find db root sane q t) (
              for_each
                (one_depend v find false
                  (λ p t. ordered_depends v find false fuel p (depth + 1) t)
                  n
                  q.provides)
                (with_default [] q.run_depends)
                (opened v find db root sane n ver t)
              >>= λ t'. done (n, placed ver depth t'))
      has_no_item n ver e f g visits =
          let b : Belongs v find db root q = record { in_db = in_db; part = inr needs } in
          Reaches-bind
            (filled v find db root sane q n ver t b e g f tree fuel _ visits (omega arith))
            (λ t' k. reached (placed-Visited q n ver depth t t' deep needs e g (k.0) (k.2)))
