-- ===== src/Fulldeptree/Opened.antt =====
-- lib/package_fulldeptree.c: a package gets its item, and then all that it depends on.
use xbps.Common.{
  ℕ, ◌≤◌, ◌<◌, true, false, Option, none, some, List, [], ◌∷◌, ◌≡◌, ◌≢◌, refl, sym, ap, subst, ◌∙◌,
  inl, inr, CStr, streq, streq_iff, streq_refl, with_default, Run, In, find_key, arith, Bool-cases,
  count_if-lt,
}
use xbps.Versions.{Versions}
use xbps.Pkg.{Pkg}
use xbps.Walks.{Walk, Reaches, Reaches-map}
use xbps.Fulldeptree.{TreeItem, Deptree, for_each, one_depend}
use xbps.Fulldeptree.Needs.{
  known, known-Extends, Extends, Extends-trans, Closed, Belongs, IsSane, IsTree, left, unknown_to,
  unknown_to-Extends,
}
use xbps.Fulldeptree.Steps.{Kept}
use xbps.Fulldeptree.Loop.{Served, Visits, for_each-Reaches}

module _ (v : Versions) (find : CStr → Run (Option Pkg)) (db : List Pkg) (root : Pkg)
    (sane : IsSane v find db) where
  abbrev pub opened : CStr → CStr → Deptree → Deptree
  opened n ver t = record t { items = (n, record { pkgver = ver; dbase = [] }) ∷ t.items }

  -- A package without an item gets one, and then all that it depends on at once.
  module _ (q : Pkg) (n ver : CStr) (t : Deptree) (belongs : Belongs v find db root q)
      (named : q.pkgname ≡ some n) (has : q.pkgver ≡ some ver) (new : find_key t.items n ≡ none)
      (tree : IsTree v find db root t) where
    opened-IsTree : IsTree v find db root (opened n ver t)
    unfolding find_key
    opened-IsTree = record { real = real; sound = tree.sound; settled = settled }
      where
        real :
            (m : CStr) (x : TreeItem)
            → find_key (opened n ver t).items m ≡ some x
            → (p : Pkg) × Belongs v find db root p
              × (p.pkgname ≡ some m)
              × (p.pkgver ≡ some x.pkgver)
        real m x e = elim (Bool-cases (streq n m)) [
          | inl s ↦
              let same : n ≡ m = (streq_iff n m).0 s in
              let same_x : record { pkgver = ver; dbase = [] } ≡ x = ground (arith, e, s) in
              (q, belongs, named ∙ ap some same, has ∙ ap (λ y. some y.pkgver) same_x)
          | inr s ↦ tree.real m x (ground (arith, e, s))
        ]

        settled :
            (m : CStr) (x : TreeItem)
            → find_key (opened n ver t).items m ≡ some x
            → x.dbase ≢ []
            → In x.pkgver t.result
        settled m x e ne = elim (Bool-cases (streq n m)) [
          | inl s ↦
              let same_x : record { pkgver = ver; dbase = [] } ≡ x = ground (arith, e, s) in
              absurd (ne (sym (ap (λ y. y.dbase) same_x)))
          | inr s ↦ tree.settled m x (ground (arith, e, s)) ne
        ]

    opened-Extends : Extends t (opened n ver t)
    unfolding find_key
    opened-Extends = record {
      items = λ m x e. elim (Bool-cases (streq n m)) [
        | inl s ↦ absurd (let same = (streq_iff n m).0 s in ground (arith, new, e, same))
        | inr s ↦ (x, ground (arith, e, s), refl)
      ];
      result = λ w i. i;
    }

    opened-known : known (opened n ver t) n ≡ true
    unfolding find_key
    opened-known = ground (arith, streq_refl n)

    opened-left : left v find db root (opened n ver t) < left v find db root t
    opened-left =
        count_if-lt (unknown_to v find db root (opened n ver t)) (unknown_to v find db root t)
          (unknown_to-Extends v find db root opened-Extends) q db belongs.in_db
          (ground (arith, named, opened-known)) (ground (arith, named, new))

    opened-other : (m : CStr) → streq n m ≡ false → known (opened n ver t) m ≡ known t m
    unfolding find_key
    opened-other m s = ground (arith, s)

    abbrev Filled : Deptree → Type 0
    Filled t' = Kept v find db root t t' × Closed v find q t' × (known t' n ≡ true)

    pub filled :
        (bound : ℕ) (visit : Pkg → Deptree → Walk (CStr × Deptree))
        → Visits v find db root sane bound visit
        → left v find db root t ≤ bound
        → Reaches Filled (
            for_each
              (one_depend v find false visit n q.provides)
              (with_default [] q.run_depends)
              (opened n ver t))
    filled bound visit visits few =
        let few' = opened-left in
        Reaches-map
          (for_each-Reaches v find db root sane bound visit visits q n belongs
            (with_default [] q.run_depends) (opened n ver t) (λ dep i. i) opened-IsTree
            (omega arith))
          (λ t' k. (
            kept t' (k.0) (closed t' (k.1)),
            closed t' (k.1),
            known-Extends n (k.0.extends) opened-known,
          ))
      where
        closed :
            (t' : Deptree)
            → ((dep : CStr)
                → In dep (with_default [] q.run_depends)
                → Served v find db root sane q dep t')
            → Closed v find q t'
        closed t' served q' s = served s.dep s.has_dep q' s.name s.finds s.named s.not_provided

        kept :
            (t' : Deptree)
            → Kept v find db root (opened n ver t) t'
            → Closed v find q t'
            → Kept v find db root t t'
        kept t' k c = record {
          tree = k.tree;
          extends = Extends-trans opened-Extends (k.extends);
          closed = λ p m i e no_item item. elim (Bool-cases (streq n m)) [
            | inl s ↦
                let same : n ≡ m = (streq_iff n m).0 s in
                subst (λ p. Closed v find p t')
                  (sane.unique q p n belongs.in_db i named (e ∙ ap some (sym same))) c
            | inr s ↦ k.closed p m i e (opened-other m s ∙ no_item) item
          ];
        }
