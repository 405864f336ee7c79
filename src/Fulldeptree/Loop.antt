-- ===== src/Fulldeptree/Loop.antt =====
-- The loop over the dependencies of one package.
use xbps.Common.{
  ℕ, ◌+◌, ◌<◌, false, Option, none, some, List, [], ◌∷◌, ◌≡◌, refl, subst, inl, inr, CStr, length,
  with_default, Run, ret, abort, In, here, there, find_key, arith, Bool-cases, Option-cases,
}
use xbps.Versions.{Versions}
use xbps.Pkg.{Pkg}
use xbps.Revdeps.{dep_name}
use xbps.Walks.{Walk, done, ◌>>=◌, Reaches, reached, Reaches-bind, Reaches-map}
use xbps.Fulldeptree.{
  TreeItem, Deptree, add_depn, add_deps_recursive, for_each, one_depend, found_depend, is_provided,
}
use xbps.Fulldeptree.Needs.{
  Extends, Listed, Listed-Extends, Needs, Needs-step, Belongs, IsSane, IsTree, left, left-Extends,
}
use xbps.Fulldeptree.Steps.{Kept, Kept-refl, Kept-trans, add_deps_recursive-Reaches, add_depn-Kept}

module _ (v : Versions) (find : CStr → Run (Option Pkg)) (db : List Pkg) (root : Pkg)
    (sane : IsSane v find db) where
  -- What a dependency of the package stands for is in the tree.
  abbrev pub Served : Pkg → CStr → Deptree → Type 0
  Served p dep t =
      (q : Pkg) (name : CStr)
      → find dep ≡ ret (some q)
      → dep_name dep ≡ some name
      → is_provided v p.provides name ≡ false
      → Listed q t

  abbrev pub Visited : Pkg → Deptree → CStr × Deptree → Type 0
  Visited q t r = Kept v find db root t (r.1) × (q.pkgname ≡ some r.0) × Listed q r.1

  -- The recursive call, where fewer packages than `bound` have no item.
  abbrev pub Visits : ℕ → (Pkg → Deptree → Walk (CStr × Deptree)) → Type 0
  Visits bound visit =
      (q : Pkg) (t : Deptree)
      → In q db
      → Needs v find root q
      → IsTree v find db root t
      → left v find db root t < bound
      → Reaches (Visited q t) (visit q t)

  module _ (bound : ℕ) (visit : Pkg → Deptree → Walk (CStr × Deptree)) (visits : Visits bound visit)
      (p : Pkg) (n : CStr) (belongs : Belongs v find db root p) where
    abbrev Round : CStr → Deptree → Deptree → Type 0
    Round dep t t' = Kept v find db root t t' × Served p dep t'

    -- A package that the loop looks at.
    module _ (dep name : CStr) (q : Pkg) (t : Deptree)
        (has_dep : In dep (with_default [] p.run_depends)) (finds : find dep ≡ ret (some q))
        (named : dep_name dep ≡ some name) (open_dep : is_provided v p.provides name ≡ false)
        (tree : IsTree v find db root t) where
      abbrev needs : Needs v find root q
      needs = Needs-step v find db root belongs (record {
        dep = dep;
        name = name;
        has_dep = has_dep;
        finds = finds;
        named = named;
        not_provided = open_dep;
      })

      abbrev q_in_db : In q db
      q_in_db = sane.in_db dep q (p, belongs.in_db, has_dep) finds

      served : {t' : Deptree} → Listed q t' → Served p dep t'
      served {t'} l q' name' f g h = subst (λ q. Listed q t') (ground (arith, finds, f)) l

      has_item :
          (x : TreeItem)
          → find_key t.items name ≡ some x
          → Reaches (Round dep t) (add_deps_recursive v (length t.items + 1) name false t)
      has_item x item =
          let (p', b, named', has) = tree.real name x item in
          let same : p' ≡ q =
            sane.by_name dep name p' q (p, belongs.in_db, has_dep) finds named b.in_db named' in
          Reaches-map
            (add_deps_recursive-Reaches v find db root (length t.items + 1) name x q t (omega arith)
              tree item needs (subst (λ q. q.pkgname ≡ some name) same named')
              (subst (λ q. q.pkgver ≡ some x.pkgver) same has))
            (λ t' k. (k.0, served (k.1)))

      has_no_item :
          left v find db root t < bound
          → Reaches (Round dep t) (visit q t >>= λ r. done (add_depn n r.0 r.1))
      has_no_item few = Reaches-bind (visits q t q_in_db needs tree few) (λ r k.
          let hook = add_depn-Kept v find db root sane n r.0 q r.1 q_in_db (k.1) (k.2) (k.0.tree) in
          reached
            (Kept-trans v find db root (k.0) hook, served (Listed-Extends (hook.extends) (k.2))))

    one_depend-Reaches :
        (dep : CStr) (t : Deptree)
        → In dep (with_default [] p.run_depends)
        → IsTree v find db root t
        → left v find db root t < bound
        → Reaches (Round dep t) (one_depend v find false visit n p.provides dep t)
    unfolding one_depend found_depend
    one_depend-Reaches dep t has_dep tree few = found (find dep) refl
      where
        found :
            (r : Run (Option Pkg))
            → find dep ≡ r
            → Reaches (Round dep t) (one_depend v find false visit n p.provides dep t)
        found abort e = let (o, r) = sane.searched dep (p, belongs.in_db, has_dep) in absurd (cc)
        found (ret none) e =
            rw (e, one_depend)
              (reached (Kept-refl v find db root tree, λ q name f g h. absurd (cc)))
        found (ret (some q)) e = elim (Option-cases (dep_name dep)) [
          | inl f ↦ absurd (let (m, r) = sane.named dep (p, belongs.in_db, has_dep) in cc)
          | inr (name, f) ↦ elim (Bool-cases (is_provided v p.provides name)) [
            | inl y ↦
                rw (e, f, one_depend, y, found_depend)
                  (reached (
                    Kept-refl v find db root tree,
                    λ q' name' f' g h. absurd (ground (arith, f, g, h, y)),
                  ))
            | inr y ↦ elim (Option-cases (find_key t.items name)) [
              | inl z ↦
                  rw (e, f, one_depend, y, z, found_depend)
                    (has_no_item dep name q t has_dep e f y tree few)
              | inr (x, z) ↦
                  rw (e, f, one_depend, y, z, found_depend)
                    (has_item dep name q t has_dep e f y tree x z)
            ]
          ]
        ]

    pub for_each-Reaches :
        (deps : List CStr) (t : Deptree)
        → ((dep : CStr) → In dep deps → In dep (with_default [] p.run_depends))
        → IsTree v find db root t
        → left v find db root t < bound
        → Reaches
            (λ t'. Kept v find db root t t' × ((dep : CStr) → In dep deps → Served p dep t'))
            (for_each (one_depend v find false visit n p.provides) deps t)
    unfolding for_each
    for_each-Reaches [] t sub tree few =
        reached (Kept-refl v find db root tree, λ dep i. elim i [ ])
    for_each-Reaches (d ∷ deps) t sub tree few =
        Reaches-bind (one_depend-Reaches d t (sub d here) tree few) (λ t1 k.
          let few1 = left-Extends v find db root (k.0.extends) in
          Reaches-map
            (for_each-Reaches deps t1 (λ dep i. sub dep (there i)) (k.0.tree) (omega arith))
            (λ t2 l.
              (Kept-trans v find db root (k.0) (l.0), all_served t1 t2 (k.1) (l.0.extends) (l.1))))
      where
        all_served :
            (t1 t2 : Deptree)
            → Served p d t1
            → Extends t1 t2
            → ((dep : CStr) → In dep deps → Served p dep t2)
            → (dep : CStr) → In dep (d ∷ deps)
            → Served p dep t2
        all_served t1 t2 s e rest _ here = λ q name f g h. Listed-Extends e (s q name f g h)
        all_served t1 t2 s e rest dep (there i) = rest dep i
