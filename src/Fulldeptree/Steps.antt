-- ===== src/Fulldeptree/Steps.antt =====
-- What one step of the walk over dependencies keeps.
use xbps.Common.{
  ℕ, zero, suc, ◌<◌, false, Option, some, List, [], ◌∷◌, ◌≡◌, ◌≢◌, refl, ap, subst, ◌∙◌, ◌⊎◌, inl,
  inr, CStr, streq, streq_iff, streq_refl, Run, In, here, there, find_key, set_key,
  find_key-set_key, arith, Bool-cases, Option-cases,
}
use xbps.Versions.{Versions}
use xbps.Pkg.{Pkg}
use xbps.Match.{match_string_in_array, by_string}
use xbps.Match.FirstHit.{match_string_iff}
use xbps.Walks.{Reaches, reached}
use xbps.Fulldeptree.{TreeItem, Deptree, add_depn, add_deps_recursive, for_each}
use xbps.Fulldeptree.Needs.{
  known, Extends, Extends-refl, Extends-trans, Listed, Needs, Belongs, IsSane, IsTree, NewClosed,
  NewClosed-trans,
}

module _ (v : Versions) (find : CStr → Run (Option Pkg)) (db : List Pkg) (root : Pkg) where
  -- The variables after a part of the walk.
  pub record Kept (t t' : Deptree) : Type 0 where
    pub tree : IsTree v find db root t'
    pub extends : Extends t t'
    pub closed : NewClosed v find db root t t'

  same_items :
      (t t' : Deptree) → ((n : CStr) → known t' n ≡ known t n) → NewClosed v find db root t t'
  same_items t t' same p n i h k l = absurd (ground (arith, same n, k, l))

  pub Kept-refl : {t : Deptree} → IsTree v find db root t → Kept t t
  Kept-refl {t} tree = record {
    tree = tree;
    extends = Extends-refl;
    closed = same_items t t (λ n. refl);
  }

  pub Kept-trans : {t t1 t2 : Deptree} → Kept t t1 → Kept t1 t2 → Kept t t2
  Kept-trans {t} {t1} {t2} a b = record {
    tree = b.tree;
    extends = Extends-trans (a.extends) (b.extends);
    closed = NewClosed-trans v find db root t t1 t2 (b.extends) (a.closed) (b.closed);
  }

  -- A pkgver that is put in front of the result.
  pub add_first-Kept :
      (t : Deptree) (q : Pkg) (ver : CStr)
      → Needs v find root q
      → q.pkgver ≡ some ver
      → IsTree v find db root t
      → Kept t (record t { result = ver ∷ t.result })
  add_first-Kept t q ver needs has tree = record {
    tree = record {
      real = tree.real;
      sound = sound;
      settled = λ n x e d. there (tree.settled n x e d);
    };
    extends = record { items = λ n x e. (x, e, refl); result = λ w i. there i };
    closed = same_items t (record t { result = ver ∷ t.result }) (λ n. refl);
  }
    where
      sound :
          (w : CStr) → In w (ver ∷ t.result) → (p : Pkg) × Needs v find root p × (p.pkgver ≡ some w)
      sound w here = (q, needs, has)
      sound w (there i) = tree.sound w i

  -- A package that is needed, and has an item already.
  pub add_deps_recursive-Reaches :
      (fuel : ℕ) (n : CStr) (x : TreeItem) (q : Pkg) (t : Deptree)
      → 0 < fuel
      → IsTree v find db root t
      → find_key t.items n ≡ some x
      → Needs v find root q
      → q.pkgname ≡ some n
      → q.pkgver ≡ some x.pkgver
      → Reaches (λ t'. Kept t t' × Listed q t') (add_deps_recursive v fuel n false t)
  unfolding add_deps_recursive for_each
  add_deps_recursive-Reaches zero n x q t pos tree item needs named has = absurd (omega arith)
  add_deps_recursive-Reaches (suc fuel) n x q t pos tree item needs named has =
      elim (Bool-cases (match_string_in_array v by_string x.pkgver t.result)) [
        | inl y ↦
            rw (item, y, add_deps_recursive)
              (reached (Kept-refl tree, listed t item ((match_string_iff v x.pkgver t.result).0 y)))
        | inr y ↦ go x.dbase refl y
      ]
    where
      listed : (t' : Deptree) → find_key t'.items n ≡ some x → In x.pkgver t'.result → Listed q t'
      listed t' e i = record {
        name = n;
        ver = x.pkgver;
        has_name = named;
        has_ver = has;
        is_known = rw e refl;
        in_result = i;
      }

      go :
          (l : List CStr)
          → x.dbase ≡ l
          → match_string_in_array v by_string x.pkgver t.result ≡ false
          → Reaches (λ t'. Kept t t' × Listed q t') (add_deps_recursive v (suc fuel) n false t)
      go [] e y =
          let t' = record t { result = x.pkgver ∷ t.result } in
          rw (item, y, e, add_deps_recursive)
            (reached (add_first-Kept t q (x.pkgver) needs has tree, listed t' item here))
      go (d ∷ ds) e y =
          let i = tree.settled n x item (λ z. cc) in
          let y' = (match_string_iff v x.pkgver t.result).1 i in absurd (cc)

  module _ (d m : CStr) (x : TreeItem) (t : Deptree) (item : find_key t.items m ≡ some x) where
    abbrev hooked : Deptree
    hooked = record t { items = set_key t.items m (record x { dbase = d ∷ x.dbase }) }

    -- The items of the other names are as before.
    hooked_old :
        (n : CStr) (y : TreeItem)
        → find_key t.items n ≡ some y
        → (y' : TreeItem) × (find_key hooked.items n ≡ some y') × (y'.pkgver ≡ y.pkgver)
    hooked_old n y e =
        let w = find_key-set_key t.items m n (record x { dbase = d ∷ x.dbase }) in
        elim (Bool-cases (streq m n)) [
          | inl s ↦
              let same : m ≡ n = (streq_iff m n).0 s in
              let b : x.pkgver ≡ y.pkgver = ground (arith, item, e, same) in
              (record x { dbase = d ∷ x.dbase }, ground (arith, w, s), b)
          | inr s ↦ (y, ground (arith, w, s, e), refl)
        ]

    hooked_new :
        (n : CStr) (y : TreeItem)
        → find_key hooked.items n ≡ some y
        → (find_key t.items n ≡ some y) ⊎ ((m ≡ n) × (y ≡ record x { dbase = d ∷ x.dbase }))
    hooked_new n y e =
        let w = find_key-set_key t.items m n (record x { dbase = d ∷ x.dbase }) in
        elim (Bool-cases (streq m n)) [
          | inl s ↦ inr ((streq_iff m n).0 s, ground (arith, w, s, e))
          | inr s ↦ inl (ground (arith, w, s, e))
        ]

    hooked-known : (n : CStr) → known hooked n ≡ known t n
    hooked-known n =
        let w = find_key-set_key t.items m n (record x { dbase = d ∷ x.dbase }) in
        elim (Bool-cases (streq m n)) [
          | inl s ↦
              let same : m ≡ n = (streq_iff m n).0 s in
              subst (λ n. known hooked n ≡ known t n) same
                (ground (
                  arith,
                  find_key-set_key t.items m m (record x { dbase = d ∷ x.dbase }),
                  streq_refl m,
                  item,
                ))
          | inr s ↦ ground (arith, w, s)
        ]

    -- A package that is in the result gets a dependant.
    hooked-Kept : In x.pkgver t.result → IsTree v find db root t → Kept t hooked
    hooked-Kept i tree = record {
      tree = record { real = real; sound = tree.sound; settled = settled };
      extends = record { items = hooked_old; result = λ w j. j };
      closed = same_items t hooked hooked-known;
    }
      where
        real :
            (n : CStr) (y : TreeItem)
            → find_key hooked.items n ≡ some y
            → (p : Pkg) × Belongs v find db root p
              × (p.pkgname ≡ some n)
              × (p.pkgver ≡ some y.pkgver)
        real n y e = elim (hooked_new n y e) [
          | inl o ↦ tree.real n y o
          | inr (s, z) ↦
              let (p, b, named, has) = tree.real m x item in (p, b, named ∙ ap some s, rw z has)
        ]

        settled :
            (n : CStr) (y : TreeItem)
            → find_key hooked.items n ≡ some y
            → y.dbase ≢ []
            → In y.pkgver t.result
        settled n y e ne = elim (hooked_new n y e) [
          | inl o ↦ tree.settled n y o ne
          | inr (s, z) ↦ rw z i
        ]

  pub add_depn-Kept :
      IsSane v find db
      → (d m : CStr) (q : Pkg) (t : Deptree) → In q db
      → q.pkgname ≡ some m
      → Listed q t
      → IsTree v find db root t
      → Kept t (add_depn d m t)
  unfolding add_depn
  add_depn-Kept sane d m q t in_db named l tree = elim (Option-cases (find_key t.items m)) [
    | inl e ↦ rw (e, add_depn) (Kept-refl tree)
    | inr (x, e) ↦
        let (p, b, named', has) = tree.real m x e in
        let same : p ≡ q = sane.unique p q m b.in_db in_db named' named in
        let has' = l.has_ver in
        let ver : l.ver ≡ x.pkgver = ground (arith, has, has', same) in
        rw (e, add_depn) (hooked-Kept d m x t e (subst (λ w. In w t.result) ver l.in_result) tree)
  ]
