-- ===== src/Fulldeptree/Needs.antt =====
-- Which packages a package needs, and what the walk keeps true of its variables.
use xbps.Common.{
  ℕ, ◌≤◌, Bool, true, false, not, Option, none, some, List, [], ◌≡◌, ◌≢◌, ◌↔◌, refl, subst, ◌∙◌,
  ◌⊎◌, inl, inr, CStr, with_default, is_some, Run, ret, In, find_key, arith, Bool-cases,
  Option-cases, count_if, count_if-le,
}
use xbps.Versions.{Versions}
use xbps.Pkg.{Pkg}
use xbps.Revdeps.{dep_name}
use xbps.Fulldeptree.{TreeItem, Deptree, is_provided}

abbrev pub known : Deptree → CStr → Bool
known t n = is_some (find_key t.items n)

-- The walk went on: items keep their pkgver, and nothing leaves the result.
pub record Extends (t t' : Deptree) : Type 0 where
  pub items :
      (n : CStr) (x : TreeItem)
      → find_key t.items n ≡ some x
      → (x' : TreeItem) × (find_key t'.items n ≡ some x') × (x'.pkgver ≡ x.pkgver)
  pub result : (ver : CStr) → In ver t.result → In ver t'.result

pub Extends-refl : {t : Deptree} → Extends t t
Extends-refl = record { items = λ n x e. (x, e, refl); result = λ ver i. i }

pub Extends-trans : {t t1 t2 : Deptree} → Extends t t1 → Extends t1 t2 → Extends t t2
Extends-trans a b = record {
  items = λ n x e.
      let (x1, e1, v1) = a.items n x e in let (x2, e2, v2) = b.items n x1 e1 in (x2, e2, v2 ∙ v1);
  result = λ ver i. b.result ver (a.result ver i);
}

pub known-Extends :
    {t t' : Deptree} (n : CStr) → Extends t t' → known t n ≡ true → known t' n ≡ true
known-Extends {t} {t'} n e h = elim (Option-cases (find_key t.items n)) [
  | inl f ↦ absurd (ground (arith, f, h))
  | inr (x, f) ↦ let (x', g, s) = e.items n x f in rw g refl
]

-- The package is in the tree: it has an item, and its pkgver is in the result.
pub record Listed (q : Pkg) (t : Deptree) : Type 0 where
  pub name : CStr
  pub ver : CStr
  pub has_name : q.pkgname ≡ some name
  pub has_ver : q.pkgver ≡ some ver
  pub is_known : known t name ≡ true
  pub in_result : In ver t.result

pub Listed-Extends : {q : Pkg} {t t' : Deptree} → Extends t t' → Listed q t → Listed q t'
Listed-Extends e l = record {
  name = l.name;
  ver = l.ver;
  has_name = l.has_name;
  has_ver = l.has_ver;
  is_known = known-Extends l.name e l.is_known;
  in_result = e.result l.ver l.in_result;
}

module _ (v : Versions) (find : CStr → Run (Option Pkg)) where
  -- A dependency of `p` that `p` does not provide itself, and the package found for it.
  pub record Step (p q : Pkg) : Type 0 where
    pub dep : CStr
    pub name : CStr
    pub has_dep : In dep (with_default [] p.run_depends)
    pub finds : find dep ≡ ret (some q)
    pub named : dep_name dep ≡ some name
    pub not_provided : is_provided v p.provides name ≡ false

  -- What a package needs, over any number of steps.
  pub data Needs (root : Pkg) : Pkg → Type 0 where
    direct : {q : Pkg} → Step root q → Needs root q
    further : {p q : Pkg} → Needs root p → Step p q → Needs root q

  -- The list holds the pkgvers of what the package needs, and no other.
  abbrev pub IsFull : Pkg → List CStr → Type 0
  IsFull root l = (ver : CStr) → In ver l ↔ ((p : Pkg) × Needs root p × (p.pkgver ≡ some ver))

  -- All that one package needs at once is in the tree.
  abbrev pub Closed : Pkg → Deptree → Type 0
  Closed p t = (q : Pkg) → Step p q → Listed q t

  pub Closed-Extends : {p : Pkg} {t t' : Deptree} → Extends t t' → Closed p t → Closed p t'
  Closed-Extends e c q s = Listed-Extends e (c q s)

  -- A dependency of a package of the database.
  abbrev pub IsAsked : List Pkg → CStr → Type 0
  IsAsked db dep = (p : Pkg) × In p db × In dep (with_default [] p.run_depends)

  -- The packages of the database have a pkgver and a name, each its own. A dependency has a name;
  -- the search for it ends with the package of that name, if there is one, or else with another one
  -- of the database or with none.
  pub record IsSane (db : List Pkg) : Type 0 where
    pub whole : (p : Pkg) → In p db → (n ver : CStr) × (p.pkgname ≡ some n) × (p.pkgver ≡ some ver)
    pub unique :
        (p q : Pkg) (n : CStr) → In p db → In q db → p.pkgname ≡ some n → q.pkgname ≡ some n → p ≡ q
    pub named : (dep : CStr) → IsAsked db dep → (n : CStr) × (dep_name dep ≡ some n)
    pub searched : (dep : CStr) → IsAsked db dep → (o : Option Pkg) × (find dep ≡ ret o)
    pub in_db : (dep : CStr) (q : Pkg) → IsAsked db dep → find dep ≡ ret (some q) → In q db
    pub by_name :
        (dep n : CStr) (p q : Pkg)
        → IsAsked db dep
        → find dep ≡ ret (some q)
        → dep_name dep ≡ some n
        → In p db
        → p.pkgname ≡ some n
        → p ≡ q

  module _ (db : List Pkg) (root : Pkg) where
    -- The package is in the database, and is the first one or needed by it.
    pub record Belongs (p : Pkg) : Type 0 where
      pub in_db : In p db
      pub part : (p ≡ root) ⊎ Needs root p

    pub Needs-step : {p q : Pkg} → Belongs p → Step p q → Needs root q
    Needs-step {p} {q} b s = elim (b.part) [
      | inl e ↦ direct (subst (λ p. Step p q) e s)
      | inr n ↦ further n s
    ]

    -- Items stand for packages that belong here; the result has what is needed; and only an item
    -- that is in the result has dependants.
    pub record IsTree (t : Deptree) : Type 0 where
      pub real :
          (n : CStr) (x : TreeItem)
          → find_key t.items n ≡ some x
          → (p : Pkg) × Belongs p × (p.pkgname ≡ some n) × (p.pkgver ≡ some x.pkgver)
      pub sound : (ver : CStr) → In ver t.result → (p : Pkg) × Needs root p × (p.pkgver ≡ some ver)
      pub settled :
          (n : CStr) (x : TreeItem)
          → find_key t.items n ≡ some x
          → x.dbase ≢ []
          → In x.pkgver t.result

    -- The items that are new in `t'` have all that they need in the tree.
    abbrev pub NewClosed : Deptree → Deptree → Type 0
    NewClosed t t' =
        (p : Pkg) (n : CStr)
        → In p db
        → p.pkgname ≡ some n
        → known t n ≡ false
        → known t' n ≡ true
        → Closed p t'

    pub NewClosed-trans :
        (t t1 t2 : Deptree) → Extends t1 t2 → NewClosed t t1 → NewClosed t1 t2 → NewClosed t t2
    NewClosed-trans t t1 t2 e a b p n i h k l = elim (Bool-cases (known t1 n)) [
      | inl y ↦ Closed-Extends e (a p n i h k y)
      | inr y ↦ b p n i h y l
    ]

    -- The packages that have no item yet.
    abbrev pub unknown_to : Deptree → Pkg → Bool
    unknown_to t p = elim (p.pkgname) [ none ↦ false | some n ↦ not (known t n) ]

    abbrev pub left : Deptree → ℕ
    left t = count_if (unknown_to t) db

    pub unknown_to-Extends :
        {t t' : Deptree} → Extends t t' → (p : Pkg) → unknown_to t' p ≡ true → unknown_to t p ≡ true
    unknown_to-Extends {t} {t'} e p h = elim (Option-cases p.pkgname) [
      | inl f ↦ absurd (ground (arith, f, h))
      | inr (n, f) ↦ elim (Bool-cases (known t n)) [
        | inl k ↦ let k' = known-Extends n e k in absurd (ground (arith, f, h, k'))
        | inr k ↦ ground (arith, f, k)
      ]
    ]

    pub left-Extends : {t t' : Deptree} → Extends t t' → left t' ≤ left t
    left-Extends {t} {t'} e = count_if-le (unknown_to t') (unknown_to t) (unknown_to-Extends e) db
