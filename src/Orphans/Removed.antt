-- ===== src/Orphans/Removed.antt =====
-- The loop of the recursive mode ends within its fuel.
use xbps.Common.{
  ℕ, zero, suc, ◌+◌, ◌≤◌, ◌<◌, true, some, List, [], ◌∷◌, ◌≡◌, refl, sym, ap, subst, ◌∙◌, ◌⊎◌, inl,
  inr, CStr, streq_refl, ret, All-of_In, In, here, there, arith, Option-cases, length, drop, map,
}
use xbps.Versions.{Versions}
use xbps.Pkg.{Pkg, Installed}
use xbps.Walks.{done, ◌>>=◌, Reaches, reached, Reaches-map, Reaches-done}
use xbps.Virtual.{Virtuals, pkgdb_get_pkg}
use xbps.Dict.Access.{find_pkg_in_dict-In}
use xbps.Match.FirstHit.{In-any}
use xbps.Revdeps.{generate_full_revdeps_tree}
use xbps.Fulldeptree.{find_installed, pkgdb_get_pkg_fulldeptree}
use xbps.Fulldeptree.Needs.{IsSane}
use xbps.Fulldeptree.Exact.{Needs-in_db, pkgdb_get_pkg_fulldeptree-IsFull}
use xbps.Orphans.Recursive.{users_packages}
use xbps.Orphans.Rounds.{process_pkg, process, find_user_orphans}
use xbps.Orphans.Listed.{IsPkgver, has_pkgver, listed, HasVer}
use xbps.Orphans.Passes.{HasPkgvers, left, left-bound}
use xbps.Orphans.Least.{HasVersions, HasPkgvers-tree}
use xbps.Orphans.Removable.{
  IsBelow, IsRemovable, asked, IsInstalled, Sound, Grown, Grown-refl, Grown-trans, add_rdeps-Grown,
}

module _ {ℓ κ} {A : Type ℓ} {B : Type κ} (f : A → B) where
  In-map : (xs : List A) (a : A) → In a xs → In (f a) (map f xs)
  In-map (_ ∷ xs) a here = here
  In-map (x ∷ xs) a (there i) = there (In-map xs a i)
  In-map [] a i = elim i [ ]

  In-of_map : (xs : List A) (b : B) → In b (map f xs) → (a : A) × In a xs × (f a ≡ b)
  In-of_map [] b i = elim i [ ]
  In-of_map (x ∷ xs) _ here = (x, here, refl)
  In-of_map (x ∷ xs) b (there i) = let (a, j, e) = In-of_map xs b i in (a, there j, e)

drop-In {ℓ} :
    {A : Type ℓ} (i : ℕ) (xs : List A) {a : A} {ys : List A}
    → drop i xs ≡ a ∷ ys
    → In a xs × (i < length xs)
drop-In zero [] e = absurd (cc)
drop-In zero (x ∷ xs) {a} e = let same : x ≡ a = ground arith in (rw same here, omega arith)
drop-In (suc i) [] e = absurd (cc)
drop-In (suc i) (x ∷ xs) e = let (j, l) = drop-In i xs e in (there j, omega arith)

List-cases {ℓ} : {A : Type ℓ} (xs : List A) → (xs ≡ []) ⊎ ((a : A) × (ys : List A) × (xs ≡ a ∷ ys))
List-cases [] = inl refl
List-cases (x ∷ xs) = inr (x, xs, refl)

-- The package database fits the code: the walk over dependencies is sane, pkgvers are versions and
-- no patterns, and a search by a pkgver of the database finds its package.
pub record IsConsistent (v : Versions) (vpkgd : List Virtuals) (pkgdb : List Installed)
    : Type 0 where
  pub sane : IsSane v (find_installed v vpkgd pkgdb) (map (λ o. o.pkgd) pkgdb)
  pub versions : HasVersions pkgdb
  pub by_pkgver :
      (obj : Installed) (ver : CStr)
      → In obj pkgdb
      → obj.pkgd.pkgver ≡ some ver
      → pkgdb_get_pkg v pkgdb ver ≡ some obj

module _ (v : Versions) (vpkgd : List Virtuals) (pkgdb : List Installed)
    (revs : List (CStr × List CStr)) (users : List CStr) (fits : IsConsistent v vpkgd pkgdb)
    (ok : HasPkgvers v pkgdb revs) where
  tree_of :
      (obj : Installed) (ver : CStr)
      → In obj pkgdb
      → obj.pkgd.pkgver ≡ some ver
      → (l : List CStr) × (pkgdb_get_pkg_fulldeptree v vpkgd pkgdb ver ≡ done (some l))
        × ((s : CStr) → In s l → IsPkgver s × IsBelow v vpkgd pkgdb revs users ver s)
  unfolding find_installed
  tree_of obj ver i e =
      let in_db = In-map (λ o. o.pkgd) pkgdb obj i in
      let finds : find_installed v vpkgd pkgdb ver ≡ ret (some obj.pkgd) =
        ground (arith, fits.by_pkgver obj ver i e) in
      let (o, walks, (l, is_l, full)) =
        Reaches-done
          (pkgdb_get_pkg_fulldeptree-IsFull v vpkgd pkgdb ver obj.pkgd fits.sane finds in_db) in
      let ends = walks ∙ ap done is_l in
      (
        l,
        ends,
        λ s j.
            let (p, needs, has) = (full s).0 j in
            let (obj', k, same) =
              In-of_map (λ o. o.pkgd) pkgdb p
                (Needs-in_db v (find_installed v vpkgd pkgdb) (map (λ o. o.pkgd) pkgdb) fits.sane
                  obj.pkgd in_db needs) in
            (
              fits.versions.of_db obj' k s (ap (λ p. p.pkgver) same ∙ has),
              record { rdeps = l; walks = ends; has = j },
            ),
      )

  In-listed :
      (array : List Pkg) (p : Pkg) (ver : CStr)
      → In p array
      → p.pkgver ≡ some ver
      → listed array ver ≡ true
  unfolding has_pkgver
  In-listed array p ver i e = In-any (has_pkgver ver) i (ground (arith, e, streq_refl ver))

  process-Grown :
      (fuel i : ℕ) (array : List Pkg)
      → i ≤ length array
      → length array + left v pkgdb revs array pkgdb < fuel + i
      → Sound v vpkgd pkgdb revs users array
      → Reaches (Grown v vpkgd pkgdb revs users array) (process v vpkgd pkgdb revs fuel i array)
  unfolding process process_pkg
  process-Grown zero i array within few sound = absurd (omega arith)
  process-Grown (suc fuel) i array within few sound = elim (List-cases (drop i array)) [
    | inl e ↦ rw (e, process) (reached (Grown-refl v vpkgd pkgdb revs users sound))
    | inr (p, ys, e) ↦
        let (j, less) = drop-In i array e in
        let (obj, k, same) = sound.installed p j in
        let (n, ver, named, has) =
          fits.sane.whole p
            (subst (λ p. In p (map (λ o. o.pkgd) pkgdb)) same (In-map (λ o. o.pkgd) pkgdb obj k)) in
        let (l, walks, below) = tree_of obj ver k (ap (λ p. p.pkgver) same ∙ has) in
        let goes = sound.removable ver (In-listed array p ver j has) in
        let (array', runs, g) =
          add_rdeps-Grown v vpkgd pkgdb revs users ok array ver l below sound goes in
        let b = g.bound in
        let c = g.longer in
        let round : process_pkg v vpkgd pkgdb revs array p.pkgver ≡ done array' =
          ap (process_pkg v vpkgd pkgdb revs array) has ∙ rw (process_pkg, walks, runs) refl in
        rw (e, process)
          (subst
            (λ m.
              Reaches (Grown v vpkgd pkgdb revs users array)
                (m >>= λ array'. process v vpkgd pkgdb revs fuel (i + 1) array'))
            (sym round)
            (Reaches-map (process-Grown fuel (i + 1) array' (omega arith) (omega arith) g.sound)
              (λ after g'. Grown-trans v vpkgd pkgdb revs users g g')))
  ]

  users_packages-IsInstalled :
      (asks : List CStr) (p : Pkg)
      → In p (users_packages v pkgdb asks)
      → IsInstalled v vpkgd pkgdb revs users p
  unfolding users_packages
  users_packages-IsInstalled [] p i = elim i [ ]
  users_packages-IsInstalled (s ∷ asks) p i =
      let rest = users_packages-IsInstalled asks p in
      elim (Option-cases (pkgdb_get_pkg v pkgdb s)) [
        | inl e ↦
            let same : users_packages v pkgdb (s ∷ asks) ≡ users_packages v pkgdb asks =
              ground (arith, e) in
            rest (subst (λ l. In p l) same i)
        | inr (obj, e) ↦
            let same : users_packages v pkgdb (s ∷ asks) ≡ obj.pkgd ∷ users_packages v pkgdb asks =
              ground (arith, e) in
            first obj (find_pkg_in_dict-In v pkgdb s e) rest (subst (λ l. In p l) same i)
      ]
    where
      first :
          {l : List Pkg} (obj : Installed)
          → In obj pkgdb
          → (In p l → IsInstalled v vpkgd pkgdb revs users p)
          → In p (obj.pkgd ∷ l)
          → IsInstalled v vpkgd pkgdb revs users p
      first obj j rest here = (obj, j, refl)
      first obj j rest (there k) = rest k

  start : Sound v vpkgd pkgdb revs users (users_packages v pkgdb users)
  start = record {
    installed = users_packages-IsInstalled users;
    vers = All-of_In HasVer (users_packages v pkgdb users) (λ p i.
        let (obj, k, same) = users_packages-IsInstalled users p i in
        let (n, ver, named, has) =
          fits.sane.whole p
            (subst (λ p. In p (map (λ o. o.pkgd) pkgdb)) same (In-map (λ o. o.pkgd) pkgdb obj k)) in
        (ver, has));
    removable = λ s h. asked h;
  }

-- In a consistent package database, with the table of reverse dependencies that is built from it,
-- the recursive mode always ends with an array. It holds each installed package that the user
-- names; the pkgver of each of its packages is one that may go.
pub find_user_orphans-IsRemovable :
    (v : Versions) (vpkgd : List Virtuals) (pkgdb : List Installed) (revs : List (CStr × List CStr))
    (users : List CStr)
    → IsConsistent v vpkgd pkgdb
    → generate_full_revdeps_tree v vpkgd pkgdb ≡ ret revs
    → Reaches
        (λ array.
          ((p : Pkg) → In p (users_packages v pkgdb users) → In p array)
          × ((s : CStr) → listed array s ≡ true → IsRemovable v vpkgd pkgdb revs users s))
        (find_user_orphans v vpkgd pkgdb revs users)
unfolding find_user_orphans
find_user_orphans-IsRemovable v vpkgd pkgdb revs users fits built =
    let ok = HasPkgvers-tree v vpkgd pkgdb fits.versions built in
    let array = users_packages v pkgdb users in
    let b = left-bound v pkgdb revs array pkgdb in
    Reaches-map
      (process-Grown v vpkgd pkgdb revs users fits ok (length array + length pkgdb + 1) 0 array
        (omega arith) (omega arith) (start v vpkgd pkgdb revs users fits ok))
      (λ after g. (g.keeps, g.sound.removable))
