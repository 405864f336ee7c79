-- ===== src/Orphans/Least.antt =====
-- The loop ends within its fuel, at the least set of orphans.
use xbps.Common.{
  ℕ, zero, suc, ◌+◌, ◌≤◌, ◌<◌, Bool, true, false, some, List, [], ◌∷◌, ◌++◌, ◌≡◌, refl, subst, ◌⊎◌,
  ◌↔◌, inl, inr, CStr, ret, In, here, there, arith, Bool-cases, Option-cases, any, length,
}
use xbps.Versions.{Versions}
use xbps.Pkg.{Pkg, Installed}
use xbps.Revdeps.{get_pkg_revdeps}
use xbps.Orphans.{visit_all, iterate}
use xbps.Orphans.Listed.{IsPkgver, listed, is_full_iff}
use xbps.Orphans.{find_pkg_orphans}
use xbps.Orphans.Passes.{
  revdeps_of, is_addable, HasPkgvers, visit-is_addable, left, left-bound, IsOrphan, orphan, IsSound,
  is_addable-IsSound,
}
use xbps.Virtual.{Virtuals, pkgdb_get_pkg}
use xbps.Util.Pkgver.{pkg_name, name_size}
use xbps.Common.{Option-cases, In, All-of_In, subst}
use xbps.Revdeps.{generate_full_revdeps_tree}
use xbps.Revdeps.Table.{array_of}
use xbps.Revdeps.Complete.{Dependant, generate_full_revdeps_tree-Dependant}

module _ (v : Versions) (pkgdb : List Installed) (revs : List (CStr × List CStr)) where
  -- What a pass does: it adds packages, or it finds none to add.
  data Passed (before : List Pkg) (objs : List Installed) : Bool × List Pkg → Type 0 where
    quiet :
        ((obj : Installed) → In obj objs → is_addable v pkgdb revs before obj ≡ false)
        → Passed before objs (false, before)
    grown :
        {after : List Pkg}
        → IsSound v pkgdb revs after
        → left v pkgdb revs after pkgdb < left v pkgdb revs before pkgdb
        → Passed before objs (true, after)

  module _ (ok : HasPkgvers v pkgdb revs) where
    Within : List Installed → Type 0
    Within objs = (obj : Installed) → In obj objs → In obj pkgdb

    visit_all-IsSound :
        (array : List Pkg) (objs : List Installed)
        → Within objs
        → IsSound v pkgdb revs array
        → (after : List Pkg) × (visit_all v pkgdb revs (true, array) objs ≡ ret (true, after))
          × IsSound v pkgdb revs after
          × (left v pkgdb revs after pkgdb ≤ left v pkgdb revs array pkgdb)
    unfolding visit_all Within
    visit_all-IsSound array [] within s = (array, refl, s, omega arith)
    visit_all-IsSound array (obj ∷ objs) within s =
        let a = visit-is_addable v pkgdb revs ok (true, array) obj (within obj here) s.vers in
        elim (Bool-cases (is_addable v pkgdb revs array obj)) [
          | inl t ↦
              let (s', less) = is_addable-IsSound v pkgdb revs array obj (within obj here) s t in
              let (after, runs, s'', bound) =
                visit_all-IsSound (array ++ obj.pkgd ∷ []) objs (λ o i. within o (there i)) s' in
              (after, rw (a, t) runs, s'', omega arith)
          | inr f ↦
              let (after, runs, s'', bound) =
                visit_all-IsSound array objs (λ o i. within o (there i)) s in
              (after, rw (a, f) runs, s'', bound)
        ]

    visit_all-Passed :
        (array : List Pkg) (objs : List Installed)
        → Within objs
        → IsSound v pkgdb revs array
        → (r : Bool × List Pkg) × (visit_all v pkgdb revs (false, array) objs ≡ ret r)
          × Passed array objs r
    unfolding visit_all Within
    visit_all-Passed array [] within s = ((false, array), refl, quiet (λ o i. elim i [ ]))
    visit_all-Passed array (obj ∷ objs) within s =
        let a = visit-is_addable v pkgdb revs ok (false, array) obj (within obj here) s.vers in
        elim (Bool-cases (is_addable v pkgdb revs array obj)) [
          | inl t ↦
              let (s', less) = is_addable-IsSound v pkgdb revs array obj (within obj here) s t in
              let (after, runs, s'', bound) =
                visit_all-IsSound (array ++ obj.pkgd ∷ []) objs (λ o i. within o (there i)) s' in
              ((true, after), rw (a, t) runs, grown s'' (omega arith))
          | inr f ↦
              let (r, runs, p) = visit_all-Passed array objs (λ o i. within o (there i)) s in
              (r, rw (a, f) runs, later p f)
        ]
      where
        later :
            {r : Bool × List Pkg}
            → Passed array objs r
            → is_addable v pkgdb revs array obj ≡ false
            → Passed array (obj ∷ objs) r
        later (grown s'' less) f = grown s'' less
        later (quiet h) f = quiet (λ o i. each o i)
          where
            each : (o : Installed) → In o (obj ∷ objs) → is_addable v pkgdb revs array o ≡ false
            each _ here = f
            each o (there i) = h o i

    -- The array at the end of the loop: sound, and nothing is left to add.
    pub record Final (array : List Pkg) : Type 0 where
      pub ended : IsSound v pkgdb revs array
      pub closed : (obj : Installed) → In obj pkgdb → is_addable v pkgdb revs array obj ≡ false

    iterate-Final :
        (fuel : ℕ) (array : List Pkg)
        → IsSound v pkgdb revs array
        → left v pkgdb revs array pkgdb < fuel
        → (result : List Pkg) × (iterate v pkgdb revs fuel array ≡ ret (some result)) × Final result
    unfolding iterate Within
    iterate-Final zero array s less = absurd (omega arith)
    iterate-Final (suc fuel) array s less =
        go (λ after s' l. iterate-Final fuel after s' (omega arith))
          (visit_all-Passed array pkgdb (λ o i. i) s)
      where
        go :
            ((after : List Pkg)
              → IsSound v pkgdb revs after
              → left v pkgdb revs after pkgdb < left v pkgdb revs array pkgdb
              → (result : List Pkg) × (iterate v pkgdb revs fuel after ≡ ret (some result))
                × Final result)
            → ((r : Bool × List Pkg) × (visit_all v pkgdb revs (false, array) pkgdb ≡ ret r)
                × Passed array pkgdb r)
            → (result : List Pkg) × (iterate v pkgdb revs (suc fuel) array ≡ ret (some result))
              × Final result
        go again ((false, _), runs, quiet h) =
            (array, rw runs refl, record { ended = s; closed = h })
        go again ((true, after), runs, grown s' l) =
            let (result, ends, f) = again after s' l in (result, rw runs ends, f)

    -- Whatever is an orphan stands in the array at the end.
    IsOrphan-listed :
        {array : List Pkg} {s : CStr}
        → Final array
        → IsOrphan v pkgdb revs s
        → listed array s ≡ true
    unfolding is_addable
    IsOrphan-listed {array} {s} f (orphan obj i e auto h) =
        let all =
          (is_full_iff v array f.ended.vers (revdeps_of v pkgdb revs s)).1
            (λ q j. IsOrphan-listed f (h q j)) in
        let c = f.closed obj i in ground (arith, e, auto, all, c)

    pub loop_lem :
        (result : List Pkg) × (find_pkg_orphans v pkgdb revs ≡ ret (some result))
        × ((s : CStr) → (listed result s ≡ true) ↔ IsOrphan v pkgdb revs s)
    unfolding find_pkg_orphans any
    loop_lem =
        let start : IsSound v pkgdb revs [] = record { vers = tt; sound = λ s e. absurd (cc) } in
        let (result, runs, f) =
          iterate-Final (length pkgdb + 1) [] start
            (omega (arith, left-bound v pkgdb revs [] pkgdb)) in
        (result, runs, (λ s. ((λ t. f.ended.sound s t), (λ o. IsOrphan-listed f o))))

-- Every pkgver of the database is well formed.
pub record HasVersions (pkgdb : List Installed) : Type 0 where
  pub of_db :
      (obj : Installed) → In obj pkgdb → (ver : CStr) → obj.pkgd.pkgver ≡ some ver → IsPkgver ver

module _ (v : Versions) (vpkgd : List Virtuals) where
  table_or_nothing :
      (pkgdb : List Installed) (revs : List (CStr × List CStr)) (pkgver : CStr)
      → (revdeps_of v pkgdb revs pkgver ≡ [])
        ⊎ ((name : CStr) × (revdeps_of v pkgdb revs pkgver ≡ array_of revs name))
  unfolding get_pkg_revdeps
  table_or_nothing pkgdb revs pkgver = elim (Option-cases (pkgdb_get_pkg v pkgdb pkgver)) [
    | inl e ↦ inl (rw (revdeps_of, get_pkg_revdeps, e) refl)
    | inr (obj, e) ↦ elim (Option-cases (obj.pkgd.pkgver)) [
      | inl f ↦ inl (rw (revdeps_of, get_pkg_revdeps, e, f) refl)
      | inr (ver, f) ↦ elim (Option-cases (pkg_name name_size ver)) [
        | inl g ↦ inl (rw (revdeps_of, get_pkg_revdeps, e, f, g) refl)
        | inr (name, g) ↦ inr (name, rw (revdeps_of, get_pkg_revdeps, e, f, g) refl)
      ]
    ]
  ]

  pub HasPkgvers-tree :
      (pkgdb : List Installed) {revs : List (CStr × List CStr)}
      → HasVersions pkgdb
      → generate_full_revdeps_tree v vpkgd pkgdb ≡ ret revs
      → HasPkgvers v pkgdb revs
  unfolding Dependant
  HasPkgvers-tree pkgdb {revs} ok h = record {
    of_db = ok.of_db;
    of_table = λ pkgver. All-of_In IsPkgver _ (λ q i. of_array q (in_table pkgver q i));
  }
    where
      in_table :
          (pkgver q : CStr)
          → In q (revdeps_of v pkgdb revs pkgver)
          → (name : CStr) × In q (array_of revs name)
      in_table pkgver q i = elim (table_or_nothing pkgdb revs pkgver) [
        | inl e ↦ absurd (elim (subst (λ r. In q r) e i) [ ])
        | inr (name, e) ↦ (name, subst (λ r. In q r) e i)
      ]

      of_array : (q : CStr) → ((name : CStr) × In q (array_of revs name)) → IsPkgver q
      of_array q (name, i) =
          let d = (generate_full_revdeps_tree-Dependant v vpkgd pkgdb q name h).0 i in
          ok.of_db d.0 d.1 q d.2.has_ver

  -- With a package database whose pkgvers are versions and no patterns, and the table of reverse
  -- dependencies that is built from it, the search for orphans never aborts and ends within one
  -- pass for each package and one more. The pkgvers of its result are those of the least set of
  -- orphans: the packages that were installed automatically and whose reverse dependencies are all
  -- in the set.
  pub find_pkg_orphans-IsOrphan :
      (pkgdb : List Installed) (revs : List (CStr × List CStr))
      → HasVersions pkgdb
      → generate_full_revdeps_tree v vpkgd pkgdb ≡ ret revs
      → (result : List Pkg) × (find_pkg_orphans v pkgdb revs ≡ ret (some result))
        × ((s : CStr) → (listed result s ≡ true) ↔ IsOrphan v pkgdb revs s)
  find_pkg_orphans-IsOrphan pkgdb revs ok h = loop_lem v pkgdb revs (HasPkgvers-tree pkgdb ok h)
