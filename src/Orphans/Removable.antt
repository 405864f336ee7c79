-- ===== src/Orphans/Removable.antt =====
-- The recursive mode takes packages only that nothing else needs.
use xbps.Common.{
  ◌+◌, ◌≤◌, true, false, some, List, [], ◌∷◌, ◌++◌, ◌≡◌, refl, inl, inr, CStr, streq, streq_iff,
  ret, All, All-concat, In, here, there, In-append_left, arith, Bool-cases, Option-cases, length,
  length-append, with_default, ◌==◌,
}
use xbps.Versions.{Versions}
use xbps.Pkg.{Pkg, Installed}
use xbps.Walks.{done}
use xbps.Virtual.{Virtuals, pkgdb_get_pkg}
use xbps.Dict.Access.{find_pkg_in_dict-In, find_pkg_in_dict-pkgver}
use xbps.Fulldeptree.{pkgdb_get_pkg_fulldeptree}
use xbps.Orphans.Recursive.{users_packages, is_unneeded, add_rdep, add_rdeps}
use xbps.Orphans.Listed.{
  IsPkgver, has_pkgver, listed, HasVer, count_listed, is_queued-listed, count_queued-count_listed,
  is_full_iff,
}
use xbps.Orphans.Passes.{
  revdeps_of, HasPkgvers, get_pkg_revdeps-IsPkgver, listed-append, left, left-added,
}

module _ (v : Versions) (vpkgd : List Virtuals) (pkgdb : List Installed)
    (revs : List (CStr × List CStr)) (users : List CStr) where
  -- A pkgver of the full dependency tree.
  pub record IsBelow (p s : CStr) : Type 0 where
    pub rdeps : List CStr
    pub walks : pkgdb_get_pkg_fulldeptree v vpkgd pkgdb p ≡ done (some rdeps)
    pub has : In s rdeps

  -- What may go: what the user removes; and an automatic package that something needs that may go,
  -- if all that depend on it may go.
  pub data IsRemovable : CStr → Type 0 where
    asked : {s : CStr} → listed (users_packages v pkgdb users) s ≡ true → IsRemovable s
    left_alone :
        {p s : CStr} (obj : Installed)
        → IsRemovable p
        → IsBelow p s
        → In obj pkgdb
        → obj.pkgd.pkgver ≡ some s
        → with_default false obj.pkgd.automatic_install ≡ true
        → ((q : CStr) → In q (revdeps_of v pkgdb revs s) → IsRemovable q)
        → IsRemovable s

  abbrev pub IsInstalled : Pkg → Type 0
  IsInstalled p = (obj : Installed) × In obj pkgdb × (obj.pkgd ≡ p)

  pub record Sound (array : List Pkg) : Type 0 where
    pub installed : (p : Pkg) → In p array → IsInstalled p
    pub vers : All HasVer array
    pub removable : (s : CStr) → listed array s ≡ true → IsRemovable s

  -- The array after a part of the loop.
  pub record Grown (a b : List Pkg) : Type 0 where
    pub sound : Sound b
    pub keeps : (p : Pkg) → In p a → In p b
    pub longer : length a ≤ length b
    pub bound : length b + left v pkgdb revs b pkgdb ≤ length a + left v pkgdb revs a pkgdb

  pub Grown-refl : {a : List Pkg} → Sound a → Grown a a
  Grown-refl s = record { sound = s; keeps = λ p i. i; longer = omega arith; bound = omega arith }

  pub Grown-trans : {a b c : List Pkg} → Grown a b → Grown b c → Grown a c
  Grown-trans g h =
      let l = g.longer in
      let l' = h.longer in
      let m = g.bound in
      let m' = h.bound in
      record {
        sound = h.sound;
        keeps = λ p i. h.keeps p (g.keeps p i);
        longer = omega arith;
        bound = omega arith;
      }

  module _ (ok : HasPkgvers v pkgdb revs) where
    is_unneeded-count :
        (array : List Pkg) (s : CStr)
        → All HasVer array
        → IsPkgver s
        → is_unneeded v pkgdb revs array s
          ≡ ret
              (count_listed array (revdeps_of v pkgdb revs s) == length (revdeps_of v pkgdb revs s))
    unfolding is_unneeded
    is_unneeded-count array s vers plain =
        let (revdeps, runs) = get_pkg_revdeps-IsPkgver v pkgdb revs s plain in
        let counts =
          count_queued-count_listed v array vers (revdeps_of v pkgdb revs s) 0 (ok.of_table s) in
        ground (arith, runs, counts)

    -- The package that enters the array.
    module _ (array : List Pkg) (p s : CStr) (obj : Installed) (array_sound : Sound array)
        (p_removable : IsRemovable p) (below : IsBelow p s) (in_db : In obj pkgdb)
        (has : obj.pkgd.pkgver ≡ some s)
        (auto : with_default false obj.pkgd.automatic_install ≡ true) (new : listed array s ≡ false)
        (full : (count_listed array (revdeps_of v pkgdb revs s)
            == length (revdeps_of v pkgdb revs s))
          ≡ true) where
      goes : IsRemovable s
      goes = left_alone obj p_removable below in_db has auto (λ q j.
          array_sound.removable q
            ((is_full_iff v array array_sound.vers (revdeps_of v pkgdb revs s)).0 full q j))

      added-Grown : Grown array (array ++ obj.pkgd ∷ [])
      unfolding has_pkgver
      added-Grown =
          let less = left-added v pkgdb revs array obj s pkgdb in_db has new in
          let len = length-append array (obj.pkgd ∷ []) in
          record {
            sound = record {
              installed = installed array array_sound.installed;
              vers = All-concat HasVer array obj.pkgd array_sound.vers (s, has);
              removable = removable;
            };
            keeps = λ q i. In-append_left (obj.pkgd ∷ []) i;
            longer = omega arith;
            bound = omega arith;
          }
        where
          installed :
              (xs : List Pkg)
              → ((q : Pkg) → In q xs → IsInstalled q)
              → (q : Pkg) → In q (xs ++ obj.pkgd ∷ [])
              → IsInstalled q
          installed [] h _ here = (obj, in_db, refl)
          installed [] h q (there i) = elim i [ ]
          installed (x ∷ xs) h _ here = h x here
          installed (x ∷ xs) h q (there i) = installed xs (λ q i. h q (there i)) q i

          removable : (t : CStr) → listed (array ++ obj.pkgd ∷ []) t ≡ true → IsRemovable t
          removable t h = elim (Bool-cases (listed array t)) [
            | inl u ↦ array_sound.removable t u
            | inr u ↦
                let same : streq t s ≡ true =
                  ground (arith, has, listed-append v pkgdb revs array obj.pkgd t) in
                rw ((streq_iff t s).0 same) goes
          ]

    add_rdep-Grown :
        (array : List Pkg) (p s : CStr)
        → IsPkgver s
        → Sound array
        → IsRemovable p
        → IsBelow p s
        → (array' : List Pkg) × (add_rdep v pkgdb revs array s ≡ ret array') × Grown array array'
    unfolding add_rdep
    add_rdep-Grown array p s plain sound goes below =
        let queued = is_queued-listed v plain array sound.vers in
        elim (Bool-cases (listed array s)) [
          | inl t ↦ (array, ground (arith, queued, t), Grown-refl sound)
          | inr t ↦ elim (Option-cases (pkgdb_get_pkg v pkgdb s)) [
            | inl e ↦ (array, ground (arith, queued, t, e), Grown-refl sound)
            | inr (obj, e) ↦ elim (Bool-cases (with_default false obj.pkgd.automatic_install)) [
              | inr f ↦ (array, ground (arith, queued, t, e, f), Grown-refl sound)
              | inl f ↦
                  let count = is_unneeded-count array s sound.vers plain in
                  elim (Bool-cases (
                    count_listed array (revdeps_of v pkgdb revs s)
                    == length (revdeps_of v pkgdb revs s))) [
                      | inr g ↦ (array, ground (arith, queued, t, e, f, count, g), Grown-refl sound)
                      | inl g ↦ (
                        array ++ obj.pkgd ∷ [],
                        ground (arith, queued, t, e, f, count, g),
                        added-Grown array p s obj sound goes below (find_pkg_in_dict-In v pkgdb s e)
                            (find_pkg_in_dict-pkgver v pkgdb s plain.no_pattern plain.has_version e)
                            f t g,
                      )
                    ]
            ]
          ]
        ]

    pub add_rdeps-Grown :
        (array : List Pkg) (p : CStr) (rdeps : List CStr)
        → ((s : CStr) → In s rdeps → IsPkgver s × IsBelow p s)
        → Sound array
        → IsRemovable p
        → (array' : List Pkg) × (add_rdeps v pkgdb revs array rdeps ≡ ret array')
          × Grown array array'
    unfolding add_rdeps
    add_rdeps-Grown array p [] h sound goes = (array, refl, Grown-refl sound)
    add_rdeps-Grown array p (s ∷ rdeps) h sound goes =
        let (a, runs, g) = add_rdep-Grown array p s (h s here).0 sound goes (h s here).1 in
        let (b, runs', g') = add_rdeps-Grown a p rdeps (λ t i. h t (there i)) g.sound goes in
        (b, rw runs runs', Grown-trans g g')
