-- ===== src/Orphans/Passes.antt =====
-- The passes over the package database: each adds a package or is the last.
use xbps.Common.{
  ℕ, suc, ◌≤◌, ◌<◌, Bool, true, false, not, ◌&&◌, ◌||◌, Option, none, some, List, [], ◌∷◌, ◌++◌,
  ◌≡◌, refl, inl, inr, CStr, streq, streq_iff, streq_refl, ret, All, All-concat, In, here, there,
  arith, Bool-cases, Option-cases, if◌then◌else◌, ◌==◌, any, length, with_default,
}
use xbps.Common.{find_key, ret, abort}
use xbps.Util.Pkgver.{pkg_name, name_size}
use xbps.Dict.{find_pkg_in_dict, match_pkg_by_pkgver, checked, dict_get}
use xbps.Dict.Access.{checked-some}
use xbps.Versions.{Versions}
use xbps.Pkg.{Pkg, Installed}
use xbps.Revdeps.{get_pkg_revdeps}
use xbps.Orphans.{visit}
use xbps.Orphans.Listed.{
  IsPkgver, has_pkgver, listed, HasVer, count_listed, is_queued-listed, is_needless-count,
  is_full_iff,
}

module _ (v : Versions) (pkgdb : List Installed) (revs : List (CStr × List CStr)) where
  -- The reverse dependencies of the table.
  abbrev pub revdeps_of : CStr → List CStr
  revdeps_of pkgver = elim (get_pkg_revdeps v pkgdb revs pkgver) [
    | ret revdeps ↦ with_default [] revdeps
    | abort ↦ []
  ]

  -- A package that is found by a pkgver has it: the search for its name does not abort.
  pub get_pkg_revdeps-IsPkgver :
      (pkgver : CStr)
      → IsPkgver pkgver
      → (revdeps : Option (List CStr)) × (get_pkg_revdeps v pkgdb revs pkgver ≡ ret revdeps)
  unfolding get_pkg_revdeps find_pkg_in_dict match_pkg_by_pkgver
  get_pkg_revdeps-IsPkgver pkgver ok = elim (Option-cases (find_pkg_in_dict v pkgdb pkgver)) [
    | inl e ↦ (none, rw (get_pkg_revdeps, e) refl)
    | inr (obj, e) ↦ elim (Option-cases (pkg_name name_size pkgver)) [
      | inl f ↦
          let a = ok.no_pattern in let b = ok.has_version in absurd (ground (arith, e, f, a, b))
      | inr (name, f) ↦
          let a = ok.no_pattern in
          let b = ok.has_version in
          let found : checked (λ cur. streq cur pkgver) (dict_get pkgdb name) ≡ some obj =
            ground (arith, e, f, a, b) in
          let (i, (ver, g, h)) =
            checked-some (λ cur. streq cur pkgver) (dict_get pkgdb name) found in
          elim (Option-cases (pkg_name name_size ver)) [
            | inl n ↦ (none, rw (get_pkg_revdeps, e, g, n) refl)
            | inr (n, k) ↦ (find_key revs n, rw (get_pkg_revdeps, e, g, k) refl)
          ]
    ]
  ]

  -- The loop adds this package to the array.
  unfoldable pub is_addable : List Pkg → Installed → Bool
  is_addable array obj = elim (obj.pkgd.pkgver) [
    | none ↦ false
    | some pkgver ↦
        with_default false obj.pkgd.automatic_install
        && not (listed array pkgver)
        && (count_listed array (revdeps_of pkgver) == length (revdeps_of pkgver))
  ]

  -- The pkgvers of the database and of the table are well formed.
  pub record HasPkgvers : Type 0 where
    pub of_db :
        (obj : Installed) → In obj pkgdb → (ver : CStr) → obj.pkgd.pkgver ≡ some ver → IsPkgver ver
    pub of_table : (pkgver : CStr) → All IsPkgver (revdeps_of pkgver)

  abbrev pub added_to : Bool × List Pkg → Installed → Bool × List Pkg
  added_to s obj = if is_addable s.1 obj then (true, s.1 ++ obj.pkgd ∷ []) else s

  pub visit-is_addable :
      (ok : HasPkgvers) (s : Bool × List Pkg) (obj : Installed)
      → In obj pkgdb
      → All HasVer s.1
      → visit v pkgdb revs s obj ≡ ret (added_to s obj)
  unfolding visit is_addable
  visit-is_addable ok (added, array) obj i vers = elim (Option-cases (obj.pkgd.pkgver)) [
    | inl e ↦ rw e refl
    | inr (ver, e) ↦
        let a = is_queued-listed v (ok.of_db obj i ver e) array vers in
        let b = is_needless-count v array vers (revdeps_of ver) (ok.of_table ver) in
        let (revdeps, c) = get_pkg_revdeps-IsPkgver ver (ok.of_db obj i ver e) in
        ground (arith, e, a, b, c)
  ]

  -- How many packages of a list have a pkgver that the array lacks.
  unfoldable pub left : List Pkg → List Installed → ℕ
  left array [] = 0
  left array (obj ∷ objs) =
      let rest = left array objs in
      elim (obj.pkgd.pkgver) [
        | none ↦ rest
        | some ver ↦ if listed array ver then rest else suc rest
      ]

  pub listed-append :
      (array : List Pkg) (p : Pkg) (s : CStr)
      → listed (array ++ p ∷ []) s ≡ (listed array s || has_pkgver s p)
  unfolding any
  listed-append [] p s = ground arith
  listed-append (q ∷ array) p s = ground (arith, listed-append array p s)

  left-append :
      (array : List Pkg) (p : Pkg) (objs : List Installed)
      → left (array ++ p ∷ []) objs ≤ left array objs
  unfolding left
  left-append array p [] = omega arith
  left-append array p (obj ∷ objs) = elim (Option-cases (obj.pkgd.pkgver)) [
    | inl e ↦ ground (arith, e, left-append array p objs)
    | inr (ver, e) ↦ ground (arith, e, left-append array p objs, listed-append array p ver)
  ]

  pub left-added :
      (array : List Pkg) (obj : Installed) (ver : CStr) (objs : List Installed)
      → In obj objs
      → obj.pkgd.pkgver ≡ some ver
      → listed array ver ≡ false
      → left (array ++ obj.pkgd ∷ []) objs < left array objs
  unfolding left has_pkgver
  left-added array obj ver [] i e f = elim i [ ]
  left-added array obj ver (_ ∷ objs) here e f =
      let a = left-append array obj.pkgd objs in
      let b = listed-append array obj.pkgd ver in
      let c = streq_refl ver in ground (arith, e, f, a, b, c)
  left-added array obj ver (x ∷ objs) (there i) e f = elim (Option-cases (x.pkgd.pkgver)) [
    | inl g ↦ ground (arith, g, left-added array obj ver objs i e f)
    | inr (xver, g) ↦
        ground (arith, g, left-added array obj ver objs i e f, listed-append array obj.pkgd xver)
  ]

  pub left-bound : (array : List Pkg) (objs : List Installed) → left array objs ≤ length objs
  unfolding left
  left-bound array [] = omega arith
  left-bound array (obj ∷ objs) = elim (Option-cases (obj.pkgd.pkgver)) [
    | inl e ↦ ground (arith, e, left-bound array objs)
    | inr (ver, e) ↦ ground (arith, e, left-bound array objs)
  ]

  -- The pkgver of an orphan: a package that was installed automatically and on which only orphans
  -- depend, in the least such set.
  pub data IsOrphan : CStr → Type 0 where
    orphan :
        (obj : Installed) {pkgver : CStr}
        → In obj pkgdb
        → obj.pkgd.pkgver ≡ some pkgver
        → with_default false obj.pkgd.automatic_install ≡ true
        → ((q : CStr) → In q (revdeps_of pkgver) → IsOrphan q)
        → IsOrphan pkgver

  -- The array holds orphans only.
  pub record IsSound (array : List Pkg) : Type 0 where
    pub vers : All HasVer array
    pub sound : (s : CStr) → listed array s ≡ true → IsOrphan s

  pub is_addable-IsSound :
      (array : List Pkg) (obj : Installed)
      → In obj pkgdb
      → IsSound array
      → is_addable array obj ≡ true
      → IsSound (array ++ obj.pkgd ∷ []) × (left (array ++ obj.pkgd ∷ []) pkgdb < left array pkgdb)
  unfolding is_addable has_pkgver
  is_addable-IsSound array obj i ok h = elim (Option-cases (obj.pkgd.pkgver)) [
    | inl e ↦ absurd (ground (arith, e))
    | inr (ver, e) ↦
        let auto : with_default false obj.pkgd.automatic_install ≡ true = ground (arith, e) in
        let new : listed array ver ≡ false = ground (arith, e) in
        let full : (count_listed array (revdeps_of ver) == length (revdeps_of ver)) ≡ true =
          ground (arith, e) in
        let all = (is_full_iff v array ok.vers (revdeps_of ver)).0 full in
        let it : IsOrphan ver = orphan obj i e auto (λ q j. ok.sound q (all q j)) in
        (
          record {
            vers = All-concat HasVer array obj.pkgd ok.vers (ver, e);
            sound = λ s t. elim (Bool-cases (listed array s)) [
              | inl u ↦ ok.sound s u
              | inr u ↦
                  let same : streq s ver ≡ true =
                    ground (arith, e, listed-append array obj.pkgd s) in
                  rw ((streq_iff s ver).0 same) it
            ];
          },
          left-added array obj ver pkgdb i e new,
        )
  ]
