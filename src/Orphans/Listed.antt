-- ===== src/Orphans/Listed.antt =====
-- The searches of the loop: a search by a pkgver finds it exactly if some package of the array has
-- it, and the count of the reverse dependencies is full exactly if all of them are found.
use xbps.Common.{
  ℕ, suc, ◌+◌, ◌≤◌, Bool, true, false, Option, none, some, List, [], ◌∷◌, ◌≡◌, refl, ◌↔◌, ==_iff,
  inl, inr, CStr, streq, is_some, ret, All, In, here, there, arith, Bool-cases, if◌then◌else◌, ◌==◌,
  any, length,
}
use xbps.Util.Pkgver.{pkg_version}
use xbps.Util.Pattern.{pkgpattern_version}
use xbps.Versions.{Versions}
use xbps.Pkg.{Pkg, unknown}
use xbps.Arrays.{is_wanted, tests, first_wanted, of_type, get_pkg_in_array, find_pkg_in_array}
use xbps.Orphans.{is_queued, count_queued, is_needless}

-- A pkgver that is no pattern and has a version.
pub record IsPkgver (s : CStr) : Type 0 where
  pub no_pattern : pkgpattern_version s ≡ none
  pub version : CStr
  pub has_version : pkg_version s ≡ some version

-- The package has this pkgver.
unfoldable pub has_pkgver : CStr → Pkg → Bool
has_pkgver s p = elim (p.pkgver) [ none ↦ false | some ver ↦ streq s ver ]

abbrev pub listed : List Pkg → CStr → Bool
listed array s = any (has_pkgver s) array

abbrev pub HasVer : Pkg → Type 0
HasVer p = (ver : CStr) × (p.pkgver ≡ some ver)

module _ (v : Versions) {s : CStr} (plain : IsPkgver s) where
  is_wanted-has_pkgver : (p : Pkg) → HasVer p → is_wanted v s false p ≡ ret (has_pkgver s p)
  unfolding is_wanted tests has_pkgver
  is_wanted-has_pkgver p (ver, e) = rw (e, plain.no_pattern, plain.has_version) refl

  first_wanted-listed :
      (array : List Pkg)
      → All HasVer array
      → (r : Option Pkg) × (first_wanted v array s false ≡ ret r) × (is_some r ≡ listed array s)
  unfolding first_wanted any
  first_wanted-listed [] h = (none, refl, refl)
  first_wanted-listed (p ∷ array) h = elim (Bool-cases (has_pkgver s p)) [
    | inl t ↦ (some p, rw (is_wanted-has_pkgver p h.0, t) refl, rw t refl)
    | inr f ↦
        let (r, runs, same) = first_wanted-listed array h.1 in
        (r, rw (is_wanted-has_pkgver p h.0, f) runs, rw f same)
  ]

  of_type-unknown : (r : Option Pkg) → of_type v unknown r ≡ r
  unfolding of_type
  of_type-unknown none = refl
  of_type-unknown (some p) = refl

  pub is_queued-listed :
      (array : List Pkg) → All HasVer array → is_queued v array s ≡ ret (listed array s)
  unfolding is_queued find_pkg_in_array get_pkg_in_array
  is_queued-listed array h =
      let (r, runs, same) = first_wanted-listed array h in rw (runs, of_type-unknown r, same) refl

-- How many pkgvers of the list the array has.
unfoldable pub count_listed : List Pkg → List CStr → ℕ
count_listed array [] = 0
count_listed array (s ∷ ss) =
    let rest = count_listed array ss in if listed array s then suc rest else rest

module _ (v : Versions) (array : List Pkg) (vers : All HasVer array) where
  pub count_queued-count_listed :
      (ss : List CStr) (cnt : ℕ)
      → All IsPkgver ss
      → count_queued v array ss cnt ≡ ret (cnt + count_listed array ss)
  unfolding count_queued count_listed
  count_queued-count_listed [] cnt h = ground arith
  count_queued-count_listed (s ∷ ss) cnt h =
      let a = is_queued-listed v h.0 array vers in
      let b = count_queued-count_listed ss cnt h.1 in
      let c = count_queued-count_listed ss (cnt + 1) h.1 in ground (arith, a, b, c)

  count_listed-bound : (ss : List CStr) → count_listed array ss ≤ length ss
  unfolding count_listed
  count_listed-bound [] = omega arith
  count_listed-bound (s ∷ ss) = ground (arith, count_listed-bound ss)

  count_listed-full :
      (ss : List CStr)
      → (s : CStr) → In s ss
      → count_listed array ss ≡ length ss
      → listed array s ≡ true
  unfolding count_listed
  count_listed-full [] s i e = elim i [ ]
  count_listed-full (s ∷ ss) _ here e = let b = count_listed-bound ss in ground (arith, b, e)
  count_listed-full (x ∷ ss) s (there i) e =
      let b = count_listed-bound ss in count_listed-full ss s i (ground (arith, b, e))

  full-count_listed :
      (ss : List CStr)
      → ((s : CStr) → In s ss → listed array s ≡ true)
      → count_listed array ss ≡ length ss
  unfolding count_listed
  full-count_listed [] h = refl
  full-count_listed (s ∷ ss) h =
      let a = h s here in
      let b = full-count_listed ss (λ s i. h s (there i)) in ground (arith, a, b)

  -- Whether an automatic package is added: exactly if all that depend on it are in the array.
  pub is_needless-count :
      (ss : List CStr)
      → All IsPkgver ss
      → is_needless v array ss ≡ ret (count_listed array ss == length ss)
  unfolding is_needless count_listed
  is_needless-count [] h = refl
  is_needless-count (s ∷ ss) h = let e = count_queued-count_listed (s ∷ ss) 0 h in ground (arith, e)

  pub is_full_iff :
      (ss : List CStr)
      → ((count_listed array ss == length ss) ≡ true)
        ↔ ((s : CStr) → In s ss → listed array s ≡ true)
  is_full_iff ss = (
    (λ e s i. count_listed-full ss s i ((==_iff (count_listed array ss) (length ss)).0 e)),
    (λ h. (==_iff (count_listed array ss) (length ss)).1 (full-count_listed ss h)),
  )
