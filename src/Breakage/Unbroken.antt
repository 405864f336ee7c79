-- ===== src/Breakage/Unbroken.antt =====
-- What the check lets pass.
use xbps.Common.{
  true, false, Option, some, List, [], ◌∷◌, ◌++◌, ◌≡◌, ◌≢◌, ◌⊎◌, inl, inr, refl, ◌∙◌, CStr, streq,
  streq_iff, streq_refl, truthy, Run, ret, >>=-ret, In, here, there, arith, Bool-cases,
}
use xbps.Util.Pkgver.{pkg_name, name_size}
use xbps.Versions.{Versions, pattern_match}
use xbps.Match.{match_string_in_array, pkgdep_against_patterns, probe}
use xbps.Revdeps.{dep_name}
use xbps.Breakage.{
  Report, check_each, is_violated, virtual_messages, check_virtual_pkgs, depends_on,
}

append-empty {ℓ} : {A : Type ℓ} (xs ys : List A) → xs ++ ys ≡ [] → (xs ≡ []) × (ys ≡ [])
append-empty [] ys e = (refl, e)
append-empty (x ∷ xs) ys e = absurd (cc)

-- A loop without a message had no message in any round.
pub check_each-quiet {ℓ} :
    {A : Type ℓ} (check : A → Run Report) (xs : List A) (mdeps : List CStr)
    → check_each check xs mdeps ≡ ret (true, [])
    → (mdeps ≡ []) × ((x : A) → In x xs → check x ≡ ret (true, []))
unfolding check_each
check_each-quiet check [] mdeps h = (ground arith, λ x i. elim i [ ])
check_each-quiet {A = A} check (y ∷ xs) mdeps h =
    let (r, runs, out) = >>=-ret (check y) _ h in
    elim (Bool-cases (r.0)) [
      | inr f ↦ absurd (ground (arith, f, out))
      | inl t ↦
          let (e, rest) = check_each-quiet check xs (mdeps ++ r.1) (ground (arith, t, out)) in
          let (e1, e2) = append-empty mdeps (r.1) e in
          (e1, each rest (runs ∙ ground (arith, t, e2)))
    ]
  where
    each :
        ((x : A) → In x xs → check x ≡ ret (true, []))
        → check y ≡ ret (true, [])
        → (x : A) → In x (y ∷ xs)
        → check x ≡ ret (true, [])
    each rest h _ here = h
    each rest h x (there i) = rest x i

module _ (v : Versions) where
  abbrev pub AllNamed : List CStr → Type 0
  AllNamed provides =
      (vpkgver : CStr) → In vpkgver provides → (n : CStr) × (pkg_name name_size vpkgver ≡ some n)

  -- The new version of a virtual package satisfies what depends on its name.
  pub record MeetsVirtual (provides rundeps : List CStr) : Type 0 where
    pub meets :
        (vpkgver vpkgname dep : CStr)
        → In vpkgver provides
        → pkg_name name_size vpkgver ≡ some vpkgname
        → In dep rundeps
        → dep_name dep ≡ some vpkgname
        → (vpkgver ≡ dep) ⊎ (truthy (pattern_match v vpkgver dep) ≡ true)

  virtual_messages-meets :
      (revpkgver : Option CStr) (vpkgver vpkgname : CStr) (rundeps : List CStr)
      → virtual_messages v revpkgver vpkgver vpkgname rundeps ≡ []
      → (dep : CStr) → In dep rundeps
      → dep_name dep ≡ some vpkgname
      → (vpkgver ≡ dep) ⊎ (truthy (pattern_match v vpkgver dep) ≡ true)
  unfolding virtual_messages is_violated
  virtual_messages-meets revpkgver vpkgver vpkgname [] h dep i e = elim i [ ]
  virtual_messages-meets revpkgver vpkgver vpkgname (_ ∷ rundeps) h dep here e =
      elim (Bool-cases (streq vpkgver dep)) [
        | inl t ↦ inl ((streq_iff vpkgver dep).0 t)
        | inr f ↦ inr (
            let s = streq_refl vpkgname in
            elim (Bool-cases (truthy (pattern_match v vpkgver dep))) [
              | inl t ↦ t
              | inr g ↦ absurd (ground (arith, h, e, f, g, s))
            ])
      ]
  virtual_messages-meets revpkgver vpkgver vpkgname (d ∷ rundeps) h dep (there i) e =
      virtual_messages-meets revpkgver vpkgver vpkgname rundeps
        (elim (Bool-cases (is_violated v vpkgver vpkgname d)) [
          | inl t ↦ absurd (ground (arith, h, t))
          | inr f ↦ ground (arith, h, f)
        ])
        dep i e

  pub check_virtual_pkgs-MeetsVirtual :
      (revpkgver : Option CStr) (rundeps provides : List CStr)
      → AllNamed provides
      → check_virtual_pkgs v revpkgver rundeps provides ≡ []
      → MeetsVirtual provides rundeps
  unfolding check_virtual_pkgs
  check_virtual_pkgs-MeetsVirtual revpkgver rundeps [] named h = record {
    meets = λ vp vn dep i. elim i [ ];
  }
  check_virtual_pkgs-MeetsVirtual revpkgver rundeps (p ∷ provides) named h =
      let (n, e) = named p here in
      let (e1, e2) =
        append-empty (virtual_messages v revpkgver p n rundeps)
          (check_virtual_pkgs v revpkgver rundeps provides) (ground (arith, h, e)) in
      let rest =
        check_virtual_pkgs-MeetsVirtual revpkgver rundeps provides (λ q i. named q (there i)) e2 in
      record { meets = each n e (virtual_messages-meets revpkgver p n rundeps e1) rest.meets }
    where
      each :
          (n : CStr)
          → pkg_name name_size p ≡ some n
          → ((dep : CStr)
              → In dep rundeps
              → dep_name dep ≡ some n
              → (p ≡ dep) ⊎ (truthy (pattern_match v p dep) ≡ true))
          → ((vp vn dep : CStr)
              → In vp provides
              → pkg_name name_size vp ≡ some vn
              → In dep rundeps
              → dep_name dep ≡ some vn
              → (vp ≡ dep) ⊎ (truthy (pattern_match v vp dep) ≡ true))
          → (vp vn dep : CStr) → In vp (p ∷ provides)
          → pkg_name name_size vp ≡ some vn
          → In dep rundeps
          → dep_name dep ≡ some vn
          → (vp ≡ dep) ⊎ (truthy (pattern_match v vp dep) ≡ true)
      each n e first rest _ vn dep here f j g = first dep j (ground (arith, e, f, g))
      each n e first rest vp vn dep (there i) f j g = rest vp vn dep i f j g

  pub depends_on-false :
      (curpkgname : CStr) (rundeps : List CStr)
      → depends_on v curpkgname rundeps ≡ some false
      → (dep : CStr) → In dep rundeps
      → dep_name dep ≢ some curpkgname
  unfolding depends_on
  depends_on-false curpkgname [] h dep i e = elim i [ ]
  depends_on-false curpkgname (_ ∷ rundeps) h dep here e =
      absurd (let s = streq_refl curpkgname in ground (arith, h, e, s))
  depends_on-false curpkgname (d ∷ rundeps) h dep (there i) e =
      depends_on-false curpkgname rundeps (ground (arith, h)) dep i e

  pub some_pattern :
      (pkgver : CStr) (rundeps : List CStr)
      → match_string_in_array v pkgdep_against_patterns pkgver rundeps ≡ true
      → (dep : CStr) × In dep rundeps × (truthy (pattern_match v pkgver dep) ≡ true)
  unfolding match_string_in_array probe
  some_pattern pkgver [] h = absurd (cc)
  some_pattern pkgver (d ∷ rundeps) h = elim (Bool-cases (truthy (pattern_match v pkgver d))) [
    | inl t ↦ (d, here, t)
    | inr f ↦
        let (dep, i, e) = some_pattern pkgver rundeps (ground (arith, h, f)) in (dep, there i, e)
  ]
