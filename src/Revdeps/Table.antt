-- ===== src/Revdeps/Table.antt =====
-- The cache of vpkg_user_conf, and what one entry of the table becomes.
use xbps.Common.{
  Option, none, some, List, [], ◌∷◌, ◌++◌, ◌≡◌, ◌↔◌, refl, ap, ◌∙◌, ◌⊎◌, inl, inr, subst, CStr,
  streq, streq_iff, streq_refl, with_default, Run, ret, abort, In, In-append_left, In-last,
  In-concat, arith, Bool-cases, Option-cases, find_key, set_key, find_key-set_key,
}
use xbps.Versions.{Versions}
use xbps.Match.{match_string_in_array, by_string}
use xbps.Match.FirstHit.{match_string_iff}
use xbps.Virtual.{Virtuals, vpkg_user_conf}
use xbps.Revdeps.{dep_name, cached, add_revdep}

abbrev pub array_of : List (CStr × List CStr) → CStr → List CStr
array_of revdeps name = with_default [] (find_key revdeps name)

module _ (v : Versions) (vpkgd : List Virtuals) where
  -- The package that stands for a name: what the configuration says, or the name itself.
  pub record Resolves (name real : CStr) : Type 0 where
    pub configured : Option CStr
    pub runs : vpkg_user_conf v vpkgd name ≡ ret configured
    pub result : with_default name configured ≡ real

  -- The dependency asks for this package.
  pub record Asks (dep real : CStr) : Type 0 where
    pub name : CStr
    pub named : dep_name dep ≡ some name
    pub resolves : Resolves name real

  pub Asks-unique : {dep a b : CStr} → Asks dep a → Asks dep b → a ≡ b
  Asks-unique p q =
      let a = p.named in
      let b = q.named in
      let c = p.resolves.runs in
      let d = q.resolves.runs in
      let e = p.resolves.result in let f = q.resolves.result in ground arith

  abbrev pub CacheOk : List (CStr × CStr) → Type 0
  CacheOk c = (n x : CStr) → find_key c n ≡ some x → Resolves n x

  CacheOk-set_key :
      (c : List (CStr × CStr)) (n y : CStr) → CacheOk c → Resolves n y → CacheOk (set_key c n y)
  CacheOk-set_key c n y ok known n' x h =
      let w = find_key-set_key c n n' y in
      elim (Bool-cases (streq n n')) [
        | inl t ↦
            let a : n ≡ n' = (streq_iff n n').0 t in
            let b : y ≡ x = ground (arith, w, t) in rw (← a) (rw (← b) known)
        | inr f ↦ ok n' x (ground (arith, w, f))
      ]

  pub cached-Resolves :
      (c : List (CStr × CStr)) (n : CStr) {r : List (CStr × CStr) × CStr}
      → CacheOk c
      → cached v vpkgd c n ≡ ret r
      → CacheOk r.0 × Resolves n r.1
  unfolding cached
  cached-Resolves c n {r} ok h = elim (Option-cases (find_key c n)) [
    | inr (x, e) ↦
        let same : (c, x) ≡ r = ground (arith, e) in
        subst (λ r. CacheOk r.0 × Resolves n r.1) same (ok, ok n x e)
    | inl e ↦ go (vpkg_user_conf v vpkgd n) refl e
  ]
    where
      go :
          (o : Run (Option CStr))
          → vpkg_user_conf v vpkgd n ≡ o
          → find_key c n ≡ none
          → CacheOk r.0 × Resolves n r.1
      go abort e f = absurd (ground (arith, e, f))
      go (ret o) e f =
          let y = with_default n o in
          let known : Resolves n y = record { configured = o; runs = e; result = refl } in
          let same : (set_key c n y, y) ≡ r = ground (arith, e, f) in
          subst (λ r. CacheOk r.0 × Resolves n r.1) same (CacheOk-set_key c n y ok known, known)

  at_name :
      (revs : List (CStr × List CStr)) (name pkgver : CStr)
      → array_of (set_key revs name (array_of revs name ++ pkgver ∷ [])) name
        ≡ array_of revs name ++ pkgver ∷ []
  at_name revs name pkgver =
      ap (with_default []) (find_key-set_key revs name name (array_of revs name ++ pkgver ∷ []))
      ∙ rw (streq_refl name)

  extended :
      (revs : List (CStr × List CStr)) (name pkgver other q : CStr)
      → In q (array_of (set_key revs name (array_of revs name ++ pkgver ∷ [])) other)
        ↔ (In q (array_of revs other) ⊎ ((q ≡ pkgver) × (name ≡ other)))
  extended revs name pkgver other q = elim (Bool-cases (streq name other)) [
    | inl t ↦
        subst
          (λ o.
            In q (array_of (set_key revs name (array_of revs name ++ pkgver ∷ [])) o)
            ↔ (In q (array_of revs o) ⊎ ((q ≡ pkgver) × (name ≡ o))))
          ((streq_iff name other).0 t)
          (rw (at_name revs name pkgver) (
            (λ i. elim (In-concat (array_of revs name) i) [
              | inl j ↦ inl j
              | inr e ↦ inr (e, refl)
            ]),
            (λ d. elim d [
              | inl i ↦ In-append_left (pkgver ∷ []) i
              | inr (a, b) ↦ rw a (In-last (array_of revs name) pkgver)
            ]),
          ))
    | inr f ↦
        let e = find_key-set_key revs name other (array_of revs name ++ pkgver ∷ []) in
        let same : array_of (set_key revs name (array_of revs name ++ pkgver ∷ [])) other
            ≡ array_of revs other =
          ap (with_default []) e ∙ rw f in
        rw same (
          (λ i. inl i),
          (λ d. elim d [
            | inl i ↦ i
            | inr (a, b) ↦ absurd (let t = (streq_iff name other).1 b in ground (arith))
          ]),
        )
  ]

  pub add_revdep-In :
      (revs : List (CStr × List CStr)) (name pkgver other q : CStr)
      → In q (array_of (add_revdep v vpkgd revs name pkgver) other)
        ↔ (In q (array_of revs other) ⊎ ((q ≡ pkgver) × (name ≡ other)))
  unfolding add_revdep
  add_revdep-In revs name pkgver other q =
      elim (Bool-cases (match_string_in_array v by_string pkgver (array_of revs name))) [
        | inl e ↦ rw e (
          (λ i. inl i),
          (λ d. elim d [
            | inl i ↦ i
            | inr (a, b) ↦ rw a (rw (← b) ((match_string_iff v pkgver (array_of revs name)).0 e))
          ]),
        )
        | inr e ↦ rw e (extended revs name pkgver other q)
      ]
