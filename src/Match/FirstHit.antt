-- ===== src/Match/FirstHit.antt =====
-- What the searches decide.
use xbps.Common.{
  Bool, true, List, [], ◌∷◌, ◌++◌, ◌≡◌, ◌↔◌, refl, ap, inl, inr, CStr, streq, streq_iff, streq_refl,
  any, All, In, here, there, arith, Bool-cases,
}
use xbps.Versions.{Versions}
use xbps.Match.{Mode, by_string, Probe, hit, miss, stop, probe, match_string_in_array}

-- An element is hit, and each element in front of it was passed over.
pub record FirstHit (v : Versions) (mode : Mode) (str : CStr) (objs : List CStr) : Type 0 where
  pub before : List CStr
  pub obj : CStr
  pub after : List CStr
  pub splits : objs ≡ before ++ obj ∷ after
  pub passed : All (λ o. probe v mode str o ≡ miss) before
  pub is_hit : probe v mode str obj ≡ hit

module _ (v : Versions) (mode : Mode) (str : CStr) where
  to_FirstHit :
      (objs : List CStr) → match_string_in_array v mode str objs ≡ true → FirstHit v mode str objs
  unfolding match_string_in_array
  to_FirstHit [] h = absurd (cc)
  to_FirstHit (o ∷ objs) h = step (to_FirstHit objs) (probe v mode str o) refl
    where
      step :
          (match_string_in_array v mode str objs ≡ true → FirstHit v mode str objs)
          → (p : Probe) → probe v mode str o ≡ p
          → FirstHit v mode str (o ∷ objs)
      step rec hit e = record {
        before = [];
        obj = o;
        after = objs;
        splits = refl;
        passed = tt;
        is_hit = e;
      }
      step rec miss e =
          let f = rec (ground arith) in
          record {
            before = o ∷ f.before;
            obj = f.obj;
            after = f.after;
            splits = ap (◌∷◌ o) f.splits;
            passed = (e, f.passed);
            is_hit = f.is_hit;
          }
      step rec stop e = absurd (ground arith)

  from_split :
      (before : List CStr) (obj : CStr) (after : List CStr)
      → All (λ o. probe v mode str o ≡ miss) before
      → probe v mode str obj ≡ hit
      → match_string_in_array v mode str (before ++ obj ∷ after) ≡ true
  unfolding match_string_in_array
  from_split [] obj after passed h = ground arith
  from_split (o ∷ before) obj after passed h =
      let rest = from_split before obj after passed.1 h in ground (arith, rest, passed.0)

  from_FirstHit :
      (objs : List CStr) → FirstHit v mode str objs → match_string_in_array v mode str objs ≡ true
  from_FirstHit objs f = rw f.splits (from_split f.before f.obj f.after f.passed f.is_hit)

-- In every mode, the search says true exactly when some element is a hit and no element in front
-- of it ended the search.
pub match_string_in_array_iff :
    (v : Versions) (mode : Mode) (str : CStr) (objs : List CStr)
    → (match_string_in_array v mode str objs ≡ true) ↔ FirstHit v mode str objs
match_string_in_array_iff v mode str objs =
    (to_FirstHit v mode str objs, from_FirstHit v mode str objs)

pub any-true {ℓ} :
    {A : Type ℓ} (p : A → Bool) (xs : List A) → any p xs ≡ true → (x : A) × In x xs × (p x ≡ true)
unfolding any
any-true p [] h = absurd (cc)
any-true p (x ∷ xs) h = elim (Bool-cases (p x)) [
  | inl e ↦ (x, here, e)
  | inr e ↦ let (y, i, e') = any-true p xs (ground arith) in (y, there i, e')
]

pub In-any {ℓ} :
    {A : Type ℓ} (p : A → Bool) {x : A} {xs : List A} → In x xs → p x ≡ true → any p xs ≡ true
unfolding any
In-any p here h = rw h
In-any p (there {x = y} i) h = let rest = In-any p i h in ground (arith, rest)

-- The strings are compared as they are.
pub match_string_iff :
    (v : Versions) (s : CStr) (objs : List CStr)
    → (match_string_in_array v by_string s objs ≡ true) ↔ In s objs
unfolding match_string_in_array probe
match_string_iff v s objs = (to objs, from objs)
  where
    to : (objs : List CStr) → match_string_in_array v by_string s objs ≡ true → In s objs
    to [] h = absurd (cc)
    to (o ∷ os) h = elim (Bool-cases (streq o s)) [
      | inl e ↦ rw ((streq_iff o s).0 e) here
      | inr e ↦ there (to os (ground arith))
    ]

    from : (objs : List CStr) → In s objs → match_string_in_array v by_string s objs ≡ true
    from [] i = elim i [ ]
    from (_ ∷ os) here = ground (arith, streq_refl s)
    from (o ∷ os) (there i) = ground (arith, from os i)
