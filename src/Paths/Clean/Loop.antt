-- ===== src/Paths/Clean/Loop.antt =====
-- The loop of xbps_path_clean goes where the elements lead.
use xbps.Common.{
  ℕ, ◌<◌, Bool, true, false, List, [], ◌∷◌, ◌≡◌, refl, sym, ap, subst, ◌∙◌, ◌==◌, CStr, length,
  streq, streq_iff, arith, Bool-cases, inl, inr,
}
use xbps.Paths.Clean.{
  Cleaning, at_end, dot_at_end, go_up, copied, copy, add_element, clean_step, clean_loop,
}
use xbps.Paths.Clean.Canonical.{split, Place, enter, enter_all}
use xbps.Paths.Clean.Steps.{
  slash_after, written_up, written, NoSlash, Represents, backtrack-written, length-written,
  length-copy, length-slash_after,
}

go_up-Represents :
    (rooted : Bool) (ups : ℕ) (names : List CStr) (st : Cleaning)
    → Represents rooted (record { ups = ups; names = names }) st
    → Represents rooted
        (enter rooted (record { ups = ups; names = names }) (b'.' ∷ b'.' ∷ []))
        (go_up rooted st)
unfolding go_up enter streq written written_up
go_up-Represents true ups [] st r =
    let o = r.is_out in
    let d = r.is_dotdot in
    let same : go_up true st ≡ st = ground (arith, o, d) in
    subst (λ st. Represents true (record { ups = ups; names = [] }) st) (sym same) r
go_up-Represents false ups [] st r =
    let o = r.is_out in
    let d = r.is_dotdot in
    record { names = tt; is_out = ground (arith, o, d); is_dotdot = ground (arith, o, d) }
go_up-Represents rooted ups (x ∷ names) st r =
    let o = r.is_out in
    let d = r.is_dotdot in
    let b = backtrack-written rooted ups x names (r.names.0) (r.names.1) in
    let l = length-written rooted ups names (r.names.1) in
    let m = length-copy x (slash_after rooted (written rooted ups names)) (r.names.0.no_slash) in
    let n = length-slash_after rooted (written rooted ups names) in
    let pos = r.names.0.some_byte in
    let above : st.dotdot < length st.out = ground (arith, o, d, l, m, n, pos) in
    let same : go_up rooted st ≡ record st { out = written rooted ups names } =
      ground (arith, o, d, b, above) in
    rw (same) (record { names = r.names.1; is_out = refl; is_dotdot = d })

pub at_end-split : (p : CStr) → at_end p ≡ streq (split p).0 []
unfolding at_end split streq
at_end-split [] = refl
at_end-split (c ∷ p) = ground arith

pub dot_at_end-split : (p : CStr) → dot_at_end p ≡ streq (split p).0 (b'.' ∷ [])
unfolding dot_at_end split streq
dot_at_end-split [] = refl
dot_at_end-split (c ∷ p) = ground (arith, at_end-split p)

pub copied-split : (p : CStr) → copied p ≡ length (split p).0
unfolding copied split
copied-split [] = refl
copied-split (c ∷ p) = ground (arith, copied-split p)

copy-split : (p out : CStr) → copy p out ≡ copy (split p).0 out
unfolding copy split
copy-split [] out = refl
copy-split (c ∷ p) out = elim (Bool-cases (c == b'/')) [
  | inl t ↦ rw (t) refl
  | inr f ↦ ground (arith, f, copy-split p (c ∷ out))
]

pub NoSlash-split : (p : CStr) → NoSlash (split p).0
unfolding split
NoSlash-split [] = tt
NoSlash-split (c ∷ p) = elim (Bool-cases (c == b'/')) [
  | inl t ↦ rw (t) tt
  | inr f ↦ rw (f) (f, NoSlash-split p)
]

pub copy-element :
    (c : ℕ) (p out : CStr) → (c == b'/') ≡ false → copy (c ∷ p) out ≡ copy (c ∷ (split p).0) out
unfolding copy
copy-element c p out f = ground (arith, f, copy-split p (c ∷ out))

add_element-Represents :
    (rooted : Bool) (c : ℕ) (p : CStr) (l : Place) (st : Cleaning)
    → (c == b'/') ≡ false
    → Represents rooted l st
    → Represents rooted
        (record l { names = (c ∷ (split p).0) ∷ l.names })
        (add_element rooted (c ∷ p) st)
unfolding add_element written
add_element-Represents rooted c p l st f r = record {
  names = (record { some_byte = omega arith; no_slash = (f, NoSlash-split p) }, r.names);
  is_out = copy-element c p _ f ∙ ap (λ o. copy (c ∷ (split p).0) (slash_after rooted o)) r.is_out;
  is_dotdot = r.is_dotdot;
}

-- One round at an element: it goes over the element, and the state follows.
clean_step-Represents :
    (rooted : Bool) (c : ℕ) (p : CStr) (l : Place) (st : Cleaning)
    → (c == b'/') ≡ false
    → Represents rooted l st
    → ((clean_step rooted c p st).0 ≡ length (split p).0)
      × Represents rooted (enter rooted l (c ∷ (split p).0)) ((clean_step rooted c p st).1)
unfolding clean_step enter dot_at_end streq
clean_step-Represents rooted c p l st f r =
    let x = (split p).0 in
    let a = at_end-split p in
    let b = dot_at_end-split p in
    elim (Bool-cases (streq (c ∷ x) (b'.' ∷ []))) [
      | inl t ↦
          let same : clean_step rooted c p st ≡ (0, st) = ground (arith, a, t, f) in
          let stays : enter rooted l (c ∷ x) ≡ l = ground (arith, t) in
          let n = ap length ((streq_iff (c ∷ x) (b'.' ∷ [])).0 t) in
          done (sym same) (omega (arith, n)) (subst (λ l. Represents rooted l st) (sym stays) r)
      | inr g ↦ elim (Bool-cases (streq (c ∷ x) (b'.' ∷ b'.' ∷ []))) [
        | inl t ↦
            let e = (streq_iff (c ∷ x) (b'.' ∷ b'.' ∷ [])).0 t in
            let n = ap length e in
            let same : clean_step rooted c p st ≡ (1, go_up rooted st) =
              ground (arith, a, b, t, g, f) in
            done (sym same) (omega (arith, n)) (
              subst (λ y. Represents rooted (enter rooted l y) (go_up rooted st)) (sym e)
                (go_up-Represents rooted l.ups l.names st r))
        | inr h ↦
            let same : clean_step rooted c p st ≡ (copied p, add_element rooted (c ∷ p) st) =
              ground (arith, a, b, h, g, f) in
            let enters : enter rooted l (c ∷ x) ≡ record l { names = (c ∷ x) ∷ l.names } =
              ground (arith, g, h) in
            done (sym same) (copied-split p) (
              subst (λ l. Represents rooted l (add_element rooted (c ∷ p) st)) (sym enters)
                (add_element-Represents rooted c p l st f r))
      ]
    ]
  where
    done :
        {q : ℕ × Cleaning}
        → q ≡ clean_step rooted c p st
        → q.0 ≡ length (split p).0
        → Represents rooted (enter rooted l (c ∷ (split p).0)) q.1
        → ((clean_step rooted c p st).0 ≡ length (split p).0)
          × Represents rooted (enter rooted l (c ∷ (split p).0)) ((clean_step rooted c p st).1)
    done e n rep =
        subst
          (λ q.
            (q.0 ≡ length (split p).0) × Represents rooted (enter rooted l (c ∷ (split p).0)) q.1)
          e (n, rep)

pub split-slash :
    (c : ℕ) (p : CStr) → (c == b'/') ≡ true → split (c ∷ p) ≡ ([], (split p).0 ∷ (split p).1)
unfolding split
split-slash c p t = ground (arith, t)

pub split-element :
    (c : ℕ) (p : CStr) → (c == b'/') ≡ false → split (c ∷ p) ≡ (c ∷ (split p).0, (split p).1)
unfolding split
split-element c p f = ground (arith, f)

pub clean_loop-slash :
    (rooted : Bool) (c : ℕ) (p : CStr) (st : Cleaning)
    → (c == b'/') ≡ true
    → clean_loop rooted (c ∷ p) 0 st ≡ clean_loop rooted p 0 st
unfolding clean_loop clean_step
clean_loop-slash rooted c p st t = ground (arith, t)

-- The loop, at the start of an element and in the middle of one.
pub clean_loop-Represents :
    (rooted : Bool) (p : CStr) (l : Place) (st : Cleaning)
    → Represents rooted l st
    → Represents rooted (enter_all rooted l ((split p).0 ∷ (split p).1)) (clean_loop rooted p 0 st)
      × Represents rooted
          (enter_all rooted l (split p).1)
          (clean_loop rooted p (length (split p).0) st)
unfolding clean_loop enter_all enter split
clean_loop-Represents rooted [] l st r = (r, r)
clean_loop-Represents rooted (c ∷ p) l st r = elim (Bool-cases (c == b'/')) [
  | inl t ↦
      let (a, b) = clean_loop-Represents rooted p l st r in
      rw (split-slash c p t) (rw (clean_loop-slash rooted c p st t) (a, a))
  | inr f ↦
      let (n, r') = clean_step-Represents rooted c p l st f r in
      let (a, b) = clean_loop-Represents rooted p (enter rooted l (c ∷ (split p).0)) _ r' in
      let (a', b') = clean_loop-Represents rooted p l st r in
      rw (split-element c p f) (
        subst
            (λ k.
              Represents rooted (enter_all rooted (enter rooted l (c ∷ (split p).0)) (split p).1)
                (clean_loop rooted p k ((clean_step rooted c p st).1)))
            (sym n) b,
        b',
      )
]
