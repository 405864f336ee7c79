-- ===== src/Paths/Clean/Fits.antt =====
-- xbps_path_clean works in place: what it writes is no longer than what was there.
use xbps.Common.{
  ℕ, suc, ◌+◌, ◌≤◌, ◌<◌, Bool, true, false, [], ◌∷◌, ◌≡◌, refl, sym, ap, subst, ◌==◌, CStr, length,
  streq, streq_iff, arith, Bool-cases, inl, inr,
}
use xbps.Paths.Clean.{
  Cleaning, dot_at_end, backtrack, go_up, add_element, clean_step, clean_loop, is_rooted, cleaned,
  path_clean,
}
use xbps.Paths.Clean.Canonical.{split}
use xbps.Paths.Clean.Steps.{slash_after, length-copy, length-slash_after}
use xbps.Paths.Clean.Loop.{split-slash}
use xbps.Paths.Clean.{back_loop}
use xbps.Paths.Clean.Cleaned.{length-backwards}
use xbps.Paths.Clean.Loop.{
  copied-split, dot_at_end-split, at_end-split, copy-element, split-element, clean_loop-slash,
  NoSlash-split,
}

back_loop-length : (k c : ℕ) (out : CStr) → length (back_loop k c out) ≤ length out
unfolding back_loop
back_loop-length k c [] = omega arith
back_loop-length k c (x ∷ out) = ground (arith, back_loop-length k x out)

go_up-length :
    (rooted : Bool) (st : Cleaning)
    → length ((go_up rooted st).out) ≤ length (slash_after rooted st.out) + 2
unfolding go_up backtrack
go_up-length rooted st = go (st.out) refl
  where
    go :
        (out : CStr)
        → st.out ≡ out
        → length ((go_up rooted st).out) ≤ length (slash_after rooted st.out) + 2
    go [] e = ground (arith, e)
    go (c ∷ out) e = ground (arith, e, back_loop-length st.dotdot c out)

-- What one element adds: its bytes, and the slash before them.
pub clean_step-length :
    (rooted : Bool) (c : ℕ) (p : CStr) (st : Cleaning)
    → (c == b'/') ≡ false
    → ((clean_step rooted c p st).0 ≡ length (split p).0)
      × (length ((clean_step rooted c p st).1.out)
          ≤ length (slash_after rooted st.out) + suc (length (split p).0))
unfolding clean_step dot_at_end add_element streq
clean_step-length rooted c p st f =
    let x = (split p).0 in
    let a = at_end-split p in
    let b = dot_at_end-split p in
    let s = length-slash_after rooted st.out in
    elim (Bool-cases (streq (c ∷ x) (b'.' ∷ []))) [
      | inl t ↦
          let n = ap length ((streq_iff (c ∷ x) (b'.' ∷ [])).0 t) in
          (ground (arith, a, t, f, n), ground (arith, a, t, f, s))
      | inr g ↦ elim (Bool-cases (streq (c ∷ x) (b'.' ∷ b'.' ∷ []))) [
        | inl t ↦
            let n = ap length ((streq_iff (c ∷ x) (b'.' ∷ b'.' ∷ [])).0 t) in
            let u = go_up-length rooted st in
            (ground (arith, a, b, t, g, f, n), ground (arith, a, b, t, g, f, n, u))
        | inr h ↦
            let w = slash_after rooted st.out in
            let e = ap length (copy-element c p w f) in
            let l = length-copy (c ∷ x) w (f, NoSlash-split p) in
            let k = copied-split p in
            (ground (arith, a, b, h, g, f, k), ground (arith, a, b, h, g, f, e, l))
      ]
    ]

clean_loop-length :
    (rooted : Bool) (p : CStr) (st : Cleaning) (read : ℕ)
    → (length (slash_after rooted st.out) ≤ read
        → length ((clean_loop rooted p 0 st).out) ≤ read + length p)
      × (length st.out ≤ read + length (split p).0
          → length ((clean_loop rooted p (length (split p).0) st).out) ≤ read + length p)
unfolding clean_loop split
clean_loop-length rooted [] st read =
    let s = length-slash_after rooted st.out in ((λ h. omega (arith, s, h)), (λ h. h))
clean_loop-length rooted (c ∷ p) st read = elim (Bool-cases (c == b'/')) [
  | inl t ↦
      let e = ap length (ap (λ st. st.out) (clean_loop-slash rooted c p st t)) in
      let d = ap (λ q. length q.0) (split-slash c p t) in
      let (a, b) = clean_loop-length rooted p st (read + 1) in
      (
        (λ h. at_slash e (a (omega (arith, h)))),
        (λ h. rw (split-slash c p t) (at_slash e (a (ground (arith, h, d))))),
      )
  | inr f ↦
      let (n, l) = clean_step-length rooted c p st f in
      let (a, b) = clean_loop-length rooted p ((clean_step rooted c p st).1) (read + 1) in
      let (a', b') = clean_loop-length rooted p st (read + 1) in
      let d = ap (λ q. length q.0) (split-element c p f) in
      (
        (λ h.
            subst
              (λ k.
                length ((clean_loop rooted p k ((clean_step rooted c p st).1)).out)
                ≤ read + suc (length p))
              (sym n) (let r = b (omega (arith, h, l)) in omega (arith, r))),
        (λ h. rw (split-element c p f) (let r = b' (omega (arith, h, d)) in omega (arith, r))),
      )
]
  where
    at_slash :
        length ((clean_loop rooted (c ∷ p) 0 st).out) ≡ length ((clean_loop rooted p 0 st).out)
        → length ((clean_loop rooted p 0 st).out) ≤ read + 1 + length p
        → length ((clean_loop rooted (c ∷ p) 0 st).out) ≤ read + suc (length p)
    at_slash e h = omega (arith, e, h)

cleaned-length : (dst : CStr) → 0 < length dst → length (cleaned dst) ≤ length dst
unfolding cleaned is_rooted
cleaned-length [] h = absurd (omega arith)
cleaned-length (c ∷ s) h =
    let a = (clean_loop-length true s (record { out = b'/' ∷ []; dotdot = 1 }) 1).0 (omega arith) in
    let b = (clean_loop-length false (c ∷ s) (record { out = []; dotdot = 0 }) 0).0 (omega arith) in
    elim (Bool-cases (c == b'/')) [
      | inl t ↦
          let r =
            length-backwards ((clean_loop true s 0 (record { out = b'/' ∷ []; dotdot = 1 })).out) in
          ground (arith, t, a, r)
      | inr f ↦
          let r =
            length-backwards ((clean_loop false (c ∷ s) 0 (record { out = []; dotdot = 0 })).out) in
          ground (arith, f, b, r)
    ]

-- A path that is not empty is replaced by one that is not longer.
pub path_clean-length : (dst : CStr) → 0 < length dst → length ((path_clean dst).dst) ≤ length dst
unfolding path_clean
path_clean-length dst h = let e = cleaned-length dst h in ground (arith, e)
