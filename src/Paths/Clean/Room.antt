-- ===== src/Paths/Clean/Room.antt =====
-- xbps_path_clean works in place: between any two rounds it has written no more than the path.
use xbps.Common.{
  ℕ, suc, ◌+◌, ◌≤◌, ◌<◌, Bool, true, false, [], ◌∷◌, ◌≡◌, ◌⊎◌, refl, ap, ◌==◌, CStr, length,
  if◌then◌else◌, arith, Bool-cases, inl, inr,
}
use xbps.Paths.Clean.{Cleaning, clean_step, clean_loop, is_rooted, cleaned, path_clean, backwards}
use xbps.Paths.Clean.Canonical.{split}
use xbps.Paths.Clean.Steps.{slash_after, length-slash_after}
use xbps.Paths.Clean.Loop.{split-slash, split-element}
use xbps.Paths.Clean.Fits.{clean_step-length, path_clean-length}

-- A point that the loop passes, on its way over a path: the bytes that are left, how many of them
-- it has gone over, and the state.
pub data Passes (dst : CStr) : Bool → CStr → ℕ → Cleaning → Type 0 where
  from_root :
      {p : CStr}
      → is_rooted dst ≡ true
      → dst ≡ b'/' ∷ p
      → Passes dst true p 0 (record { out = b'/' ∷ []; dotdot = 1 })
  from_start : is_rooted dst ≡ false → Passes dst false dst 0 (record { out = []; dotdot = 0 })
  gone_over :
      {rooted : Bool} {c : ℕ} {p : CStr} {skip : ℕ} {st : Cleaning}
      → Passes dst rooted (c ∷ p) (suc skip) st
      → Passes dst rooted p skip st
  round :
      {rooted : Bool} {c : ℕ} {p : CStr} {st : Cleaning}
      → Passes dst rooted (c ∷ p) 0 st
      → Passes dst rooted p ((clean_step rooted c p st).0) ((clean_step rooted c p st).1)

-- What is written is no more than what was read: in front of an element with room for its slash,
-- and behind one while the rest of the element is gone over.
record Within (total : ℕ) (rooted : Bool) (p : CStr) (skip : ℕ) (st : Cleaning) : Type 0 where
  read : ℕ
  all : read + length p ≡ total
  room :
      ((skip ≡ 0) × (length (slash_after rooted st.out) ≤ read))
      ⊎ ((skip ≡ length (split p).0) × (length st.out ≤ read + length (split p).0))

module _ {total : ℕ} {rooted : Bool} {c : ℕ} {p : CStr} {st : Cleaning} where
  Within-gone_over :
      {skip : ℕ} → Within total rooted (c ∷ p) (suc skip) st → Within total rooted p skip st
  Within-gone_over w =
      let a = w.all in
      elim w.room [
        | inl (e, h) ↦ absurd (omega (arith, e))
        | inr (e, h) ↦ elim (Bool-cases (c == b'/')) [
          | inl t ↦ absurd (let d = ap (λ q. length q.0) (split-slash c p t) in omega (arith, d, e))
          | inr f ↦
              let d = ap (λ q. length q.0) (split-element c p f) in
              record {
                read = w.read + 1;
                all = omega (arith, a);
                room = inr (omega (arith, d, e), omega (arith, d, h));
              }
        ]
      ]

  Within-round :
      Within total rooted (c ∷ p) 0 st
      → Within total rooted p ((clean_step rooted c p st).0) ((clean_step rooted c p st).1)
  unfolding clean_step
  Within-round w =
      let a = w.all in
      elim (Bool-cases (c == b'/')) [
        | inl t ↦
            let same : clean_step rooted c p st ≡ (0, st) = ground (arith, t) in
            let d = ap (λ q. length q.0) (split-slash c p t) in
            let s = length-slash_after rooted st.out in
            rw same (record {
              read = w.read + 1;
              all = omega (arith, a);
              room = inl (
                refl,
                elim w.room [
                  | inl (e, h) ↦ omega (arith, h)
                  | inr (e, h) ↦ ground (arith, d, h, s)
                ],
              );
            })
        | inr f ↦
            let d = ap (λ q. length q.0) (split-element c p f) in
            let (n, l) = clean_step-length rooted c p st f in
            record {
              read = w.read + 1;
              all = omega (arith, a);
              room = inr (
                n,
                elim w.room [
                  | inl (e, h) ↦ omega (arith, h, l)
                  | inr (e, h) ↦ absurd (omega (arith, d, e))
                ],
              );
            }
      ]

Passes-Within :
    {dst : CStr} {rooted : Bool} {p : CStr} {skip : ℕ} {st : Cleaning}
    → Passes dst rooted p skip st
    → Within (length dst) rooted p skip st
Passes-Within (from_root r e) = record {
  read = 1;
  all = (let l = ap length e in omega (arith, l));
  room = inl (refl, omega arith);
}
Passes-Within (from_start r) = record {
  read = 0;
  all = omega arith;
  room = inl (refl, omega arith);
}
Passes-Within (gone_over w) = Within-gone_over (Passes-Within w)
Passes-Within (round w) = Within-round (Passes-Within w)

split-length : (p : CStr) → length (split p).0 ≤ length p
unfolding split
split-length [] = omega arith
split-length (c ∷ p) = ground (arith, split-length p)

Within-length :
    {total : ℕ} {rooted : Bool} {p : CStr} {skip : ℕ} {st : Cleaning}
    → Within total rooted p skip st
    → length st.out ≤ total
Within-length {rooted = rooted} {p = p} {st = st} w =
    let a = w.all in
    let s = slash_above rooted st.out in
    let l = split-length p in
    elim w.room [ inl (e, h) ↦ omega (arith, a, h, s) | inr (e, h) ↦ omega (arith, a, h, l) ]
  where
    slash_above : (rooted : Bool) (out : CStr) → length out ≤ length (slash_after rooted out)
    slash_above rooted out = ground arith

-- What the end of xbps_path_clean makes of the bytes written.
abbrev pub ended : Cleaning → CStr
ended st = if length st.out == 0 then b'.' ∷ [] else backwards st.out

Passes-ended :
    {dst : CStr} {rooted : Bool} {p : CStr} {skip : ℕ} {st : Cleaning}
    → Passes dst rooted p skip st
    → cleaned dst ≡ ended (clean_loop rooted p skip st)
unfolding cleaned clean_loop
Passes-ended (from_root r e) = ground (arith, r, e)
Passes-ended (from_start r) = ground (arith, r)
Passes-ended (gone_over w) = Passes-ended w
Passes-ended (round w) = Passes-ended w

-- A path that is not empty is replaced by one that is not longer; and at each point that the loop
-- passes between two rounds, from which it goes on to this result, no more bytes are written than
-- the path has.
pub path_clean-Passes :
    (dst : CStr) {rooted : Bool} {p : CStr} {skip : ℕ} {st : Cleaning}
    → 0 < length dst
    → Passes dst rooted p skip st
    → (length ((path_clean dst).dst) ≤ length dst)
      × (length st.out ≤ length dst)
      × (cleaned dst ≡ ended (clean_loop rooted p skip st))
path_clean-Passes dst h w =
    (path_clean-length dst h, Within-length (Passes-Within w), Passes-ended w)
