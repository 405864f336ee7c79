-- ===== src/Paths/Joined.antt =====
-- What the functions on paths write: the joined path if it fits, and never past the buffer.
use xbps.Common.{
  ℕ, zero, suc, ◌+◌, ◌-◌, ◌^◌, ◌≤◌, ◌<◌, ◌&&◌, not, Option, none, some, [], ◌∷◌, ◌++◌, ◌≡◌, refl,
  ap, if◌then◌else◌, ltb, leb, CStr, length, take, length-append, arith, Bool-cases, inl, inr,
}
use xbps.Paths.{
  Written, strlcpy, strlcat, last_is, without_slash, path_append, path_prepend, fitting,
  prefix_length,
}

-- The path with a slash at its end.
unfoldable pub slashed : CStr → CStr
slashed a = if last_is b'/' a then a else a ++ b'/' ∷ []

-- One path below another: with one slash between them, and nothing for an empty path.
unfoldable pub below : CStr → CStr → CStr
below a [] = a
below [] (c ∷ b) = c ∷ b
below (x ∷ a) (c ∷ b) = slashed (x ∷ a) ++ without_slash (c ∷ b)

length-take : (n : ℕ) (xs : CStr) → length (take n xs) ≤ n
length-take zero xs = omega arith
length-take (suc n) [] = omega arith
length-take (suc n) (x ∷ xs) = omega (arith, length-take n xs)

pub take-all : (n : ℕ) (xs : CStr) → length xs ≤ n → take n xs ≡ xs
take-all zero [] h = refl
take-all zero (x ∷ xs) h = absurd (omega arith)
take-all (suc n) [] h = refl
take-all (suc n) (x ∷ xs) h = ap (◌∷◌ x) (take-all n xs (omega arith))

strlcat-fits :
    (dst src : CStr) (siz : ℕ)
    → length dst + length src < siz
    → strlcat dst src siz ≡ record { dst = dst ++ src; result = length dst + length src }
unfolding strlcat
strlcat-fits dst src siz h =
    let t = take-all (siz - length dst - 1) src (omega arith) in ground (arith, t)

pub length-slashed : (a : CStr) → length a ≤ length (slashed a)
unfolding slashed
length-slashed a = ground (arith, length-append a (b'/' ∷ []))

-- A path that is appended to one in a buffer: if both, with one slash between them, fit the buffer,
-- whose size is at most 2^63, the buffer has them in the end and their length is returned.
pub path_append-below :
    (dst suffix : CStr) (dstlen : ℕ)
    → length (below dst suffix) < dstlen
    → dstlen ≤ 2 ^ 63
    → path_append dst dstlen suffix
      ≡ record { dst = below dst suffix; result = some (length (below dst suffix)) }
unfolding path_append below strlcpy slashed
path_append-below dst [] dstlen h k = ground arith
path_append-below [] (c ∷ suffix) dstlen h k =
    let t = take-all (dstlen - 1) (c ∷ suffix) (omega arith) in ground (arith, t)
path_append-below (b ∷ dst) (c ∷ suffix) dstlen h k =
    let e = length-append (slashed (b ∷ dst)) (without_slash (c ∷ suffix)) in
    let f = length-append (b ∷ dst) (b'/' ∷ []) in
    let t = strlcat-fits (slashed (b ∷ dst)) (without_slash (c ∷ suffix)) dstlen (omega arith) in
    ground (arith, e, f, t)

-- The string in the buffer leaves room for the NUL, and a length that is returned is its length.
pub record Bounded (dstlen : ℕ) (w : Written (Option ℕ)) : Type 0 where
  pub room : length w.dst < dstlen
  pub exact : (n : ℕ) → w.result ≡ some n → n ≡ length w.dst

strlcat-room :
    (dst src : CStr) (siz : ℕ) → length dst < siz → length ((strlcat dst src siz).dst) < siz
unfolding strlcat
strlcat-room dst src siz h =
    let t = length-take (siz - length dst - 1) src in
    let e = length-append dst (take (siz - length dst - 1) src) in ground (arith, t, e)

strlcat-exact :
    (dst src : CStr) (siz : ℕ)
    → (strlcat dst src siz).result < siz
    → (strlcat dst src siz).result ≡ length ((strlcat dst src siz).dst)
unfolding strlcat
strlcat-exact dst src siz h =
    let t = take-all (siz - length dst - 1) src in
    let e = length-append dst src in ground (arith, t, e)

fitting-Bounded :
    (dstlen : ℕ) (w : Written ℕ)
    → length w.dst < dstlen
    → (w.result < dstlen → w.result ≡ length w.dst)
    → Bounded dstlen (fitting dstlen w)
fitting-Bounded dstlen w room h = record {
  room = room;
  exact = λ n e. elim (Bool-cases (leb dstlen w.result)) [
    | inl l ↦ absurd (ground (arith, l, e))
    | inr l ↦ let same = h (ground (arith, l)) in ground (arith, l, e, same)
  ];
}

-- Whatever is appended to a path that fits its buffer, nothing is written past the buffer; and where
-- a length is returned, it is that of the string in the buffer.
pub path_append-Bounded :
    (dst suffix : CStr) (dstlen : ℕ)
    → length dst < dstlen
    → Bounded dstlen (path_append dst dstlen suffix)
unfolding path_append strlcpy
path_append-Bounded dst [] dstlen h = record { room = h; exact = λ n e. ground (arith) }
path_append-Bounded [] (c ∷ suffix) dstlen h =
    let r = length-take (dstlen - 1) (c ∷ suffix) in
    let t = take-all (dstlen - 1) (c ∷ suffix) in
    fitting-Bounded dstlen (strlcpy [] (c ∷ suffix) dstlen) (ground (arith, r))
      (λ l. ground (arith, t))
path_append-Bounded (b ∷ dst) (c ∷ suffix) dstlen h =
    let a =
      if not (last_is b'/' (b ∷ dst)) && ltb (length (b ∷ dst) + 1) dstlen
      then (b ∷ dst) ++ b'/' ∷ []
      else b ∷ dst in
    let f = length-append (b ∷ dst) (b'/' ∷ []) in
    let room : length a < dstlen = ground (arith, f) in
    fitting-Bounded dstlen _ (strlcat-room a (without_slash (c ∷ suffix)) dstlen room)
      (strlcat-exact a (without_slash (c ∷ suffix)) dstlen)

-- One path in front of another, with one slash between them.
unfoldable pub above : CStr → CStr → CStr
above [] dst = dst
above (c ∷ prefix) [] = c ∷ prefix
above (c ∷ prefix) (b ∷ dst) =
    take (prefix_length (c ∷ prefix)) (c ∷ prefix) ++ b'/' ∷ without_slash (b ∷ dst)

prefix_length-bound : (prefix : CStr) → prefix_length prefix ≤ length prefix
prefix_length-bound prefix = ground arith

length-take_exact : (n : ℕ) (xs : CStr) → n ≤ length xs → length (take n xs) ≡ n
length-take_exact zero xs h = refl
length-take_exact (suc n) [] h = absurd (omega arith)
length-take_exact (suc n) (x ∷ xs) h = omega (arith, length-take_exact n xs (omega arith))

length-above :
    (c b : ℕ) (prefix dst : CStr)
    → length (above (c ∷ prefix) (b ∷ dst))
      ≡ length (without_slash (b ∷ dst)) + (prefix_length (c ∷ prefix) + 1)
unfolding above
length-above c b prefix dst =
    let p = take (prefix_length (c ∷ prefix)) (c ∷ prefix) in
    let e = length-append p (b'/' ∷ without_slash (b ∷ dst)) in
    let f =
      length-take_exact (prefix_length (c ∷ prefix)) (c ∷ prefix)
        (prefix_length-bound (c ∷ prefix)) in
    omega (arith, e, f)

-- A path that is prepended to one in a buffer of at most 2^63 bytes: if both, with one slash between
-- them, fit the buffer, it has them in the end and their length is returned; if not, -1 is
-- returned. Nothing is written past the buffer, if the path was in it before.
pub path_prepend-above :
    (dst prefix : CStr) (dstlen : ℕ)
    → length dst < dstlen
    → dstlen ≤ 2 ^ 63
    → ((path_prepend dst dstlen prefix).result ≡ (
        if ltb (length (above prefix dst)) dstlen then some (length (above prefix dst)) else none))
      × (length (above prefix dst) < dstlen
          → (path_prepend dst dstlen prefix).dst ≡ above prefix dst)
      × (length ((path_prepend dst dstlen prefix).dst) < dstlen)
unfolding path_prepend above strlcpy
path_prepend-above dst [] dstlen h k = (ground arith, (λ l. refl), h)
path_prepend-above [] (c ∷ prefix) dstlen h k =
    let r = length-take (dstlen - 1) (c ∷ prefix) in
    let t = take-all (dstlen - 1) (c ∷ prefix) in
    (ground arith, (λ l. ground (arith, t)), ground (arith, r))
path_prepend-above (b ∷ dst) (c ∷ prefix) dstlen h k =
    let e = length-above c b prefix dst in
    (ground (arith, e), (λ l. ground (arith, e)), ground (arith, e))
