-- ===== src/Paths/Clean/Steps.antt =====
-- What the rounds of the loop do to the bytes written: they go along with the elements.
use xbps.Common.{
  ℕ, zero, suc, ◌+◌, ◌≤◌, ◌<◌, Bool, false, List, [], ◌∷◌, ◌++◌, ◌≡◌, refl, sym, ap, ◌∙◌,
  if◌then◌else◌, ltb, ◌==◌, CStr, length, All, length-append, append_assoc, arith, Bool-cases, inl,
  inr,
}
use xbps.Paths.Clean.{Cleaning, back_loop, backtrack, copy}
use xbps.Paths.Clean.Canonical.{Place}

-- The bytes of a path as they are written, in reverse.
abbrev pub slash_after : Bool → CStr → CStr
slash_after rooted out = if ltb (if rooted then 1 else 0) (length out) then b'/' ∷ out else out

unfoldable pub written_up : Bool → ℕ → CStr
written_up rooted zero = if rooted then b'/' ∷ [] else []
written_up rooted (suc n) = b'.' ∷ b'.' ∷ slash_after rooted (written_up rooted n)

unfoldable pub written : Bool → ℕ → List CStr → CStr
written rooted ups [] = written_up rooted ups
written rooted ups (x ∷ names) = copy x (slash_after rooted (written rooted ups names))

abbrev pub NoSlash : CStr → Type 0
NoSlash = All (λ c. (c == b'/') ≡ false)

-- A name has a byte, and no slash.
pub record IsName (x : CStr) : Type 0 where
  pub some_byte : 0 < length x
  pub no_slash : NoSlash x

-- The state is where the elements lead.
pub record Represents (rooted : Bool) (l : Place) (st : Cleaning) : Type 0 where
  pub names : All IsName l.names
  pub is_out : st.out ≡ written rooted l.ups l.names
  pub is_dotdot : st.dotdot ≡ length (written_up rooted l.ups)

copy-append : (x out : CStr) → NoSlash x → copy x out ≡ copy x [] ++ out
unfolding copy
copy-append [] out h = refl
copy-append (c ∷ x) out h =
    let a = copy-append x (c ∷ out) h.1 in
    let b = copy-append x (c ∷ []) h.1 in
    let d = append_assoc (copy x []) (c ∷ []) out in
    let e = h.0 in rw (e) (a ∙ sym d ∙ ap (λ w. w ++ out) (sym b))

NoSlash-append : (a b : CStr) → NoSlash a → NoSlash b → NoSlash (a ++ b)
NoSlash-append [] b h k = k
NoSlash-append (x ∷ a) b h k = (h.0, NoSlash-append a b h.1 k)

NoSlash-copy : (x : CStr) → NoSlash x → NoSlash (copy x [])
unfolding copy
NoSlash-copy [] h = tt
NoSlash-copy (c ∷ x) h =
    let b = copy-append x (c ∷ []) h.1 in
    let e = h.0 in
    rw (e) (rw (b) (NoSlash-append (copy x []) (c ∷ []) (NoSlash-copy x h.1) (e, tt)))

pub length-copy : (x out : CStr) → NoSlash x → length (copy x out) ≡ length x + length out
unfolding copy
length-copy [] out h = omega arith
length-copy (c ∷ x) out h =
    let e = h.0 in let a = length-copy x (c ∷ out) h.1 in ground (arith, a, e)

-- Going back over the bytes of a name, to what was written before it.
back_over :
    (k y : ℕ) (ys o : CStr)
    → (y == b'/') ≡ false
    → NoSlash ys
    → k ≤ length o
    → back_loop k y (ys ++ b'/' ∷ o) ≡ o
unfolding back_loop
back_over k y [] [] h ns l = ground arith
back_over k y [] (z ∷ o) h ns l = ground arith
back_over k y (z ∷ ys) o h ns l =
    let e = length-append ys (b'/' ∷ o) in
    let r = back_over k z ys o ns.0 ns.1 l in ground (arith, e, r)

back_over_first :
    (k y : ℕ) (ys o : CStr)
    → (y == b'/') ≡ false
    → NoSlash ys
    → k ≡ length o
    → back_loop k y (ys ++ o) ≡ o
unfolding back_loop
back_over_first k y [] [] h ns l = refl
back_over_first k y [] (z ∷ o) h ns l = ground arith
back_over_first k y (z ∷ ys) o h ns l =
    let e = length-append ys o in
    let r = back_over_first k z ys o ns.0 ns.1 l in ground (arith, e, r)

pub length-slash_after : (rooted : Bool) (o : CStr) → length o ≤ length (slash_after rooted o)
length-slash_after rooted o = ground arith

pub length-written :
    (rooted : Bool) (ups : ℕ) (names : List CStr)
    → All IsName names
    → length (written_up rooted ups) ≤ length (written rooted ups names)
unfolding written
length-written rooted ups [] h = omega arith
length-written rooted ups (x ∷ names) h =
    let a = length-copy x (slash_after rooted (written rooted ups names)) (h.0.no_slash) in
    let b = length-slash_after rooted (written rooted ups names) in
    let c = length-written rooted ups names h.1 in omega (arith, a, b, c)

length-written_up :
    (rooted : Bool) (ups : ℕ) → (if rooted then 1 else 0) ≤ length (written_up rooted ups)
unfolding written_up
length-written_up rooted zero = ground arith
length-written_up rooted (suc n) = ground (arith, length-written_up rooted n)

-- The last name is gone over, and the slash before it.
pub backtrack-written :
    (rooted : Bool) (ups : ℕ) (x : CStr) (names : List CStr)
    → IsName x
    → All IsName names
    → backtrack (length (written_up rooted ups)) (written rooted ups (x ∷ names))
      ≡ written rooted ups names
unfolding written backtrack
backtrack-written rooted ups x names hx h =
    let o = written rooted ups names in
    let a = copy-append x (slash_after rooted o) hx.no_slash in
    let n = NoSlash-copy x hx.no_slash in
    let m = length-copy x [] hx.no_slash in
    let pos = hx.some_byte in rw (a) (go (copy x []) n (omega arith))
  where
    go :
        (w : CStr)
        → NoSlash w
        → 0 < length w
        → backtrack
            (length (written_up rooted ups))
            (w ++ slash_after rooted (written rooted ups names))
          ≡ written rooted ups names
    go [] n l = absurd (omega arith)
    go (y ∷ ys) n l =
        let k = length (written_up rooted ups) in
        let o = written rooted ups names in
        let b = length-written rooted ups names h in
        let c = length-written_up rooted ups in
        elim (Bool-cases (ltb (if rooted then 1 else 0) (length o))) [
          | inl t ↦ rw (t) (back_over k y ys o n.0 n.1 b)
          | inr f ↦ rw (f) (back_over_first k y ys o n.0 n.1 (ground (arith, b, c, f)))
        ]
