-- ===== src/Util/Pattern/Names.antt =====
-- xbps_pkgpattern_name: the package name in front of a pattern.
use xbps.Common.{
  ℕ, ◌+◌, ◌-◌, ◌%◌, ◌<◌, none, some, [], ◌∷◌, ◌++◌, ◌≡◌, ◌≢◌, refl, ap, sym, ◌∙◌, ◌⊎◌, inl, inr,
  if◌then◌else◌, ltb, ◌==◌, CStr, strpbrk, length, take, arith, append_assoc, length-append,
  take-length-append, Breaks, strpbrk-Breaks, strpbrk-init, Option-cases, Bool-cases,
}
use xbps.Util.Pattern.{
  size_mod, pattern_chars, byte_at, pattern_name_at, pkgpattern_name, pkgpattern_version,
}

-- A list is empty or has a last element.
snoc-cases : (s : CStr) → (s ≡ []) ⊎ ((init : CStr) × (last : ℕ) × (s ≡ init ++ last ∷ []))
snoc-cases [] = inl refl
snoc-cases (x ∷ s) = elim (snoc-cases s) [
  | inl e ↦ inr ([], x, ap (◌∷◌ x) e)
  | inr (init, last, e) ↦ inr (x ∷ init, last, ap (◌∷◌ x) e)
]

byte_at-append : (init : CStr) (x : ℕ) (r : CStr) → byte_at (init ++ x ∷ r) (length init) ≡ x
unfolding byte_at
byte_at-append [] x r = refl
byte_at-append (y ∷ init) x r = byte_at-append init x r

-- The offset behind `init` and one more byte, computed with no wrap-around.
pattern_name_at-append :
    (len : ℕ) (init : CStr) (x : ℕ) (r : CStr)
    → length (init ++ x ∷ r) + 1 < size_mod
    → pattern_name_at len (init ++ x ∷ r) (length init + 1) ≡ (
        if x == b'-'
        then (if ltb len (length init + 1) then none else some init)
        else (if ltb len (length init + 2) then none else some (init ++ x ∷ [])))
unfolding pattern_name_at
pattern_name_at-append len init x r h =
    let n = length-append init (x ∷ r) in
    let back : (length init + 1 + 1 + size_mod - 2) % size_mod ≡ length init = omega arith in
    let cut : take (length init + 1 + 1 - 1 - 1) (init ++ x ∷ r) ≡ init =
      take-length-append _ init (x ∷ r) (omega arith) in
    let all : take (length init + 1 + 1 - 1) (init ++ x ∷ r) ≡ init ++ x ∷ [] =
      rw (← append_assoc init (x ∷ []) r)
        (take-length-append _ (init ++ x ∷ []) r (omega (arith, length-append init (x ∷ [])))) in
    rw (back, byte_at-append init x r) (ground (arith, n, cut, all))

pattern_name_at_start :
    (len : ℕ) (r : CStr) → length r + 1 < size_mod → pattern_name_at len r 0 ≡ none
unfolding pattern_name_at
pattern_name_at_start len r h = ground arith

-- What stands behind the name: the first pattern byte, or a `-` and then the first pattern byte.
pub data Tail (pkg rest : CStr) : Type 0 where
  pattern : pkgpattern_version pkg ≡ some rest → Tail pkg rest
  dash_pattern : (r : CStr) → rest ≡ b'-' ∷ r → pkgpattern_version pkg ≡ some r → Tail pkg rest

-- A name that xbps_pkgpattern_name returns: the start of the pattern, with no pattern byte in it,
-- that fits the buffer.
pub record NameOf (len : ℕ) (pkg name : CStr) : Type 0 where
  pub rest : CStr
  pub splits : pkg ≡ name ++ rest
  pub tail : Tail pkg rest
  pub plain : pkgpattern_version name ≡ none
  pub fits : length name < len

module _ (len : ℕ) (pkg : CStr) {name r : CStr} (found : strpbrk pkg pattern_chars ≡ some r)
    (small : length pkg + 1 < size_mod) (h : pkgpattern_name len pkg ≡ some name) where
  at_offset : pattern_name_at len pkg (length pkg - length r) ≡ some name
  unfolding pkgpattern_name
  at_offset = ground arith

  offset_of : (before : CStr) → pkg ≡ before ++ r → length pkg - length r ≡ length before
  offset_of before e = omega (arith, ap (length {0}) e, length-append before r)

  -- With nothing in front of the first pattern byte there is no name.
  not_at_start : pkg ≢ r
  not_at_start e =
      let at : length pkg - length r ≡ 0 = omega (arith, ap (length {0}) e) in
      ground (arith, at_offset, at, pattern_name_at_start len pkg small)

  NameOf-split :
      (init : CStr) (last : ℕ)
      → pkg ≡ init ++ last ∷ r
      → strpbrk (init ++ last ∷ []) pattern_chars ≡ none
      → NameOf len pkg name
  unfolding pkgpattern_version
  NameOf-split init last e clean = elim (Bool-cases (last == b'-')) [
    | inl dash ↦
        let eq : init ≡ name = ground (arith, at_offset, offset, opened) in
        record {
          rest = last ∷ r;
          splits = rw (← eq) e;
          tail = dash_pattern r (ground arith) found;
          plain = rw (← eq) (strpbrk-init init (last ∷ []) pattern_chars clean);
          fits = ground (arith, at_offset, offset, opened);
        }
    | inr other ↦
        let eq : init ++ last ∷ [] ≡ name = ground (arith, at_offset, offset, opened) in
        record {
          rest = r;
          splits = rw (← eq) whole;
          tail = pattern found;
          plain = rw (← eq) clean;
          fits = ground (arith, at_offset, offset, opened, length-append init (last ∷ []));
        }
  ]
    where
      whole : pkg ≡ (init ++ last ∷ []) ++ r
      whole = e ∙ sym (append_assoc init (last ∷ []) r)

      offset : length pkg - length r ≡ length init + 1
      offset = omega (arith, offset_of (init ++ last ∷ []) whole, length-append init (last ∷ []))

      opened : pattern_name_at len pkg (length init + 1) ≡ (
          if last == b'-'
          then (if ltb len (length init + 1) then none else some init)
          else (if ltb len (length init + 2) then none else some (init ++ last ∷ [])))
      opened = rw e (pattern_name_at-append len init last r (rw e at small))

  NameOf-found : NameOf len pkg name
  NameOf-found = elim (snoc-cases b.before) [
    | inl e ↦ absurd (not_at_start (rw e at b.splits))
    | inr (init, last, e) ↦
        NameOf-split init last (b.splits ∙ ap (λ t. t ++ r) e ∙ append_assoc init (last ∷ []) r)
          (rw e at b.clean)
  ]
    where
      b : Breaks pkg pattern_chars r
      b = strpbrk-Breaks pkg pattern_chars found

pkgpattern_name-none :
    (len : ℕ) (pkg : CStr) → strpbrk pkg pattern_chars ≡ none → pkgpattern_name len pkg ≡ none
unfolding pkgpattern_name
pkgpattern_name-none len pkg e = rw (e, pkgpattern_name)

-- For a string shorter than the address space, a name that xbps_pkgpattern_name returns is the
-- start of the pattern up to the first pattern byte, or up to a `-` in front of it; it holds no
-- pattern byte, and with its NUL it fits the buffer.
pub pkgpattern_name-NameOf :
    (len : ℕ) (pkg : CStr) {name : CStr}
    → length pkg + 1 < size_mod
    → pkgpattern_name len pkg ≡ some name
    → NameOf len pkg name
pkgpattern_name-NameOf len pkg small h = elim (Option-cases (strpbrk pkg pattern_chars)) [
  | inl e ↦ absurd (ground (arith, pkgpattern_name-none len pkg e))
  | inr (r, found) ↦ NameOf-found len pkg found small h
]
