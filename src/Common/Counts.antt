-- ===== src/Common/Counts.antt =====
-- How many elements of a list pass a test.
use Prim.Native.Nat.{ℕ, suc, ◌≤◌, ◌<◌}
use mathlib.Core.Path.{◌≡◌}
use mathlib.Core.Logic.{inl, inr}
use mathlib.Core.Bool.{Bool, true, false}
use mathlib.Core.List.{List, [], ◌∷◌}
use native.Mathlib.Omega.{arith}
use xbps.Common.Tests.{if◌then◌else◌, Bool-cases}
use xbps.Common.Lists.{length, In, here, there}

module _ {ℓ} {A : Type ℓ} where
  pub count_if : (A → Bool) → List A → ℕ
  count_if p [] = 0
  count_if p (x ∷ xs) = let rest = count_if p xs in if p x then suc rest else rest

  pub count_if-le-length : (p : A → Bool) (xs : List A) → count_if p xs ≤ length xs
  unfolding count_if
  count_if-le-length p [] = omega arith
  count_if-le-length p (x ∷ xs) = ground (arith, count_if-le-length p xs)

  module _ (p q : A → Bool) (weaker : (a : A) → p a ≡ true → q a ≡ true) where
    pub count_if-le : (xs : List A) → count_if p xs ≤ count_if q xs
    unfolding count_if
    count_if-le [] = omega arith
    count_if-le (x ∷ xs) = elim (Bool-cases (p x)) [
      | inl t ↦ ground (arith, t, weaker x t, count_if-le xs)
      | inr f ↦ ground (arith, f, count_if-le xs)
    ]

    -- An element that passes only the weaker test.
    pub count_if-lt :
        (a : A) (xs : List A) → In a xs → p a ≡ false → q a ≡ true → count_if p xs < count_if q xs
    unfolding count_if
    count_if-lt a [] i f t = elim i [ ]
    count_if-lt a (_ ∷ xs) here f t = ground (arith, f, t, count_if-le xs)
    count_if-lt a (x ∷ xs) (there i) f t = elim (Bool-cases (p x)) [
      | inl u ↦ ground (arith, u, weaker x u, count_if-lt a xs i f t)
      | inr u ↦ ground (arith, u, count_if-lt a xs i f t)
    ]
