-- ===== src/Common/Lists.antt =====
-- Lists measured by native numbers, under the library's names, and predicates on their elements.
use Prim.Native.Nat.{ℕ, zero, suc, ◌+◌}
use mathlib.Core.Path.{◌≡◌, refl, ap}
use mathlib.Core.Logic.{◌⊎◌, inl, inr}
use mathlib.Core.Bool.{Bool, false, ◌||◌}
use mathlib.Core.List.{List, [], ◌∷◌, ◌++◌}
use native.Mathlib.Omega.{arith}

module _ {ℓ} {A : Type ℓ} where
  abbrev pub length : List A → ℕ
  length [] = 0
  length (x ∷ xs) = suc (length xs)

  abbrev pub take : ℕ → List A → List A
  take zero xs = []
  take (suc n) [] = []
  take (suc n) (x ∷ xs) = x ∷ take n xs

  abbrev pub drop : ℕ → List A → List A
  drop zero xs = xs
  drop (suc n) [] = []
  drop (suc n) (x ∷ xs) = drop n xs

  pub length-append : (xs ys : List A) → length (xs ++ ys) ≡ length xs + length ys
  length-append [] ys = omega arith
  length-append (x ∷ xs) ys = omega (arith, length-append xs ys)

  pub take-append : (xs ys : List A) → take (length xs) (xs ++ ys) ≡ xs
  take-append [] ys = refl
  take-append (x ∷ xs) ys = ap (◌∷◌ x) (take-append xs ys)

  pub drop-append : (xs ys : List A) → drop (length xs) (xs ++ ys) ≡ ys
  drop-append [] ys = refl
  drop-append (x ∷ xs) ys = drop-append xs ys

  -- What follows a split point of known length: `take` cuts it off.
  pub take-length-append : (n : ℕ) (xs ys : List A) → n ≡ length xs → take n (xs ++ ys) ≡ xs
  take-length-append zero [] ys e = refl
  take-length-append zero (x ∷ xs) ys e = absurd (omega arith)
  take-length-append (suc n) [] ys e = absurd (omega arith)
  take-length-append (suc n) (x ∷ xs) ys e = ap (◌∷◌ x) (take-length-append n xs ys (omega arith))

  -- Every element, some element, and a Boolean search that stops at the first hit.
  abbrev pub All {κ} : (A → Type κ) → List A → Type κ
  All P [] = Unit
  All P (x ∷ xs) = P x × All P xs

  unfoldable pub any : (A → Bool) → List A → Bool
  any p [] = false
  any p (x ∷ xs) = p x || any p xs

-- The element stands in the list.
pub data In {ℓ} {A : Type ℓ} (a : A) : List A → Type ℓ where
  here : {xs : List A} → In a (a ∷ xs)
  there : {x : A} {xs : List A} → In a xs → In a (x ∷ xs)

pub All-In {ℓ κ} : {A : Type ℓ} (P : A → Type κ) {a : A} {xs : List A} → In a xs → All P xs → P a
All-In P here all = all.0
All-In P (there i) all = All-In P i all.1

pub All-of_In {ℓ κ} :
    {A : Type ℓ} (P : A → Type κ) (xs : List A) → ((a : A) → In a xs → P a) → All P xs
All-of_In P [] h = tt
All-of_In P (x ∷ xs) h = (h x here, All-of_In P xs (λ a i. h a (there i)))

pub All-concat {ℓ κ} :
    {A : Type ℓ} (P : A → Type κ) (xs : List A) (a : A) → All P xs → P a → All P (xs ++ a ∷ [])
All-concat P [] a all h = (h, tt)
All-concat P (x ∷ xs) a all h = (all.0, All-concat P xs a all.1 h)

pub In-append_left {ℓ} :
    {A : Type ℓ} {a : A} {xs : List A} (ys : List A) → In a xs → In a (xs ++ ys)
In-append_left ys here = here
In-append_left ys (there i) = there (In-append_left ys i)

pub In-last {ℓ} : {A : Type ℓ} (xs : List A) (a : A) → In a (xs ++ a ∷ [])
In-last [] a = here
In-last (x ∷ xs) a = there (In-last xs a)

pub In-concat {ℓ} : {A : Type ℓ} {a b : A} (xs : List A) → In a (xs ++ b ∷ []) → In a xs ⊎ (a ≡ b)
In-concat [] here = inr refl
In-concat [] (there i) = elim i [ ]
In-concat (x ∷ xs) here = inl here
In-concat (x ∷ xs) (there i) = elim (In-concat xs i) [ inl j ↦ inl (there j) | inr e ↦ inr e ]
