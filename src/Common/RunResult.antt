-- ===== src/Common/RunResult.antt =====
-- Code that may end the process by `abort()` or a failed assertion.
use mathlib.Core.Path.{◌≡◌, refl}

pub data Run {ℓ} (A : Type ℓ) : Type ℓ where
  ret : A → Run A
  abort : Run A

infixl 5 ◌>>=◌
abbrev pub ◌>>=◌ {ℓ κ} : {A : Type ℓ} {B : Type κ} → Run A → (A → Run B) → Run B
ret a >>= f = f a
abort >>= f = abort

pub >>=-ret {ℓ κ} :
    {A : Type ℓ} {B : Type κ} (m : Run A) (f : A → Run B) {b : B}
    → (m >>= f) ≡ ret b
    → (a : A) × (m ≡ ret a) × (f a ≡ ret b)
>>=-ret (ret a) f h = (a, refl, h)
>>=-ret abort f h = absurd (cc)
