-- ===== src/Walks.antt =====
-- How a walk over dependencies ends: with a value, with NULL for a missing dependency, by an abort,
-- or out of fuel.
use xbps.Common.{Run, ret, abort, ◌≡◌, refl}

pub data Walk {ℓ} (A : Type ℓ) : Type ℓ where
  done : A → Walk A
  missing aborted starved : Walk A

infixl 5 ◌>>=◌
abbrev pub ◌>>=◌ {ℓ κ} : {A : Type ℓ} {B : Type κ} → Walk A → (A → Walk B) → Walk B
done a >>= f = f a
missing >>= f = missing
aborted >>= f = aborted
starved >>= f = starved

abbrev pub from_run {ℓ} : {A : Type ℓ} → Run A → Walk A
from_run (ret a) = done a
from_run abort = aborted

-- The walk ends with a value, which satisfies the postcondition.
pub data Reaches {ℓ κ} {A : Type ℓ} (P : A → Type κ) : Walk A → Type (ℓ ⊔ κ) where
  reached : {a : A} → P a → Reaches P (done a)

pub Reaches-bind {ℓ κ μ ν} :
    {A : Type ℓ} {B : Type κ} {P : A → Type μ} {Q : B → Type ν} {m : Walk A} {f : A → Walk B}
    → Reaches P m
    → ((a : A) → P a → Reaches Q (f a))
    → Reaches Q (m >>= f)
Reaches-bind (reached {a} p) k = k a p

pub Reaches-map {ℓ κ μ} :
    {A : Type ℓ} {P : A → Type κ} {Q : A → Type μ} {m : Walk A}
    → Reaches P m
    → ((a : A) → P a → Q a)
    → Reaches Q m
Reaches-map (reached {a} p) k = reached (k a p)

pub Reaches-done {ℓ κ} :
    {A : Type ℓ} {P : A → Type κ} {m : Walk A} → Reaches P m → (a : A) × (m ≡ done a) × P a
Reaches-done (reached {a} p) = (a, refl, p)
