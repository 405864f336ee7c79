-- ===== src/Common/Int.antt =====
-- C integers that may be negative: `negsuc n` is -(n + 1).
use Prim.Native.Nat.{ℕ}
use mathlib.Core.Bool.{Bool, true, false}

pub data ℤ : Type 0 where
  pos : ℕ → ℤ
  negsuc : ℕ → ℤ

-- C's truth of an `int`: anything but 0.
abbrev pub truthy : ℤ → Bool
truthy (pos ℕ.zero) = false
truthy (pos (ℕ.suc n)) = true
truthy (negsuc n) = true
