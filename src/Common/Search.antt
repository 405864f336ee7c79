-- ===== src/Common/Search.antt =====
-- What the searches of <string.h> find: the split of the string at the byte found.
use mathlib.Core.List.{[], ◌∷◌, ◌++◌}
use mathlib.Core.Path.{◌≡◌, refl, ap}
use mathlib.Core.Logic.{inl, inr}
use mathlib.Core.Option.{none, some}
use native.Mathlib.Omega.{arith}
use Prim.Native.Nat.{ℕ}
use xbps.Common.Tests.{◌==◌, Bool-cases, Option-cases}
use xbps.Common.Bytes.{CStr, strchr, strrchr, strpbrk, in_set, Free, nil, cons}

-- The string splits at the byte `c`, with `r` the suffix that begins there.
pub record SplitAt (s : CStr) (c : ℕ) (r : CStr) : Type 0 where
  pub before : CStr
  pub after : CStr
  pub splits : s ≡ before ++ c ∷ after
  pub suffix : r ≡ c ∷ after

SplitAt-cons : (x : ℕ) {s : CStr} {c : ℕ} {r : CStr} → SplitAt s c r → SplitAt (x ∷ s) c r
SplitAt-cons x h = record {
  before = x ∷ h.before;
  after = h.after;
  splits = ap (◌∷◌ x) h.splits;
  suffix = h.suffix;
}

pub strrchr-none : (s : CStr) (c : ℕ) → strrchr s c ≡ none → Free c s
unfolding strrchr
strrchr-none [] c h = nil
strrchr-none (x ∷ s) c h = elim (Option-cases (strrchr s c)) [
  | inl e ↦ cons (ground arith) (strrchr-none s c e)
  | inr (r, e) ↦ absurd (ground arith)
]

-- The string splits at the last `c`: what follows is free of it.
pub strrchr-SplitAt :
    (s : CStr) (c : ℕ) {r : CStr} → strrchr s c ≡ some r → (p : SplitAt s c r) × Free c p.after
unfolding strrchr SplitAt-cons
strrchr-SplitAt [] c h = cc
strrchr-SplitAt (x ∷ s) c {r} h = elim (Option-cases (strrchr s c)) [
  | inl e ↦ (
    record { before = []; after = s; splits = ground arith; suffix = ground arith },
    strrchr-none s c e,
  )
  | inr (q, e) ↦
      let (p, free) = strrchr-SplitAt s c {r = r} (ground arith) in (SplitAt-cons x p, free)
]

pub strrchr-Free : {c : ℕ} {s : CStr} → Free c s → strrchr s c ≡ none
unfolding strrchr
strrchr-Free nil = refl
strrchr-Free (cons h f) = ground (arith, strrchr-Free f)

pub strrchr-append :
    (before : CStr) {c : ℕ} {after : CStr}
    → Free c after
    → strrchr (before ++ c ∷ after) c ≡ some (c ∷ after)
unfolding strrchr
strrchr-append [] f = ground (arith, strrchr-Free f)
strrchr-append (x ∷ before) f = rw (strrchr-append before f)

pub strchr-append :
    {c : ℕ} {before : CStr} (after : CStr)
    → Free c before
    → strchr (before ++ c ∷ after) c ≡ some (c ∷ after)
unfolding strchr
strchr-append after nil = ground arith
strchr-append after (cons h f) = ground (arith, strchr-append after f)

pub strchr-SplitAt : (s : CStr) (c : ℕ) {r : CStr} → strchr s c ≡ some r → SplitAt s c r
unfolding strchr
strchr-SplitAt [] c h = cc
strchr-SplitAt (x ∷ s) c {r} h = elim (Bool-cases (x == c)) [
  | inl e ↦ record { before = []; after = s; splits = ground arith; suffix = ground arith }
  | inr e ↦ SplitAt-cons x (strchr-SplitAt s c {r = r} (ground arith))
]

-- The string splits at the first byte of the set.
pub record Breaks (s set r : CStr) : Type 0 where
  pub before : CStr
  pub splits : s ≡ before ++ r
  pub clean : strpbrk before set ≡ none

pub strpbrk-Breaks : (s set : CStr) {r : CStr} → strpbrk s set ≡ some r → Breaks s set r
unfolding strpbrk
strpbrk-Breaks [] set h = cc
strpbrk-Breaks (x ∷ s) set {r} h = elim (Bool-cases (in_set set x)) [
  | inl e ↦ record { before = []; splits = ground arith; clean = refl }
  | inr e ↦
      let b = strpbrk-Breaks s set {r = r} (ground arith) in
      record {
        before = x ∷ b.before;
        splits = ap (◌∷◌ x) b.splits;
        clean = ground (arith, b.clean);
      }
]

pub strpbrk-init : (s t set : CStr) → strpbrk (s ++ t) set ≡ none → strpbrk s set ≡ none
unfolding strpbrk
strpbrk-init [] t set h = refl
strpbrk-init (x ∷ s) t set h = ground (arith, strpbrk-init s t set)
