-- ===== src/Remove/Modes.antt =====
-- What each of the removals takes out.
use xbps.Common.{List, ◌∷◌, ◌++◌, ◌≡◌, ◌↔◌, All}
use xbps.Versions.{Versions}
use xbps.Pkg.{Pkg}
use xbps.Match.{Probe, hit, miss}

-- The array less the first element that is wanted, where all in front of it are passed over.
pub record FirstOut {ℓ} {A : Type ℓ} (Wants Passes : A → Type ℓ) (array kept : List A)
    : Type ℓ where
  pub before : List A
  pub obj : A
  pub after : List A
  pub splits : array ≡ before ++ obj ∷ after
  pub passed : All Passes before
  pub wanted : Wants obj
  pub leaves : kept ≡ before ++ after

-- What the outcomes of a test mean.
record Decides {ℓ} {A : Type ℓ} (test : A → Probe) (Wants Passes : A → Type ℓ) : Type ℓ where
  on_hit : (o : A) → (test o ≡ hit) ↔ Wants o
  on_miss : (o : A) → (test o ≡ miss) ↔ Passes o
