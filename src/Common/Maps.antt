-- ===== src/Common/Maps.antt =====
-- Dictionaries with strings for keys: association lists.
use mathlib.Core.Path.{◌≡◌, refl}
use mathlib.Core.Option.{Option, none, some}
use mathlib.Core.List.{List, [], ◌∷◌}
use native.Mathlib.Omega.{arith}
use xbps.Common.Tests.{if◌then◌else◌}
use xbps.Common.Bytes.{CStr, streq, streq_iff}

module _ {ℓ} {V : Type ℓ} where
  unfoldable pub find_key : List (CStr × V) → CStr → Option V
  find_key [] key = none
  find_key ((k, v) ∷ m) key = if streq k key then some v else find_key m key

  unfoldable pub set_key : List (CStr × V) → CStr → V → List (CStr × V)
  set_key [] key v = (key, v) ∷ []
  set_key ((k, w) ∷ m) key v = if streq k key then (k, v) ∷ m else (k, w) ∷ set_key m key v

  pub find_key-set_key :
      (m : List (CStr × V)) (key other : CStr) (v : V)
      → find_key (set_key m key v) other ≡ (if streq key other then some v else find_key m other)
  unfolding find_key set_key
  find_key-set_key [] key other v = refl
  find_key-set_key ((k, w) ∷ m) key other v = ground (
    arith,
    streq_iff k key,
    streq_iff k other,
    streq_iff key other,
    find_key-set_key m key other v,
  )
