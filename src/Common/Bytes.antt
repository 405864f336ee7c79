-- ===== src/Common/Bytes.antt =====
-- C strings as lists of bytes without the final NUL, and the functions of <string.h> and
-- <ctype.h> that the sources call.
use Prim.Native.Char.{code}
use Prim.Native.String.{String}
use Prim.Native.Nat.{ℕ, ◌-◌}
use mathlib.Core.Path.{◌≡◌, refl}
use mathlib.Core.Logic.{◌↔◌, ◌≢◌}
use mathlib.Core.Bool.{Bool, true, false, ◌||◌, ◌&&◌}
use mathlib.Core.Option.{Option, none, some}
use mathlib.Core.List.{List, [], ◌∷◌}
use native.Mathlib.Omega.{arith}
use xbps.Common.Lists.{take}
use xbps.Common.Tests.{leb, ◌==◌, if◌then◌else◌}

abbrev pub CStr : Type 0
CStr = List ℕ

-- The bytes of an ASCII literal.
abbrev pub codes : String → CStr
codes String.[] = []
codes (String.◌∷◌ c s) = code c ∷ codes s

-- `snprintf` into a buffer of PATH_MAX bytes.
abbrev pub path_max : ℕ
path_max = 4096

unfoldable pub printed : CStr → CStr
printed s = take (path_max - 1) s

-- `isdigit`
unfoldable pub is_digit : ℕ → Bool
is_digit c = leb b'0' c && leb c b'9'

-- `strcmp(a, b) == 0`
unfoldable pub streq : CStr → CStr → Bool
streq [] [] = true
streq (x ∷ a) (y ∷ b) = x == y && streq a b
streq _ _ = false

pub streq_iff : (a b : CStr) → (streq a b ≡ true) ↔ (a ≡ b)
unfolding streq
streq_iff (x ∷ a) (y ∷ b) = ground (arith, streq_iff a b)
streq_iff _ _ = ground arith

pub streq_refl : (a : CStr) → streq a a ≡ true
streq_refl a = (streq_iff a a).1 refl

-- `strncmp(s, p, strlen(p)) == 0`
unfoldable pub has_prefix : CStr → CStr → Bool
has_prefix [] s = true
has_prefix (c ∷ p) [] = false
has_prefix (c ∷ p) (d ∷ s) = c == d && has_prefix p s

-- `strchr`: the suffix at the first occurrence.
unfoldable pub strchr : CStr → ℕ → Option CStr
strchr [] c = none
strchr (x ∷ s) c = if x == c then some (x ∷ s) else strchr s c

-- The suffix at the last occurrence, given what the search of the rest found.
abbrev pub last_of : Option CStr → ℕ → CStr → ℕ → Option CStr
last_of (some r) x s c = some r
last_of none x s c = if x == c then some (x ∷ s) else none

-- `strrchr`: the suffix at the last occurrence.
unfoldable pub strrchr : CStr → ℕ → Option CStr
strrchr [] c = none
strrchr (x ∷ s) c = last_of (strrchr s c) x s c

-- Membership of a byte in a set, as `strpbrk` tests it.
unfoldable pub in_set : CStr → ℕ → Bool
in_set [] c = false
in_set (x ∷ set) c = x == c || in_set set c

-- `strpbrk`: the suffix at the first byte of the set.
unfoldable pub strpbrk : CStr → CStr → Option CStr
strpbrk [] set = none
strpbrk (x ∷ s) set = if in_set set x then some (x ∷ s) else strpbrk s set

-- No byte of the string is `c`.
pub data Free (c : ℕ) : CStr → Type 0 where
  nil : Free c []
  cons : {x : ℕ} {s : CStr} → x ≢ c → Free c s → Free c (x ∷ s)
