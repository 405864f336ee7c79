-- ===== src/Paths/Clean.antt =====
-- lib/util_path.c: xbps_path_clean. The bytes written so far stand in reverse, the last one first.
pub mod Canonical
pub mod Steps
pub mod Loop
pub mod Cleaned
pub mod Fits
pub mod Room
use xbps.Common.{
  ℕ, zero, suc, ◌+◌, ◌-◌, Bool, true, false, ◌&&◌, not, Option, none, some, List, [], ◌∷◌,
  if◌then◌else◌, ltb, leb, ◌==◌, CStr, length, drop, path_max, ◌++◌,
}
use xbps.Paths.{Written}

-- `d` as the bytes below it, and `dotdot` as an offset in `dst`.
pub record Cleaning : Type 0 where
  pub out : CStr
  pub dotdot : ℕ

-- `p[0] == '\0' || p[0] == '/'`
unfoldable pub at_end : CStr → Bool
at_end [] = true
at_end (c ∷ p) = c == b'/'

-- `for (; d > dotdot && *d != '/'; d--)`, with `*d` and the bytes below it.
unfoldable pub back_loop : ℕ → ℕ → CStr → CStr
back_loop dotdot c [] = []
back_loop dotdot c (x ∷ out) =
    let rest = back_loop dotdot x out in
    if ltb dotdot (length (x ∷ out)) && not (c == b'/') then rest else x ∷ out

unfoldable pub backtrack : ℕ → CStr → CStr
unfolding back_loop
backtrack dotdot [] = []
backtrack dotdot (c ∷ out) = back_loop dotdot c out

-- A `..` element.
unfoldable pub go_up : Bool → Cleaning → Cleaning
go_up rooted st =
    if ltb st.dotdot (length st.out)
    then record st { out = backtrack st.dotdot st.out }
    else if not rooted
    then (let out = b'.' ∷ b'.' ∷ (if ltb 0 (length st.out) then b'/' ∷ st.out else st.out) in
        record { out = out; dotdot = length out })
    else st

-- `for (; *p && *p != '/'; p++) *d++ = *p;`: how many bytes are copied, and the bytes written.
unfoldable pub copied : CStr → ℕ
copied [] = 0
copied (c ∷ p) = let rest = copied p in if c == b'/' then 0 else suc rest

unfoldable pub copy : CStr → CStr → CStr
copy [] out = out
copy (c ∷ p) out = let rest = copy p (c ∷ out) in if c == b'/' then out else rest

-- The bytes written, in their order.
unfoldable pub backwards : CStr → CStr
backwards [] = []
backwards (c ∷ out) = backwards out ++ c ∷ []

-- A normal element.
unfoldable pub add_element : Bool → CStr → Cleaning → Cleaning
unfolding copy
add_element rooted p st = record st {
  out = copy p (if ltb (if rooted then 1 else 0) (length st.out) then b'/' ∷ st.out else st.out);
}

-- `p[0] == '.' && (p[1] == '\0' || p[1] == '/')`
unfoldable pub dot_at_end : CStr → Bool
unfolding at_end
dot_at_end [] = false
dot_at_end (c ∷ p) = c == b'.' && at_end p

-- One round of the loop at the byte `c` with `p` behind it: how many bytes of `p` it goes over too,
-- and the state.
unfoldable pub clean_step : Bool → ℕ → CStr → Cleaning → ℕ × Cleaning
clean_step rooted c p st =
    if c == b'/'
    then (0, st)
    else if dot_at_end (c ∷ p)
    then (0, st)
    else if c == b'.' && dot_at_end p
    then (1, go_up rooted st)
    else (copied p, add_element rooted (c ∷ p) st)

-- The loop over the bytes from `p` on, the first `skip` of which it has gone over.
unfoldable pub clean_loop : Bool → CStr → ℕ → Cleaning → Cleaning
clean_loop rooted [] skip st = st
clean_loop rooted (c ∷ p) (suc skip) st = clean_loop rooted p skip st
clean_loop rooted (c ∷ p) zero st = let r = clean_step rooted c p st in clean_loop rooted p r.0 r.1

unfoldable pub is_rooted : CStr → Bool
is_rooted [] = false
is_rooted (c ∷ s) = c == b'/'

unfoldable pub cleaned : CStr → CStr
unfolding clean_loop is_rooted copy
cleaned dst =
    let st =
      if is_rooted dst
      then clean_loop true (drop 1 dst) 0 (record { out = b'/' ∷ []; dotdot = 1 })
      else clean_loop false dst 0 (record { out = []; dotdot = 0 }) in
    if length st.out == 0 then b'.' ∷ [] else backwards st.out

-- A path of PATH_MAX bytes or more is refused.
unfoldable pub path_clean : CStr → Written (Option ℕ)
path_clean dst =
    if leb path_max (length dst)
    then record { dst = dst; result = none }
    else record { dst = cleaned dst; result = some (length (cleaned dst)) }
