-- ===== src/Paths.antt =====
-- lib/util_path.c: paths that are put together in a buffer. The bytes of the buffer up to the NUL
-- and the result; `none` is -1.
pub mod Clean
pub mod Joined
pub mod JoinAll
use xbps.Common.{
  ℕ, zero, suc, ◌+◌, ◌-◌, ◌^◌, Bool, true, false, ◌&&◌, not, Option, none, some, List, [], ◌∷◌,
  ◌++◌, if◌then◌else◌, ltb, leb, ◌==◌, CStr, length, take, drop,
}

-- A string in a buffer, and what the call that wrote it returned.
pub record Written {ℓ} (R : Type ℓ) : Type ℓ where
  pub dst : CStr
  pub result : R

-- What fits a buffer of `siz` bytes is copied; the result is the length of the source.
unfoldable pub strlcpy : CStr → CStr → ℕ → Written ℕ
strlcpy dst src siz = record {
  dst = if siz == 0 then dst else take (siz - 1) src;
  result = length src;
}

unfoldable pub strlcat : CStr → CStr → ℕ → Written ℕ
strlcat dst src siz =
    if leb siz (length dst)
    then record { dst = dst; result = siz + length src }
    else record { dst = dst ++ take (siz - length dst - 1) src; result = length dst + length src }

-- `*dst != '\0' && dst[len-1] == c`
unfoldable pub last_is : ℕ → CStr → Bool
last_is c [] = false
last_is c (x ∷ s) = elim s [ [] ↦ x == c | y ∷ t ↦ last_is c s ]

-- `if (*s == '/') s++;`
unfoldable pub without_slash : CStr → CStr
without_slash [] = []
without_slash (c ∷ s) = if c == b'/' then s else c ∷ s

-- `(ssize_t)len < 0 ? -1 : (ssize_t)len`
abbrev pub signed : ℕ → Option ℕ
signed len = if ltb len (2 ^ 63) then some len else none

-- A length that fits the buffer.
abbrev pub fitting : ℕ → Written ℕ → Written (Option ℕ)
fitting dstlen w = record {
  dst = w.dst;
  result = if leb dstlen w.result then none else signed w.result;
}

unfoldable pub path_append : CStr → ℕ → CStr → Written (Option ℕ)
unfolding strlcpy strlcat last_is without_slash
path_append dst dstlen [] = record { dst = dst; result = signed (length dst) }
path_append [] dstlen (c ∷ suffix) = fitting dstlen (strlcpy [] (c ∷ suffix) dstlen)
path_append (b ∷ dst) dstlen (c ∷ suffix) =
    let len = length (b ∷ dst) in
    let slashed =
      if not (last_is b'/' (b ∷ dst)) && ltb (len + 1) dstlen
      then (b ∷ dst) ++ b'/' ∷ []
      else b ∷ dst in
    fitting dstlen (strlcat slashed (without_slash (c ∷ suffix)) dstlen)

-- The length of the prefix without a final slash.
abbrev pub prefix_length : CStr → ℕ
prefix_length prefix = if last_is b'/' prefix then length prefix - 1 else length prefix

unfoldable pub path_prepend : CStr → ℕ → CStr → Written (Option ℕ)
unfolding strlcpy last_is without_slash
path_prepend dst dstlen [] = record { dst = dst; result = signed (length dst) }
path_prepend [] dstlen (c ∷ prefix) = fitting dstlen (strlcpy [] (c ∷ prefix) dstlen)
path_prepend (b ∷ dst) dstlen (c ∷ prefix) =
    let prelen = prefix_length (c ∷ prefix) in
    let p = without_slash (b ∷ dst) in
    if ltb dstlen (length p + prelen + 2) then record { dst = b ∷ dst; result = none } else record {
      dst = take prelen (c ∷ prefix) ++ b'/' ∷ p;
      result = signed (length p + (prelen + 1));
    }

-- A value is written behind the string; the result says whether it was cut.
unfoldable pub join_value : CStr → ℕ → CStr → Written Bool
unfolding strlcat
join_value dst dstlen val =
    let w = strlcat [] val (dstlen - length dst) in
    record { dst = dst ++ w.dst; result = leb (dstlen - length dst) w.result }

-- The slash before the next value, at `len`, with the NUL behind it; `none` goes to `err`.
unfoldable pub join_slash : CStr → ℕ → Option CStr
unfolding last_is
join_slash dst dstlen =
    if ltb 0 (length dst) && not (last_is b'/' dst)
    then if ltb dstlen (length dst + 1) then none else some (dst ++ b'/' ∷ [])
    else some dst

-- The loop of xbps_path_vjoin at the value `val`, on the string written so far.
unfoldable pub join_loop : CStr → ℕ → CStr → List CStr → Written (Option ℕ)
join_loop dst dstlen val [] =
    let w = join_value dst dstlen val in
    record { dst = w.dst; result = if w.result then none else signed (length w.dst) }
join_loop dst dstlen val (next ∷ vals) =
    let w = join_value dst dstlen val in
    if w.result then record { dst = w.dst; result = none } else elim (join_slash w.dst dstlen) [
      | none ↦ record { dst = w.dst; result = none }
      | some slashed ↦
          join_loop slashed dstlen (if ltb 0 (length slashed) then without_slash next else next)
            vals
    ]

unfoldable pub path_join : ℕ → List CStr → Written (Option ℕ)
unfolding join_loop
path_join dstlen [] = record { dst = []; result = some 0 }
path_join dstlen (val ∷ vals) = join_loop [] dstlen val vals
