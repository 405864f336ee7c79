-- ===== src/Paths/JoinAll.antt =====
-- xbps_path_join: all values joined, if they fit.
use xbps.Common.{
  ℕ, ◌-◌, ◌^◌, ◌≤◌, ◌<◌, true, false, none, some, List, [], ◌∷◌, ◌++◌, ◌≡◌, if◌then◌else◌, ltb, leb,
  CStr, length, length-append, arith, Bool-cases, inl, inr,
}
use xbps.Paths.{strlcat, without_slash, join_value, join_slash, join_loop, path_join}
use xbps.Paths.Joined.{slashed, take-all, length-slashed}

-- The string with a slash, unless it is empty.
unfoldable pub open_path : CStr → CStr
open_path a = if ltb 0 (length a) then slashed a else a

-- A value that is joined to a path: with one slash between them, if there is anything before it.
abbrev pub onto : CStr → CStr → CStr
onto a val = open_path a ++ (if ltb 0 (length (open_path a)) then without_slash val else val)

unfoldable pub join_all : CStr → List CStr → CStr
join_all a [] = a
join_all a (val ∷ vals) = join_all (onto a val) vals

length-open_path : (a : CStr) → length a ≤ length (open_path a)
unfolding open_path
length-open_path a = ground (arith, length-slashed a)

length-join_all : (a : CStr) (vals : List CStr) → length a ≤ length (join_all a vals)
unfolding join_all
length-join_all a [] = omega arith
length-join_all a (val ∷ vals) =
    let w = if ltb 0 (length (open_path a)) then without_slash val else val in
    let e = length-append (open_path a) w in
    let f = length-open_path a in omega (arith, e, f, length-join_all (onto a val) vals)

join_value-fits :
    (dst val : CStr) (dstlen : ℕ)
    → length (dst ++ val) < dstlen
    → join_value dst dstlen val ≡ record { dst = dst ++ val; result = false }
unfolding join_value strlcat
join_value-fits dst val dstlen h =
    let e = length-append dst val in
    let t = take-all (dstlen - length dst - 1) val (omega arith) in ground (arith, e, t)

join_value-cut :
    (dst val : CStr) (dstlen : ℕ)
    → dstlen ≤ length (dst ++ val)
    → (join_value dst dstlen val).result ≡ true
unfolding join_value strlcat
join_value-cut dst val dstlen h = let e = length-append dst val in ground (arith, e)

join_slash-open_path :
    (a : CStr) (dstlen : ℕ) → length a < dstlen → join_slash a dstlen ≡ some (open_path a)
unfolding join_slash open_path slashed
join_slash-open_path a dstlen h = ground arith

join_loop-fits :
    (dst val : CStr) (vals : List CStr) (dstlen : ℕ)
    → dstlen ≤ 2 ^ 63
    → length (join_all (dst ++ val) vals) < dstlen
    → join_loop dst dstlen val vals ≡ record {
      dst = join_all (dst ++ val) vals;
      result = some (length (join_all (dst ++ val) vals));
    }
unfolding join_loop join_all
join_loop-fits dst val [] dstlen k h = let e = join_value-fits dst val dstlen h in ground (arith, e)
join_loop-fits dst val (next ∷ vals) dstlen k h =
    let b = length-join_all (dst ++ val) (next ∷ vals) in
    let e = join_value-fits dst val dstlen (omega arith) in
    let s = join_slash-open_path (dst ++ val) dstlen (omega arith) in
    let o = open_path (dst ++ val) in
    let later =
      join_loop-fits o (if ltb 0 (length o) then without_slash next else next) vals dstlen k h in
    rw (e) (rw (s) later)

join_loop-cut :
    (dst val : CStr) (vals : List CStr) (dstlen : ℕ)
    → dstlen ≤ length (join_all (dst ++ val) vals)
    → (join_loop dst dstlen val vals).result ≡ none
unfolding join_loop join_all
join_loop-cut dst val [] dstlen h = let e = join_value-cut dst val dstlen h in ground (arith, e)
join_loop-cut dst val (next ∷ vals) dstlen h =
    elim (Bool-cases (leb dstlen (length (dst ++ val)))) [
      | inl l ↦ let e = join_value-cut dst val dstlen (ground (arith, l)) in ground (arith, e)
      | inr l ↦
          let e = join_value-fits dst val dstlen (ground (arith, l)) in
          let s = join_slash-open_path (dst ++ val) dstlen (ground (arith, l)) in
          let o = open_path (dst ++ val) in
          let later =
            join_loop-cut o (if ltb 0 (length o) then without_slash next else next) vals dstlen h in
          rw (e) (rw (s) later)
    ]

-- Values that are joined into a buffer of at most 2^63 bytes: if all of them, with one slash between
-- two of them, fit the buffer, it has them in the end and their length is returned; if not,
-- -1 is returned.
pub path_join-join_all :
    (val : CStr) (vals : List CStr) (dstlen : ℕ)
    → dstlen ≤ 2 ^ 63
    → (length (join_all val vals) < dstlen
        → path_join dstlen (val ∷ vals)
          ≡ record { dst = join_all val vals; result = some (length (join_all val vals)) })
      × (dstlen ≤ length (join_all val vals) → (path_join dstlen (val ∷ vals)).result ≡ none)
unfolding path_join
path_join-join_all val vals dstlen k =
    ((λ h. join_loop-fits [] val vals dstlen k h), (λ h. join_loop-cut [] val vals dstlen h))
