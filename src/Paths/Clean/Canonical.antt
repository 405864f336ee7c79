-- ===== src/Paths/Clean/Canonical.antt =====
-- The path that xbps_path_clean should give, by its elements.
use xbps.Common.{
  ℕ, zero, suc, Bool, false, List, [], ◌∷◌, ◌++◌, if◌then◌else◌, ltb, ◌==◌, CStr, length, streq,
}

-- A path as the elements between its slashes: the first and the others.
unfoldable pub split : CStr → CStr × List CStr
split [] = ([], [])
split (c ∷ s) = let (x, xs) = split s in if c == b'/' then ([], x ∷ xs) else (c ∷ x, xs)

-- Where a path leads: so many times up from where it starts, then down by the names, the last one
-- first.
pub record Place : Type 0 where
  pub ups : ℕ
  pub names : List CStr

-- One element further. Above the root there is nothing but the root.
unfoldable pub enter : Bool → Place → CStr → Place
enter rooted l x =
    if length x == 0
    then l
    else if streq x (b'.' ∷ [])
    then l
    else if streq x (b'.' ∷ b'.' ∷ [])
    then elim (l.names) [
      | [] ↦ if rooted then l else record l { ups = suc l.ups }
      | y ∷ ys ↦ record l { names = ys }
    ]
    else record l { names = x ∷ l.names }

unfoldable pub enter_all : Bool → Place → List CStr → Place
enter_all rooted l [] = l
enter_all rooted l (x ∷ xs) = enter_all rooted (enter rooted l x) xs

-- A name below a path; the root ends in a slash, and below nothing there is none.
unfoldable pub under : Bool → CStr → CStr → CStr
under rooted path x =
    if ltb (if rooted then 1 else 0) (length path) then path ++ b'/' ∷ x else path ++ x

unfoldable pub above_start : Bool → ℕ → CStr
unfolding under
above_start rooted zero = if rooted then b'/' ∷ [] else []
above_start rooted (suc n) = under rooted (above_start rooted n) (b'.' ∷ b'.' ∷ [])

unfoldable pub path_of : Bool → ℕ → List CStr → CStr
unfolding under above_start
path_of rooted ups [] = above_start rooted ups
path_of rooted ups (x ∷ names) = under rooted (path_of rooted ups names) x

abbrev pub has_root : CStr → Bool
has_root [] = false
has_root (c ∷ s) = c == b'/'

-- The path of the place where another one leads; `.` for the start.
unfoldable pub canonical : CStr → CStr
canonical s =
    let rooted = has_root s in
    let (x, xs) = split s in
    let l = enter_all rooted (record { ups = 0; names = [] }) (x ∷ xs) in
    let path = path_of rooted l.ups l.names in if length path == 0 then b'.' ∷ [] else path
