-- ===== src/Paths/Clean/Cleaned.antt =====
-- The path that xbps_path_clean gives is the canonical one.
use xbps.Common.{
  ℕ, zero, suc, ◌<◌, Bool, true, false, some, List, [], ◌∷◌, ◌++◌, ◌≡◌, refl, sym, ap, ◌∙◌,
  if◌then◌else◌, ◌==◌, CStr, length, All, length-append, append_assoc, append-nil, arith,
  Bool-cases, inl, inr, path_max,
}
use xbps.Paths.Clean.{Cleaning, copy, backwards, is_rooted, cleaned, path_clean}
use xbps.Paths.Clean.Canonical.{
  split, Place, enter, enter_all, under, above_start, path_of, canonical,
}
use xbps.Paths.Clean.Steps.{slash_after, written_up, written, NoSlash, IsName, Represents}
use xbps.Paths.Clean.Loop.{clean_loop-Represents, split-slash}

pub length-backwards : (o : CStr) → length (backwards o) ≡ length o
unfolding backwards
length-backwards [] = refl
length-backwards (c ∷ o) =
    let e = length-append (backwards o) (c ∷ []) in omega (arith, e, length-backwards o)

backwards-copy : (x out : CStr) → NoSlash x → backwards (copy x out) ≡ backwards out ++ x
unfolding copy backwards
backwards-copy [] out h = sym (append-nil (backwards out))
backwards-copy (c ∷ x) out h =
    let e = h.0 in
    let a = backwards-copy x (c ∷ out) h.1 in rw (e) (a ∙ append_assoc (backwards out) (c ∷ []) x)

backwards-slash_after :
    (rooted : Bool) (o x : CStr)
    → backwards (slash_after rooted o) ++ x ≡ under rooted (backwards o) x
unfolding under backwards
backwards-slash_after rooted o x =
    let n = length-backwards o in
    let a = append_assoc (backwards o) (b'/' ∷ []) x in ground (arith, n, a)

backwards-above_start :
    (rooted : Bool) (ups : ℕ) → backwards (written_up rooted ups) ≡ above_start rooted ups
unfolding written_up above_start backwards
backwards-above_start true zero = refl
backwards-above_start false zero = refl
backwards-above_start rooted (suc n) =
    let o = slash_after rooted (written_up rooted n) in
    append_assoc (backwards o) (b'.' ∷ []) (b'.' ∷ [])
    ∙ backwards-slash_after rooted (written_up rooted n) (b'.' ∷ b'.' ∷ [])
    ∙ ap (λ w. under rooted w (b'.' ∷ b'.' ∷ [])) (backwards-above_start rooted n)

backwards-path_of :
    (rooted : Bool) (ups : ℕ) (names : List CStr)
    → All IsName names
    → backwards (written rooted ups names) ≡ path_of rooted ups names
unfolding written path_of
backwards-path_of rooted ups [] h = backwards-above_start rooted ups
backwards-path_of rooted ups (x ∷ names) h =
    backwards-copy x (slash_after rooted (written rooted ups names)) (h.0.no_slash)
    ∙ backwards-slash_after rooted (written rooted ups names) x
    ∙ ap (λ w. under rooted w x) (backwards-path_of rooted ups names h.1)

start-Represents :
    (rooted : Bool)
    → Represents rooted
        (record { ups = 0; names = [] })
        (record { out = written_up rooted 0; dotdot = length (written_up rooted 0) })
unfolding written
start-Represents rooted = record { names = tt; is_out = refl; is_dotdot = refl }

rendered :
    (rooted : Bool) (l : Place) (st : Cleaning)
    → Represents rooted l st
    → (if length st.out == 0 then b'.' ∷ [] else backwards st.out)
      ≡ (let path = path_of rooted l.ups l.names in if length path == 0 then b'.' ∷ [] else path)
rendered rooted l st r =
    let a = ap backwards r.is_out ∙ backwards-path_of rooted l.ups l.names r.names in
    let b = length-backwards st.out in ground (arith, a, b)

cleaned-nothing : cleaned [] ≡ canonical []
unfolding cleaned canonical enter enter_all split path_of above_start
cleaned-nothing = refl

cleaned-canonical : (s : CStr) → cleaned s ≡ canonical s
unfolding cleaned canonical is_rooted written_up enter_all enter
cleaned-canonical [] = cleaned-nothing
cleaned-canonical (c ∷ s) = elim (Bool-cases (c == b'/')) [
  | inl t ↦
      let r =
        (clean_loop-Represents true s (record { ups = 0; names = [] }) _
          (start-Represents true)).0 in
      let e = rendered true _ _ r in rw (t, split-slash c s t) e
  | inr f ↦
      let r =
        (clean_loop-Represents false (c ∷ s) (record { ups = 0; names = [] }) _
          (start-Represents false)).0 in
      let e = rendered false _ _ r in rw (f) e
]

-- A path of fewer than PATH_MAX bytes is replaced by the canonical path of the place where its
-- elements lead, and the length of that is returned.
pub path_clean-canonical :
    (dst : CStr)
    → length dst < path_max
    → path_clean dst ≡ record { dst = canonical dst; result = some (length (canonical dst)) }
unfolding path_clean
path_clean-canonical dst h = let e = cleaned-canonical dst in ground (arith, e)
