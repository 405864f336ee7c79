-- ===== src/Util/Slashes.antt =====
-- lib/util.c: xbps_sanitize_path, which writes a path without its repeated slashes.
use xbps.Common.{
  Bool, true, false, ◌&&◌, List, [], ◌∷◌, ◌≡◌, refl, if◌then◌else◌, ◌==◌, CStr, length, arith,
  Bool-cases, inl, inr,
}
use xbps.Paths.Clean.Canonical.{split}

-- `*s == '/'`
unfoldable pub at_slash : CStr → Bool
at_slash [] = false
at_slash (c ∷ s) = c == b'/'

-- The empty path fails an assertion.
unfoldable pub sanitize_path : CStr → CStr
unfolding at_slash
sanitize_path [] = []
sanitize_path (c ∷ s) =
    let rest = sanitize_path s in if c == b'/' && at_slash s then rest else c ∷ rest

-- Two slashes stand side by side.
unfoldable pub has_double : CStr → Bool
has_double [] = false
has_double (c ∷ s) = let rest = has_double s in if c == b'/' && at_slash s then true else rest

-- The elements that are not empty.
unfoldable pub filled : List CStr → List CStr
filled [] = []
filled (x ∷ xs) = let rest = filled xs in if length x == 0 then rest else x ∷ rest

at_slash-sanitize_path : (s : CStr) → at_slash (sanitize_path s) ≡ at_slash s
unfolding sanitize_path at_slash
at_slash-sanitize_path [] = refl
at_slash-sanitize_path (c ∷ s) = ground (arith, at_slash-sanitize_path s)

has_double-sanitize_path : (s : CStr) → has_double (sanitize_path s) ≡ false
unfolding sanitize_path has_double
has_double-sanitize_path [] = refl
has_double-sanitize_path (c ∷ s) =
    ground (arith, at_slash-sanitize_path s, has_double-sanitize_path s)

split-at_slash : (s : CStr) → at_slash s ≡ true → (split s).0 ≡ []
unfolding split at_slash
split-at_slash [] h = refl
split-at_slash (c ∷ s) h = ground (arith, h)

same_elements :
    (s : CStr)
    → ((split (sanitize_path s)).0 ≡ (split s).0)
      × (filled (split (sanitize_path s)).1 ≡ filled (split s).1)
unfolding sanitize_path split filled
same_elements [] = (refl, refl)
same_elements (c ∷ s) =
    let (a, b) = same_elements s in
    let z = split-at_slash s in
    elim (Bool-cases (c == b'/')) [
      | inl t ↦ elim (Bool-cases (at_slash s)) [
        | inl u ↦ let e = z u in (ground (arith, t, u, a, e), ground (arith, t, u, b, e))
        | inr u ↦ (ground (arith, t, u), ground (arith, t, u, a, b))
      ]
      | inr f ↦ (ground (arith, f, a), ground (arith, f, b))
    ]

-- A path without its repeated slashes has no two slashes side by side, and the elements of the path
-- that are not empty, in their order.
pub sanitize_path-filled :
    (s : CStr)
    → (has_double (sanitize_path s) ≡ false)
      × (filled ((split (sanitize_path s)).0 ∷ (split (sanitize_path s)).1)
          ≡ filled ((split s).0 ∷ (split s).1))
unfolding filled
sanitize_path-filled s =
    let (a, b) = same_elements s in (has_double-sanitize_path s, ground (arith, a, b))
