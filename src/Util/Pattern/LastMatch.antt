-- ===== src/Util/Pattern/LastMatch.antt =====
-- xbps_patterns_match: the last pattern that matches decides.
use xbps.Common.{
  Bool, true, false, not, Option, none, some, List, [], ◌∷◌, ◌++◌, ◌≡◌, refl, CStr, All,
}
use xbps.Util.Pattern.{bare, negated, patterns_match_loop, patterns_match}

module _ (fnmatch : CStr → CStr → Bool) where
  -- The pattern does not match the path.
  abbrev pub Misses : CStr → Option CStr → Type 0
  Misses path none = Unit
  Misses path (some pattern) = fnmatch (bare pattern) path ≡ false

  loop-Misses :
      (ps : List (Option CStr)) (path : CStr) (match : Bool)
      → All (Misses path) ps
      → patterns_match_loop fnmatch ps path match ≡ match
  unfolding patterns_match_loop
  loop-Misses [] path match h = refl
  loop-Misses (none ∷ ps) path match h = loop-Misses ps path match h.1
  loop-Misses (some p ∷ ps) path match h = rw h.0 (loop-Misses ps path match h.1)

  loop_append :
      (before after : List (Option CStr)) (path pattern : CStr) (match : Bool)
      → fnmatch (bare pattern) path ≡ true
      → All (Misses path) after
      → patterns_match_loop fnmatch (before ++ some pattern ∷ after) path match
        ≡ not (negated pattern)
  unfolding patterns_match_loop
  loop_append [] after path pattern match m h =
      rw (m, patterns_match_loop) (loop-Misses after path _ h)
  loop_append (none ∷ ps) after path pattern match m h = loop_append ps after path pattern match m h
  loop_append (some p ∷ ps) after path pattern match m h = loop_append ps after path pattern _ m h

-- The last pattern that matches the path decides: the path is accepted exactly when that pattern
-- is not negated; with no match at all it is refused.
pub patterns_match_last :
    (fnmatch : CStr → CStr → Bool) (before after : List (Option CStr)) (path pattern : CStr)
    → fnmatch (bare pattern) path ≡ true
    → All (Misses fnmatch path) after
    → (patterns_match fnmatch (some (before ++ some pattern ∷ after)) path ≡ not (negated pattern))
      × (patterns_match fnmatch (some after) path ≡ false)
unfolding patterns_match
patterns_match_last fnmatch before after path pattern m h = (
  loop_append fnmatch before after path pattern false m h,
  loop-Misses fnmatch after path false h,
)
