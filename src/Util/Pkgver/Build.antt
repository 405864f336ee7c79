-- ===== src/Util/Pkgver/Build.antt =====
-- A pkgver put together from a name, an upstream version and a revision is taken apart again.
use xbps.Common.{
  ℕ, ◌<◌, true, some, [], ◌∷◌, ◌++◌, ◌≡◌, ◌∙◌, CStr, is_digit, length, any, arith, Free, nil, cons,
  strchr-append, strrchr-append,
}
use xbps.Util.Pkgver.{is_revision, version_loop, revision_loop, pkg_version, pkg_revision, pkg_name}
use xbps.Util.Pkgver.Split.{
  name_loop-version_loop, pkg_version-append, pkg_revision-append, pkg_name-append,
}

-- `foo-1.0_1`: no `-` behind the name, no `_` but the one in front of the revision, and a digit
-- in the upstream version.
pub record IsPkgver (upstream revision : CStr) : Type 0 where
  pub no_dash : Free b'-' (upstream ++ b'_' ∷ revision)
  pub no_underscore : Free b'_' upstream
  pub has_digit : any is_digit upstream ≡ true
  pub revision_digits : is_revision revision ≡ true
  pub revision_plain : Free b'_' revision

abbrev pub pkgver_of : CStr → CStr → CStr → CStr
pkgver_of name upstream revision = name ++ b'-' ∷ (upstream ++ b'_' ∷ revision)

version_loop-build :
    {u : CStr} (r : CStr)
    → Free b'_' u
    → any is_digit u ≡ true
    → is_revision r ≡ true
    → version_loop (u ++ b'_' ∷ r) ≡ true
unfolding version_loop any
version_loop-build r nil d h = cc
version_loop-build r (cons {x} {s} ne f) d h =
    ground (arith, strchr-append r f, version_loop-build r f)

revision_loop-build :
    {u : CStr} (r : CStr)
    → Free b'_' u
    → any is_digit u ≡ true
    → is_revision r ≡ true
    → Free b'_' r
    → revision_loop (u ++ b'_' ∷ r) ≡ some r
unfolding revision_loop any
revision_loop-build r nil d h g = cc
revision_loop-build r (cons {x} {s} ne f) d h g =
    ground (arith, strchr-append r f, strrchr-append [] g, revision_loop-build r f)

-- Putting a pkgver together from a name, a well-formed version and a revision, and taking it apart
-- gives the three parts back, if the name with its NUL fits the buffer.
pub pkgver_of_round_trip :
    (len : ℕ) (name upstream revision : CStr)
    → IsPkgver upstream revision
    → length name < len
    → (pkg_name len (pkgver_of name upstream revision) ≡ some name)
      × (pkg_version (pkgver_of name upstream revision) ≡ some (upstream ++ b'_' ∷ revision))
      × (pkg_revision (pkgver_of name upstream revision) ≡ some revision)
pkgver_of_round_trip len name u r h l =
    let v = version_loop-build r h.no_underscore h.has_digit h.revision_digits in
    (
      ground (arith, pkg_name-append len name h.no_dash, name_loop-version_loop (u ++ b'_' ∷ r), v),
      ground (arith, pkg_version-append name h.no_dash, v),
      pkg_revision-append name h.no_dash
          ∙ revision_loop-build r h.no_underscore h.has_digit h.revision_digits h.revision_plain,
    )
