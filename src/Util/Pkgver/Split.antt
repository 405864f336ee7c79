-- ===== src/Util/Pkgver/Split.antt =====
-- xbps_pkg_name, xbps_pkg_version and xbps_pkg_revision take one pkgver apart consistently.
use xbps.Common.{
  ℕ, ◌+◌, ◌-◌, ◌<◌, not, none, some, [], ◌∷◌, ◌++◌, ◌≡◌, refl, ◌∙◌, ap, ◌⊎◌, inl, inr,
  if◌then◌else◌, ltb, CStr, strrchr, length, strrchr-SplitAt, arith, Option-cases, length-append,
  take-length-append, Free, strrchr-append,
}
use xbps.Util.Pkgver.{version_loop, name_loop, revision_loop, pkg_version, pkg_name, pkg_revision}

-- The two loops test the same thing.
pub name_loop-version_loop : (s : CStr) → name_loop s ≡ version_loop s
unfolding name_loop version_loop
name_loop-version_loop [] = refl
name_loop-version_loop (c ∷ s) = rw (name_loop-version_loop s)

-- `plen - 1` is the length of the part in front of the last `-`.
name_length :
    (before after : CStr)
    → length (before ++ b'-' ∷ after) - length (b'-' ∷ after) + 1 ≡ length before + 1
name_length before after = omega (arith, length-append before (b'-' ∷ after))

pub pkg_name-append :
    (len : ℕ) (before : CStr) {after : CStr}
    → Free b'-' after
    → pkg_name len (before ++ b'-' ∷ after) ≡ (
        if not (name_loop after)
        then none
        else if ltb len (length before + 1)
        then none
        else some before)
unfolding pkg_name
pkg_name-append len before {after} f =
    rw (strrchr-append before f, pkg_name)
      (rw (
        name_length before after,
        take-length-append (length before + 1 - 1) before (b'-' ∷ after) (omega arith),
      ))

pub pkg_version-append :
    (before : CStr) {after : CStr}
    → Free b'-' after
    → pkg_version (before ++ b'-' ∷ after) ≡ (if version_loop after then some after else none)
unfolding pkg_version
pkg_version-append before f = rw (strrchr-append before f, pkg_version)

pub pkg_revision-append :
    (before : CStr) {after : CStr}
    → Free b'-' after
    → pkg_revision (before ++ b'-' ∷ after) ≡ revision_loop after
unfolding pkg_revision
pkg_revision-append before f = rw (strrchr-append before f, pkg_revision)

-- A pkgver that one of the three functions accepts has a last `-`.
pub record Parts (pkg : CStr) : Type 0 where
  pub before : CStr
  pub after : CStr
  pub joined : pkg ≡ before ++ b'-' ∷ after
  pub last : Free b'-' after

pub Parts-cases : (pkg : CStr) → (strrchr pkg b'-' ≡ none) ⊎ Parts pkg
Parts-cases pkg = elim (Option-cases (strrchr pkg b'-')) [
  | inl e ↦ inl e
  | inr (r, e) ↦
      let (p, free) = strrchr-SplitAt pkg b'-' e in
      inr (record { before = p.before; after = p.after; joined = p.splits; last = free })
]

pub pkg_name-none : (len : ℕ) (pkg : CStr) → strrchr pkg b'-' ≡ none → pkg_name len pkg ≡ none
unfolding pkg_name
pkg_name-none len pkg e = rw (e, pkg_name)

pub pkg_version-none : (pkg : CStr) → strrchr pkg b'-' ≡ none → pkg_version pkg ≡ none
unfolding pkg_version
pkg_version-none pkg e = rw (e, pkg_version)

pub pkg_revision-none : (pkg : CStr) → strrchr pkg b'-' ≡ none → pkg_revision pkg ≡ none
unfolding pkg_revision
pkg_revision-none pkg e = rw (e, pkg_revision)

-- If xbps_pkg_name finds a name, then xbps_pkg_version finds a version, the pkgver is the two
-- joined by `-`, and the name with its NUL fits the buffer.
pub pkg_name-pkg_version :
    (len : ℕ) (pkg : CStr) {name : CStr}
    → pkg_name len pkg ≡ some name
    → (version : CStr) × (pkg_version pkg ≡ some version)
      × (pkg ≡ name ++ b'-' ∷ version)
      × (length name < len)
pkg_name-pkg_version len pkg {name} h = elim (Parts-cases pkg) [
  | inl e ↦ absurd (ground (arith, pkg_name-none len pkg e))
  | inr p ↦
      let open_name = ap (pkg_name len) p.joined ∙ pkg_name-append len p.before p.last in
      let open_version = ap pkg_version p.joined ∙ pkg_version-append p.before p.last in
      let same = name_loop-version_loop p.after in
      let eq : p.before ≡ name = ground (arith, open_name) in
      (
        p.after,
        ground (arith, open_name, open_version, same),
        rw (← eq) p.joined,
        ground (arith, open_name),
      )
]

-- If xbps_pkg_version finds a version, xbps_pkg_name finds the name in front of it whenever
-- the buffer is longer than the pkgver.
pub pkg_version-pkg_name :
    (len : ℕ) (pkg : CStr) {version : CStr}
    → length pkg < len
    → pkg_version pkg ≡ some version
    → (name : CStr) × (pkg_name len pkg ≡ some name) × (pkg ≡ name ++ b'-' ∷ version)
pkg_version-pkg_name len pkg {version} l h = elim (Parts-cases pkg) [
  | inl e ↦ absurd (ground (arith, pkg_version-none pkg e))
  | inr p ↦
      let open_name = ap (pkg_name len) p.joined ∙ pkg_name-append len p.before p.last in
      let open_version = ap pkg_version p.joined ∙ pkg_version-append p.before p.last in
      let same = name_loop-version_loop p.after in
      let fits = ap length p.joined ∙ length-append p.before (b'-' ∷ p.after) in
      let eq : p.after ≡ version = ground (arith, open_version) in
      (p.before, ground (arith, open_name, open_version, same, fits), rw (← eq) p.joined)
]
