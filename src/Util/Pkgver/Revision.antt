-- ===== src/Util/Pkgver/Revision.antt =====
-- xbps_pkg_revision agrees with xbps_pkg_version.
use xbps.Common.{
  ℕ, true, false, none, some, [], ◌∷◌, ◌++◌, ◌≡◌, refl, ap, sym, ◌∙◌, inl, inr, ◌==◌, CStr,
  is_digit, strchr, strrchr, drop, SplitAt, strrchr-SplitAt, strrchr-none, strchr-SplitAt, arith,
  Bool-cases, Option-cases, append_assoc, Free, cons,
}
use xbps.Util.Pkgver.{is_revision, version_loop, revision_loop, pkg_version, pkg_revision}
use xbps.Util.Pkgver.Split.{Parts-cases, pkg_version-append, pkg_revision-append, pkg_version-none}

-- The version `s` is an upstream version, `_`, and the revision that the loop returns.
record RevisionOf (s : CStr) : Type 0 where
  upstream : CStr
  revision : CStr
  found : revision_loop s ≡ some revision
  joined : s ≡ upstream ++ b'_' ∷ revision
  last : Free b'_' revision

strrchr-head : (c : ℕ) (s : CStr) → strrchr (c ∷ s) c ≡ none → ⊥
strrchr-head c s e = elim (strrchr-none (c ∷ s) c e) [ cons h f ↦ h refl ]

-- At the first `_` behind the digit `c`.
RevisionOf-here :
    (c : ℕ) (s : CStr) {r : CStr}
    → (c == b'_') ≡ false
    → is_digit c ≡ true
    → strchr s b'_' ≡ some r
    → is_revision (drop 1 r) ≡ true
    → RevisionOf (c ∷ s)
unfolding revision_loop
RevisionOf-here c s {r} ne d e rev = elim (Option-cases (strrchr r b'_')) [
  | inl q ↦ absurd (strrchr-head b'_' a.after (rw a.suffix at q))
  | inr (q, found) ↦
      let (b, free) = strrchr-SplitAt r b'_' found in
      let again : b'_' ∷ a.after ≡ b.before ++ b'_' ∷ b.after = sym a.suffix ∙ b.splits in
      record {
        upstream = c ∷ (a.before ++ b.before);
        revision = b.after;
        found = ground (arith, b.suffix);
        joined = ap (◌∷◌ c) (
            a.splits
            ∙ ap (◌++◌ a.before) again
            ∙ sym (append_assoc a.before b.before (b'_' ∷ b.after)));
        last = free;
      }
]
  where
    a : SplitAt s b'_' r
    a = strchr-SplitAt s b'_' e

RevisionOf-there :
    (c : ℕ) {s : CStr} → revision_loop (c ∷ s) ≡ revision_loop s → RevisionOf s → RevisionOf (c ∷ s)
RevisionOf-there c e h = record {
  upstream = c ∷ h.upstream;
  revision = h.revision;
  found = e ∙ h.found;
  joined = ap (◌∷◌ c) h.joined;
  last = h.last;
}

version_loop-RevisionOf : (s : CStr) → version_loop s ≡ true → RevisionOf s
unfolding version_loop
version_loop-RevisionOf [] h = absurd (cc)
version_loop-RevisionOf (c ∷ s) h = elim (Bool-cases (is_digit c)) [
  | inl d ↦ elim (Option-cases (strchr s b'_')) [
    | inl e ↦
        RevisionOf-there c (unfold revision_loop in ground arith)
          (version_loop-RevisionOf s (ground arith))
    | inr (r, e) ↦ RevisionOf-here c s (ground arith) d e (ground arith)
  ]
  | inr d ↦
      RevisionOf-there c (unfold revision_loop in ground arith)
        (version_loop-RevisionOf s (ground arith))
]

-- Whenever xbps_pkg_version finds a version, xbps_pkg_revision finds the part of it behind the
-- last `_`.
pub pkg_version-pkg_revision :
    (pkg : CStr) {version : CStr}
    → pkg_version pkg ≡ some version
    → (upstream revision : CStr) × (pkg_revision pkg ≡ some revision)
      × (version ≡ upstream ++ b'_' ∷ revision)
      × Free b'_' revision
pkg_version-pkg_revision pkg {version} h = elim (Parts-cases pkg) [
  | inl e ↦ absurd (ground (arith, pkg_version-none pkg e))
  | inr p ↦
      let open_version = ap pkg_version p.joined ∙ pkg_version-append p.before p.last in
      let open_revision = ap pkg_revision p.joined ∙ pkg_revision-append p.before p.last in
      let eq : p.after ≡ version = ground (arith, open_version) in
      let r = version_loop-RevisionOf p.after (ground (arith, open_version)) in
      (r.upstream, r.revision, open_revision ∙ r.found, rw (← eq) r.joined, r.last)
]
