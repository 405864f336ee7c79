-- ===== src/Virtual/Found.antt =====
-- What a search for a virtual package answers.
use xbps.Common.{
  true, false, Option, none, some, List, [], ◌∷◌, ◌++◌, ◌≡◌, ◌≢◌, refl, inl, inr, CStr, Run, ret,
  abort, ap, subst, All, arith, Bool-cases, Option-cases,
}
use xbps.Versions.{Versions}
use xbps.Pkg.{Installed}
use xbps.Match.{match_virtual_pkg_in_dict}
use xbps.Dict.{find_pkg_in_dict}
use xbps.Virtual.{
  Virtuals, vpkg_user_conf, first_providing, by_conf_in_dict, find_virtualpkg_in_dict,
}

-- The configuration names no package for the virtual one, or none that is in the dictionary.
abbrev pub Unconfigured : (v : Versions) → List Virtuals → List Installed → CStr → Type 0
Unconfigured v vpkgd d pkg =
    (vpkg : CStr) → vpkg_user_conf v vpkgd pkg ≡ ret (some vpkg) → find_pkg_in_dict v d vpkg ≡ none

-- The package that the configuration names; where there is none, the first one that provides it;
-- and nothing, when no package of the dictionary provides it either.
pub data Answer (v : Versions) (vpkgd : List Virtuals) (d : List Installed) (pkg : CStr)
    : Option Installed → Type 0 where
  by_conf :
      {obj : Installed} (vpkg : CStr)
      → vpkg_user_conf v vpkgd pkg ≡ ret (some vpkg)
      → find_pkg_in_dict v d vpkg ≡ some obj
      → Answer v vpkgd d pkg (some obj)
  by_provides :
      {obj : Installed} (before after : List Installed)
      → Unconfigured v vpkgd d pkg
      → d ≡ before ++ obj ∷ after
      → All (λ o. match_virtual_pkg_in_dict v o.pkgd.provides pkg ≡ false) before
      → match_virtual_pkg_in_dict v obj.pkgd.provides pkg ≡ true
      → Answer v vpkgd d pkg (some obj)
  nowhere :
      Unconfigured v vpkgd d pkg
      → All (λ o. match_virtual_pkg_in_dict v o.pkgd.provides pkg ≡ false) d
      → Answer v vpkgd d pkg none

module _ (v : Versions) (pkg : CStr) where
  first_providing-none :
      (d : List Installed)
      → first_providing v d pkg ≡ none
      → All (λ o. match_virtual_pkg_in_dict v o.pkgd.provides pkg ≡ false) d
  unfolding first_providing
  first_providing-none [] h = tt
  first_providing-none (o ∷ d) h =
      elim (Bool-cases (match_virtual_pkg_in_dict v o.pkgd.provides pkg)) [
        | inl e ↦ absurd (ground arith)
        | inr e ↦ (e, first_providing-none d (ground arith))
      ]

  first_providing-some :
      (d : List Installed) {obj : Installed}
      → first_providing v d pkg ≡ some obj
      → (before after : List Installed) × (d ≡ before ++ obj ∷ after)
        × All (λ o. match_virtual_pkg_in_dict v o.pkgd.provides pkg ≡ false) before
        × (match_virtual_pkg_in_dict v obj.pkgd.provides pkg ≡ true)
  unfolding first_providing
  first_providing-some [] h = absurd (cc)
  first_providing-some (o ∷ d) {obj} h =
      elim (Bool-cases (match_virtual_pkg_in_dict v o.pkgd.provides pkg)) [
        | inl e ↦ let same : o ≡ obj = ground arith in rw (← same) ([], d, refl, tt, e)
        | inr e ↦
            let (b, a, s, n, m) = first_providing-some d {obj = obj} (ground arith) in
            (o ∷ b, a, ap (◌∷◌ o) s, (e, n), m)
      ]

module _ (v : Versions) (vpkgd : List Virtuals) (pkg : CStr) where
  -- The search with the package of the configuration at hand.
  answered :
      (d : List Installed) (r : Option CStr)
      → vpkg_user_conf v vpkgd pkg ≡ ret r
      → (obj : Option Installed) × (find_virtualpkg_in_dict v vpkgd d pkg ≡ ret obj)
        × Answer v vpkgd d pkg obj
  unfolding find_virtualpkg_in_dict by_conf_in_dict
  answered d r e = elim (Option-cases (by_conf_in_dict v d r)) [
    | inl n ↦ elim (Option-cases (first_providing v d pkg)) [
      | inl f ↦
          (none, ground (arith, e, n, f), nowhere (absent r e n) (first_providing-none v pkg d f))
      | inr (o, f) ↦
          let (b, a, s, none_before, m) = first_providing-some v pkg d f in
          (some o, ground (arith, e, n, f), by_provides b a (absent r e n) s none_before m)
    ]
    | inr (o, n) ↦ (some o, ground (arith, e, n), conf r e n)
  ]
    where
      absent :
          (r : Option CStr)
          → vpkg_user_conf v vpkgd pkg ≡ ret r
          → by_conf_in_dict v d r ≡ none
          → Unconfigured v vpkgd d pkg
      absent none e n vpkg f = absurd (ground (arith, e, f))
      absent (some w) e n vpkg f =
          let same : w ≡ vpkg = ground (arith, e, f) in
          subst (λ w. find_pkg_in_dict v d w ≡ none) same n

      conf :
          (r : Option CStr)
          → vpkg_user_conf v vpkgd pkg ≡ ret r
          → {o : Installed} → by_conf_in_dict v d r ≡ some o
          → Answer v vpkgd d pkg (some o)
      conf none e n = absurd (cc)
      conf (some vpkg) e n = by_conf vpkg e n

-- A search for a virtual package that does not abort gives the package of the dictionary that the
-- configuration names for it; only where it names none, or none that is there, the first one that
-- provides it; and nothing only if, besides, no package of the dictionary provides it.
pub find_virtualpkg_in_dict-Answer :
    (v : Versions) (vpkgd : List Virtuals) (d : List Installed) (pkg : CStr)
    → find_virtualpkg_in_dict v vpkgd d pkg ≢ abort
    → (obj : Option Installed) × (find_virtualpkg_in_dict v vpkgd d pkg ≡ ret obj)
      × Answer v vpkgd d pkg obj
unfolding find_virtualpkg_in_dict
find_virtualpkg_in_dict-Answer v vpkgd d pkg h = go (vpkg_user_conf v vpkgd pkg) refl
  where
    go :
        (r : Run (Option CStr))
        → vpkg_user_conf v vpkgd pkg ≡ r
        → (obj : Option Installed) × (find_virtualpkg_in_dict v vpkgd d pkg ≡ ret obj)
          × Answer v vpkgd d pkg obj
    go (ret r) e = answered v vpkgd pkg d r e
    go abort e = absurd (h (ground (arith, e)))
