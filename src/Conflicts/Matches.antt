-- ===== src/Conflicts/Matches.antt =====
-- A package that a search of the transaction finds has a pkgver.
use xbps.Common.{
  Bool, true, false, Option, none, some, List, [], ◌∷◌, ◌≡◌, refl, subst, ◌∙◌, CStr, Run, ret,
  abort, >>=-ret, arith, Option-cases, inl, inr,
}
use xbps.Versions.{Versions}
use xbps.Pkg.{Pkg, Installed, unknown}
use xbps.Arrays.{find_pkg_in_array, get_pkg_in_array, first_wanted, is_wanted, of_type}
use xbps.Virtual.{Virtuals, find_virtualpkg_in_array, by_conf_in_array, vpkg_user_conf}
use xbps.Conflicts.{queued_match}

module _ (v : Versions) (vpkgd : List Virtuals) (pkgs : List Pkg) where
  first_wanted-HasVer :
      (array : List Pkg) (str : CStr) (virtual : Bool) {q : Pkg}
      → first_wanted v array str virtual ≡ ret (some q)
      → (ver : CStr) × (q.pkgver ≡ some ver)
  unfolding first_wanted is_wanted
  first_wanted-HasVer [] str virtual h = absurd (ground arith)
  first_wanted-HasVer (obj ∷ array) str virtual {q} h =
      go (is_wanted v str virtual obj) refl (λ e. first_wanted-HasVer array str virtual e)
    where
      go :
          (o : Run Bool)
          → is_wanted v str virtual obj ≡ o
          → (first_wanted v array str virtual ≡ ret (some q) → (ver : CStr) × (q.pkgver ≡ some ver))
          → (ver : CStr) × (q.pkgver ≡ some ver)
      go abort e rec = absurd (ground (arith, e, h))
      go (ret false) e rec = rec (ground (arith, e, h))
      go (ret true) e rec = elim (Option-cases obj.pkgver) [
        | inl n ↦ absurd (ground (arith, e, n))
        | inr (ver, n) ↦
            let same : obj ≡ q = ground (arith, e, h) in
            (ver, subst (λ q. q.pkgver ≡ some ver) same n)
      ]

  get_pkg_in_array-HasVer :
      (array : List Pkg) (str : CStr) (virtual : Bool) {q : Pkg}
      → get_pkg_in_array v array str unknown virtual ≡ ret (some q)
      → (ver : CStr) × (q.pkgver ≡ some ver)
  unfolding get_pkg_in_array of_type
  get_pkg_in_array-HasVer array str virtual {q} h =
      let (r, runs, out) = >>=-ret (first_wanted v array str virtual) _ h in
      elim (Option-cases r) [
        | inl e ↦ absurd (ground (arith, e, out))
        | inr (p, e) ↦
            let same : p ≡ q = ground (arith, e, out) in
            first_wanted-HasVer array str virtual {q = q} (ground (arith, runs, e, same))
      ]

  find_virtualpkg_in_array-HasVer :
      (str : CStr) {q : Pkg}
      → find_virtualpkg_in_array v vpkgd pkgs str unknown ≡ ret (some q)
      → (ver : CStr) × (q.pkgver ≡ some ver)
  unfolding find_virtualpkg_in_array by_conf_in_array
  find_virtualpkg_in_array-HasVer str {q} h =
      let (r, runs, out) = >>=-ret (vpkg_user_conf v vpkgd str) _ h in by_conf r out
    where
      by_conf :
          (r : Option CStr)
          → by_conf_in_array v pkgs unknown r (get_pkg_in_array v pkgs str unknown true)
            ≡ ret (some q)
          → (ver : CStr) × (q.pkgver ≡ some ver)
      by_conf none out = get_pkg_in_array-HasVer pkgs str true out
      by_conf (some vpkg) out =
          let (p, runs, rest) = >>=-ret (get_pkg_in_array v pkgs vpkg unknown true) _ out in
          settled p runs rest
        where
          settled :
              (p : Option Pkg)
              → get_pkg_in_array v pkgs vpkg unknown true ≡ ret p
              → (elim p [ none ↦ get_pkg_in_array v pkgs str unknown true | some o ↦ ret (some o) ])
                ≡ ret (some q)
              → (ver : CStr) × (q.pkgver ≡ some ver)
          settled none runs rest = get_pkg_in_array-HasVer pkgs str true rest
          settled (some o) runs rest = get_pkg_in_array-HasVer pkgs vpkg true (runs ∙ rest)

  pub queued_match-HasVer :
      (pkgdb : List Installed) (cfpkg : CStr) {q : Pkg}
      → queued_match v vpkgd pkgdb pkgs cfpkg ≡ ret (some q)
      → (ver : CStr) × (q.pkgver ≡ some ver)
  unfolding queued_match find_pkg_in_array
  queued_match-HasVer pkgdb cfpkg {q} h =
      let (r, runs, out) = >>=-ret (find_pkg_in_array v pkgs cfpkg unknown) _ h in go r runs out
    where
      go :
          (r : Option Pkg)
          → find_pkg_in_array v pkgs cfpkg unknown ≡ ret r
          → (elim r [
            | some p ↦ ret (some p)
            | none ↦ find_virtualpkg_in_array v vpkgd pkgs cfpkg unknown
          ])
            ≡ ret (some q)
          → (ver : CStr) × (q.pkgver ≡ some ver)
      go none runs out = find_virtualpkg_in_array-HasVer cfpkg out
      go (some p) runs out = get_pkg_in_array-HasVer pkgs cfpkg false (runs ∙ out)
