-- ===== src/Util/Binpkg/File.antt =====
-- The name that the repositories give to a binary package file, read back.
use xbps.Common.{
  ℕ, ◌-◌, some, ◌∷◌, ◌++◌, ◌≡◌, refl, CStr, length, Free, nil, cons, strrchr-append, length-append,
  take-length-append, arith, codes,
}
use xbps.Util.Pkgver.{pkg_version}
use xbps.Util.Binpkg.{base_name, binpkg_stem, binpkg_pkgver, binpkg_arch}

-- `%s.%s.xbps`
abbrev pub binpkg_file : CStr → CStr → CStr
binpkg_file pkgver arch = (pkgver ++ b'.' ∷ arch) ++ codes ".xbps"

-- The file in a directory.
abbrev pub in_dir : CStr → CStr → CStr
in_dir dir file = dir ++ b'/' ∷ file

Free-append : {c : ℕ} {a b : CStr} → Free c a → Free c b → Free c (a ++ b)
Free-append nil g = g
Free-append (cons h f) g = cons h (Free-append f g)

base_name-in_dir : (dir file : CStr) → Free b'/' file → base_name (in_dir dir file) ≡ file
unfolding base_name
base_name-in_dir dir file f = rw (base_name, strrchr-append dir f) refl

xbps_slash : Free b'/' (codes ".xbps")
xbps_slash =
    cons (λ h. omega arith)
      (cons (λ h. omega arith)
        (cons (λ h. omega arith) (cons (λ h. omega arith) (cons (λ h. omega arith) nil))))

module _ (dir pkgver arch : CStr) (no_slash : Free b'/' pkgver)
    (arch_no_slash : Free b'/' arch) where
  stem-file : binpkg_stem (in_dir dir (binpkg_file pkgver arch)) ≡ some (pkgver ++ b'.' ∷ arch)
  unfolding binpkg_stem
  stem-file =
      let p = pkgver ++ b'.' ∷ arch in
      let b =
        base_name-in_dir dir (binpkg_file pkgver arch)
          (Free-append (Free-append no_slash (cons (λ h. omega arith) arch_no_slash)) xbps_slash) in
      let n = length-append p (codes ".xbps") in
      let t =
        take-length-append (length (binpkg_file pkgver arch) - 5) p (codes ".xbps")
          (omega (arith, n)) in
      ground (arith, b, n, t)

  -- The file name of a binary package, made of a pkgver that has a version and of an architecture
  -- without a dot, neither with a slash, in any directory, gives this pkgver and this architecture.
  pub binpkg_round_trip :
      Free b'.' arch
      → (version : CStr) → pkg_version pkgver ≡ some version
      → (binpkg_pkgver (in_dir dir (binpkg_file pkgver arch)) ≡ some pkgver)
        × (binpkg_arch (in_dir dir (binpkg_file pkgver arch)) ≡ some arch)
  unfolding binpkg_pkgver binpkg_arch
  binpkg_round_trip no_dot version v =
      let s = stem-file in
      let r = strrchr-append pkgver no_dot in
      let n = length-append pkgver (b'.' ∷ arch) in
      let t =
        take-length-append (length (pkgver ++ b'.' ∷ arch) - length (b'.' ∷ arch)) pkgver
          (b'.' ∷ arch) (omega (arith, n)) in
      (rw (binpkg_pkgver, s, r, t, v) refl, rw (binpkg_arch, s, r) refl)
