-- ===== src/Tests/Binpkgs.antt =====
-- Names of binary package files, and paths with repeated slashes: lib/util.c.
use xbps.Common.{Option, none, some, List, [], ◌∷◌, ◌≡◌, refl, CStr, codes, Free, nil, cons, arith}
use xbps.Common.{false}
use xbps.Paths.Clean.Canonical.{split}
use xbps.Util.Slashes.{sanitize_path, has_double, filled, sanitize_path-filled}
use xbps.Util.Pkgver.{pkg_version}
use xbps.Util.Binpkg.{binpkg_pkgver, binpkg_arch}
use xbps.Util.Binpkg.File.{binpkg_file, in_dir, binpkg_round_trip}

abbrev pkgver : CStr
pkgver = codes "a-1_1"

abbrev arch : CStr
arch = codes "x86"

-- The suffix is not looked at.
other_suffix : binpkg_pkgver (codes "a-1_1.x86.sig2") ≡ some pkgver
unfolding binpkg_pkgver xbps.Util.Binpkg.binpkg_stem xbps.Util.Pkgver.pkg_version
    xbps.Common.strrchr xbps.Util.Pkgver.version_loop xbps.Common.is_digit xbps.Common.strchr
    xbps.Util.Pkgver.is_revision xbps.Util.Pkgver.is_revision_rest
other_suffix = refl

version_of : pkg_version pkgver ≡ some (codes "1_1")
unfolding xbps.Util.Pkgver.pkg_version xbps.Common.strrchr xbps.Util.Pkgver.version_loop
    xbps.Common.is_digit xbps.Common.strchr xbps.Util.Pkgver.is_revision
    xbps.Util.Pkgver.is_revision_rest
version_of = refl

binpkg_round_trip_example :
    (binpkg_pkgver (in_dir (codes "/tmp") (binpkg_file pkgver arch)) ≡ some pkgver)
    × (binpkg_arch (in_dir (codes "/tmp") (binpkg_file pkgver arch)) ≡ some arch)
binpkg_round_trip_example =
    binpkg_round_trip (codes "/tmp") pkgver arch
      (cons (λ h. omega arith)
        (cons (λ h. omega arith)
          (cons (λ h. omega arith) (cons (λ h. omega arith) (cons (λ h. omega arith) nil)))))
      (cons (λ h. omega arith) (cons (λ h. omega arith) (cons (λ h. omega arith) nil)))
      (cons (λ h. omega arith) (cons (λ h. omega arith) (cons (λ h. omega arith) nil)))
      (codes "1_1") version_of

abbrev slashes : CStr
slashes = codes "//usr///bin/"

sanitized : sanitize_path slashes ≡ codes "/usr/bin/"
unfolding sanitize_path
sanitized = refl

sanitize_path-filled_example :
    (has_double (sanitize_path slashes) ≡ false)
    × (filled ((split (sanitize_path slashes)).0 ∷ (split (sanitize_path slashes)).1)
        ≡ filled ((split slashes).0 ∷ (split slashes).1))
sanitize_path-filled_example = sanitize_path-filled slashes
