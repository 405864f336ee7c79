-- ===== src/Util/Binpkg.antt =====
-- lib/util.c: the pkgver and the architecture out of the name of a binary package file, such as
-- `/var/cache/xbps/foo-1.0_1.x86_64.xbps`.
pub mod File
use xbps.Common.{
  ℕ, ◌-◌, Bool, Option, none, some, CStr, if◌then◌else◌, ltb, length, take, drop, strrchr, is_some,
}
use xbps.Util.Pkgver.{pkg_version}

-- The path is skipped.
unfoldable pub base_name : CStr → CStr
base_name pkg = elim (strrchr pkg b'/') [ none ↦ pkg | some p ↦ drop 1 p ]

-- `p`, the name without the five bytes of `.xbps`; whether they are these is not tested.
unfoldable pub binpkg_stem : CStr → Option CStr
unfolding base_name
binpkg_stem pkg =
    let fname = base_name pkg in
    if ltb (length fname) 5 then none else some (take (length fname - 5) fname)

unfoldable pub binpkg_pkgver : CStr → Option CStr
binpkg_pkgver pkg = elim (binpkg_stem pkg) [
  | none ↦ none
  | some p ↦ elim (strrchr p b'.') [
    | none ↦ none
    | some p1 ↦
        let res = take (length p - length p1) p in
        if is_some (pkg_version res) then some res else none
  ]
]

unfoldable pub binpkg_arch : CStr → Option CStr
binpkg_arch pkg = elim (binpkg_stem pkg) [
  | none ↦ none
  | some p ↦ elim (strrchr p b'.') [ none ↦ none | some p1 ↦ some (drop 1 p1) ]
]
