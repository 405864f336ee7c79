-- ===== src/Virtual.antt =====
-- lib/plist_find.c: virtual packages, by the configuration and by `provides`; lib/pkgdb.c: searches
-- in the package database.
pub mod Found
use xbps.Common.{
  Bool, true, false, ◌&&◌, Option, none, some, List, [], ◌∷◌, if◌then◌else◌, CStr, streq, is_some,
  truthy, Run, ret, abort, ◌>>=◌,
}
use xbps.Util.Pkgver.{pkg_name, pkg_version, name_size}
use xbps.Util.Pattern.{pkgpattern_name, pkgpattern_version}
use xbps.Versions.{Versions, pattern_match}
use xbps.Pkg.{Pkg, Installed, TransType}
use xbps.Match.{match_virtual_pkg_in_dict}
use xbps.Arrays.{get_pkg_in_array}
use xbps.Dict.{match_pkg_by_pattern, match_pkg_by_pkgver, dict_get, find_pkg_in_dict}

-- An entry of a dictionary of providers: the virtual package, and the package that provides it.
pub record Provider : Type 0 where
  pub vpkg_conf : CStr
  pub pkg : CStr

-- xhp->vpkgd, by package name.
pub record Virtuals : Type 0 where
  pub key : CStr
  pub providers : List Provider

-- `none` is a missing key.
unfoldable pub providers_of : List Virtuals → CStr → Option (List Provider)
providers_of [] name = none
providers_of (v ∷ vpkgd) name =
    if streq v.key name then some v.providers else providers_of vpkgd name

-- The variables `buf` and `vpkgname` of a round.
pub record RoundNames : Type 0 where
  pub buf : CStr
  pub vpkgname : CStr

unfoldable pub names_of : CStr → Run RoundNames
names_of vpkg_conf =
    if is_some (pkg_version vpkg_conf)
    then elim (pkg_name name_size vpkg_conf) [
      | none ↦ abort
      | some buf ↦ ret (record { buf = buf; vpkgname = buf })
    ]
    else ret (record { buf = []; vpkgname = vpkg_conf })

-- The local enum `match` of vpkg_user_conf, with `pkgname`.
pub data Wanted : Type 0 where
  pkgpattern : CStr → Wanted
  pkgver : CStr → Wanted
  pkgname : CStr → Wanted

unfoldable pub wanted_of : CStr → Wanted
wanted_of vpkg = elim (pkgpattern_name name_size vpkg) [
  | some name ↦ pkgpattern name
  | none ↦ elim (pkg_name name_size vpkg) [ some name ↦ pkgver name | none ↦ pkgname vpkg ]
]

abbrev pub wanted_name : Wanted → CStr
wanted_name (pkgpattern name) = name
wanted_name (pkgver name) = name
wanted_name (pkgname name) = name

module _ (v : Versions) where
  -- The switch: whether the round breaks with `found`.
  unfoldable pub accepts : Wanted → CStr → CStr → RoundNames → Bool
  accepts (pkgpattern name) vpkg vpkg_conf r =
      if is_some (pkg_version vpkg_conf) then truthy (pattern_match v vpkg_conf vpkg) else true
  accepts (pkgver name) vpkg vpkg_conf r = streq r.buf r.vpkgname
  accepts (pkgname name) vpkg vpkg_conf r = streq vpkg r.vpkgname

  -- The loop over the providers; the result is `pkg` of the round that was found.
  unfoldable pub first_provider : Wanted → CStr → List Provider → Run (Option CStr)
  unfolding accepts names_of
  first_provider w vpkg [] = ret none
  first_provider w vpkg (p ∷ providers) = names_of p.vpkg_conf >>= λ r.
      elim (accepts w vpkg p.vpkg_conf r) [
        | true ↦ ret (some p.pkg)
        | false ↦ first_provider w vpkg providers
      ]

  unfoldable pub vpkg_user_conf : List Virtuals → CStr → Run (Option CStr)
  unfolding wanted_of
  vpkg_user_conf vpkgd vpkg = elim (providers_of vpkgd (wanted_name (wanted_of vpkg))) [
    | none ↦ ret none
    | some providers ↦ first_provider (wanted_of vpkg) vpkg providers
  ]

  -- What the configuration names is searched first; `otherwise` is the rest of the function.
  unfoldable pub by_conf_in_array :
      List Pkg → TransType → Option CStr → Run (Option Pkg) → Run (Option Pkg)
  by_conf_in_array a tt none otherwise = otherwise
  by_conf_in_array a tt (some vpkg) otherwise = get_pkg_in_array v a vpkg tt true >>= λ pkgd.
      elim pkgd [ none ↦ otherwise | some p ↦ ret (some p) ]

  unfoldable pub find_virtualpkg_in_array :
      List Virtuals → List Pkg → CStr → TransType → Run (Option Pkg)
  unfolding by_conf_in_array
  find_virtualpkg_in_array vpkgd a s tt =
      vpkg_user_conf vpkgd s >>= λ vpkg. by_conf_in_array a tt vpkg (get_pkg_in_array v a s tt true)

  -- The test of find_virtualpkg_in_conf. `unset` is what the array `vpkgver` happens to hold: the
  -- code prints into `buf` and then reads `vpkgver`. The name of a pkgver is written into `buf`, to
  -- which `vpkgname` points where the key has a version: it is compared with itself.
  unfoldable pub accepts_conf : CStr → CStr → CStr → RoundNames → Run Bool
  accepts_conf unset pkg vpkg_conf r =
      if is_some (pkgpattern_version pkg)
      then ret (
          truthy
            (pattern_match v (if is_some (pkg_version vpkg_conf) then vpkg_conf else unset) pkg))
      else if is_some (pkg_version pkg)
      then elim (pkg_name name_size pkg) [
        | none ↦ abort
        | some buf ↦ ret (if is_some (pkg_version vpkg_conf) then true else streq buf r.vpkgname)
      ]
      else ret (streq pkg r.vpkgname)

  unfoldable pub conf_provider :
      CStr → CStr → List Installed → List Provider → Run (Option Installed)
  unfolding accepts_conf names_of
  conf_provider unset pkg d [] = ret none
  conf_provider unset pkg d (p ∷ providers) = names_of p.vpkg_conf >>= λ r.
      accepts_conf unset pkg p.vpkg_conf r >>= λ found. elim found [
        | true ↦ ret (find_pkg_in_dict v d p.pkg)
        | false ↦ conf_provider unset pkg d providers
      ]

  -- `vpkgd_conf` is `none` where the handle has none.
  unfoldable pub find_virtualpkg_in_conf :
      CStr → Option (List Virtuals) → List Installed → CStr → Run (Option Installed)
  unfolding conf_provider
  find_virtualpkg_in_conf unset none d pkg = ret none
  find_virtualpkg_in_conf unset (some vpkgd_conf) d pkg = elim (providers_of vpkgd_conf pkg) [
    | none ↦ ret none
    | some providers ↦ conf_provider unset pkg d providers
  ]

  -- The first entry of the dictionary that provides the package.
  unfoldable pub first_providing : List Installed → CStr → Option Installed
  first_providing [] pkg = none
  first_providing (obj ∷ d) pkg =
      if match_virtual_pkg_in_dict v obj.pkgd.provides pkg then some obj else first_providing d pkg

  -- The three ways to match the package of the configuration are those of find_pkg_in_dict.
  unfoldable pub by_conf_in_dict : List Installed → Option CStr → Option Installed
  by_conf_in_dict d none = none
  by_conf_in_dict d (some vpkg) = find_pkg_in_dict v d vpkg

  unfoldable pub find_virtualpkg_in_dict :
      List Virtuals → List Installed → CStr → Run (Option Installed)
  unfolding by_conf_in_dict first_providing
  find_virtualpkg_in_dict vpkgd d pkg = vpkg_user_conf vpkgd pkg >>= λ vpkg.
      ret (elim (by_conf_in_dict d vpkg) [ none ↦ first_providing d pkg | some obj ↦ some obj ])

  -- xbps_pkgdb_get_pkg and xbps_pkgdb_get_virtualpkg, on an open database.
  abbrev pub pkgdb_get_pkg : List Installed → CStr → Option Installed
  pkgdb_get_pkg pkgdb pkg = find_pkg_in_dict v pkgdb pkg

  abbrev pub pkgdb_get_virtualpkg : List Virtuals → List Installed → CStr → Run (Option Installed)
  pkgdb_get_virtualpkg vpkgd pkgdb vpkg = find_virtualpkg_in_dict vpkgd pkgdb vpkg
