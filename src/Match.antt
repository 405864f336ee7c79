-- ===== src/Match.antt =====
-- lib/plist_match.c: searches in arrays of strings.
pub mod FirstHit
use xbps.Common.{
  Bool, true, false, ◌||◌, Option, none, some, List, [], ◌∷◌, if◌then◌else◌, CStr, streq, is_some,
  truthy, any,
}
use xbps.Util.Pkgver.{pkg_name, pkg_version, name_size}
use xbps.Util.Pattern.{pkgpattern_version}
use xbps.Versions.{Versions, pattern_match}

-- The argument `mode` of match_string_in_array, 0 to 4.
pub data Mode : Type 0 where
  by_string : Mode
  pkgname_against_pkgvers : Mode
  pkgver_against_pkgnames : Mode
  pattern_against_pkgdeps : Mode
  pkgdep_against_patterns : Mode

-- What one round does: `found = true; break`, go on, or `break`.
pub data Probe : Type 0 where
  hit miss stop : Probe

abbrev probe_if : Bool → Probe
probe_if true = hit
probe_if false = miss

module _ (v : Versions) where
  unfoldable pub probe : Mode → CStr → CStr → Probe
  probe by_string str obj = probe_if (streq obj str)
  probe pkgname_against_pkgvers str obj = elim (pkg_name name_size obj) [
    | none ↦ stop
    | some pkgname ↦ probe_if (streq pkgname str)
  ]
  probe pkgver_against_pkgnames str obj = elim (pkg_name name_size str) [
    | none ↦ stop
    | some pkgname ↦ probe_if (streq pkgname obj)
  ]
  probe pattern_against_pkgdeps str obj = probe_if (truthy (pattern_match v obj str))
  probe pkgdep_against_patterns str obj = probe_if (truthy (pattern_match v str obj))

  unfoldable pub match_string_in_array : Mode → CStr → List CStr → Bool
  match_string_in_array mode str [] = false
  match_string_in_array mode str (obj ∷ objs) = elim (probe mode str obj) [
    | hit ↦ true
    | miss ↦ match_string_in_array mode str objs
    | stop ↦ false
  ]

  unfoldable pub match_virtual_pkg_in_array : List CStr → CStr → Bool
  unfolding match_string_in_array probe
  match_virtual_pkg_in_array a str =
      if is_some (pkgpattern_version str)
      then match_string_in_array pkgdep_against_patterns str a
        || match_string_in_array pattern_against_pkgdeps str a
      else if is_some (pkg_version str)
      then match_string_in_array by_string str a
      else match_string_in_array pkgname_against_pkgvers str a

  -- `provides` is that of the dictionary.
  unfoldable pub match_virtual_pkg_in_dict : Option (List CStr) → CStr → Bool
  unfolding match_virtual_pkg_in_array
  match_virtual_pkg_in_dict none str = false
  match_virtual_pkg_in_dict (some provides) str = match_virtual_pkg_in_array provides str

  -- The inner loop of xbps_match_any_virtualpkg_in_rundeps.
  unfoldable pub match_in_rundeps : CStr → List CStr → Bool
  match_in_rundeps vpkgver [] = false
  match_in_rundeps vpkgver (pkgpattern ∷ rundeps) =
      let rest = match_in_rundeps vpkgver rundeps in
      if truthy (pattern_match v vpkgver pkgpattern) then true else rest

  unfoldable pub match_any_virtualpkg_in_rundeps : List CStr → List CStr → Bool
  match_any_virtualpkg_in_rundeps rundeps [] = false
  match_any_virtualpkg_in_rundeps rundeps (vpkgver ∷ provides) =
      let rest = match_any_virtualpkg_in_rundeps rundeps provides in
      if match_in_rundeps vpkgver rundeps then true else rest
