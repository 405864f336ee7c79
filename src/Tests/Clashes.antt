-- ===== src/Tests/Clashes.antt =====
-- Conflicts of small transactions: lib/transaction_check_conflicts.c.
use xbps.Common.{
  Bool, Option, none, some, List, [], ◌∷◌, ◌≡◌, refl, CStr, codes, Run, ret, In, with_default,
  false,
}
use xbps.Pkg.{Pkg, Installed, TransType, unknown, install, update, remove}
use xbps.Arrays.{find_pkg_in_array}
use xbps.Conflicts.{is_ignored, transaction_check_conflicts}
use xbps.Conflicts.Entries.{InConflict, InConflictQueued}
use xbps.Conflicts.Reported.{transaction_check_conflicts-nothing}
use xbps.Tests.Queue.{versions}

abbrev clashing : CStr → CStr → TransType → List CStr → Pkg
clashing name ver ttype cflicts = record {
  pkgver = some ver;
  pkgname = some name;
  repository = none;
  state = none;
  transaction = ttype;
  automatic_install = none;
  hold = none;
  repolock = none;
  replaced = none;
  preserve = none;
  provides = none;
  replaces = none;
  conflicts = some cflicts;
  run_depends = none;
  reverts = none;
  shlib_provides = none;
  shlib_requires = none;
}

abbrev new_a : Pkg
new_a = clashing (codes "a") (codes "a-1_1") install (codes "b" ∷ [])

abbrev old_b : Pkg
old_b = clashing (codes "b") (codes "b-1_1") remove []

abbrev newer_b : Pkg
newer_b = clashing (codes "b") (codes "b-2_1") update []

abbrev installed_b : List Installed
installed_b =
    record { key = codes "b"; pkgd = clashing (codes "b") (codes "b-1_1") unknown [] } ∷ []

reported :
    transaction_check_conflicts versions [] installed_b (new_a ∷ [])
    ≡ ret (codes "CONFLICT: a-1_1 with installed pkg b-1_1 (matched by b)" ∷ [])
unfolding transaction_check_conflicts xbps.Conflicts.all_trans xbps.Conflicts.pkg_conflicts_trans
    xbps.Conflicts.check_entries xbps.Conflicts.check_trans xbps.Conflicts.installed_match
    xbps.Conflicts.check_installed_pkg xbps.Conflicts.is_ignored xbps.Dict.find_pkg_in_dict
    xbps.Common.streq xbps.Common.strpbrk xbps.Common.in_set xbps.Common.strrchr
    xbps.Util.Pattern.pkgpattern_version xbps.Util.Pkgver.pkg_version find_pkg_in_array
    xbps.Util.Pkgver.pkg_name xbps.Arrays.first_wanted xbps.Arrays.get_pkg_in_array
    xbps.Arrays.is_wanted xbps.Arrays.of_type xbps.Arrays.tests xbps.Common.is_digit
    xbps.Common.strchr xbps.Conflicts.all_installed xbps.Conflicts.check_queued
    xbps.Conflicts.check_queued_pkg xbps.Conflicts.is_superseded xbps.Conflicts.pkgdb_conflicts_cb
    xbps.Conflicts.queued_match xbps.Dict.dict_get xbps.Dict.match_pkg_by_pattern
    xbps.Dict.match_pkg_by_pkgver xbps.Match.match_string_in_array
    xbps.Match.match_virtual_pkg_in_array xbps.Match.match_virtual_pkg_in_dict xbps.Match.probe
    xbps.Util.Pattern.byte_at xbps.Util.Pattern.pattern_name_at xbps.Util.Pattern.pkgpattern_match
    xbps.Util.Pattern.pkgpattern_name xbps.Util.Pkgver.is_revision xbps.Util.Pkgver.is_revision_rest
    xbps.Util.Pkgver.name_loop xbps.Util.Pkgver.version_loop xbps.Virtual.by_conf_in_array
    xbps.Virtual.by_conf_in_dict xbps.Virtual.find_virtualpkg_in_array
    xbps.Virtual.find_virtualpkg_in_dict xbps.Virtual.first_provider xbps.Virtual.first_providing
    xbps.Virtual.providers_of xbps.Virtual.vpkg_user_conf xbps.Virtual.wanted_of
reported = refl

removed_first : transaction_check_conflicts versions [] installed_b (new_a ∷ old_b ∷ []) ≡ ret []
unfolding transaction_check_conflicts xbps.Conflicts.all_trans xbps.Conflicts.pkg_conflicts_trans
    xbps.Conflicts.check_entries xbps.Conflicts.check_trans xbps.Conflicts.installed_match
    xbps.Conflicts.check_installed_pkg xbps.Conflicts.is_ignored xbps.Dict.find_pkg_in_dict
    xbps.Common.streq xbps.Common.strpbrk xbps.Common.in_set xbps.Common.strrchr
    xbps.Util.Pattern.pkgpattern_version xbps.Util.Pkgver.pkg_version find_pkg_in_array
    xbps.Util.Pkgver.pkg_name xbps.Arrays.first_wanted xbps.Arrays.get_pkg_in_array
    xbps.Arrays.is_wanted xbps.Arrays.of_type xbps.Arrays.tests xbps.Common.is_digit
    xbps.Common.strchr xbps.Conflicts.all_installed xbps.Conflicts.check_queued
    xbps.Conflicts.check_queued_pkg xbps.Conflicts.is_superseded xbps.Conflicts.pkgdb_conflicts_cb
    xbps.Conflicts.queued_match xbps.Dict.dict_get xbps.Dict.match_pkg_by_pattern
    xbps.Dict.match_pkg_by_pkgver xbps.Match.match_string_in_array
    xbps.Match.match_virtual_pkg_in_array xbps.Match.match_virtual_pkg_in_dict xbps.Match.probe
    xbps.Util.Pattern.byte_at xbps.Util.Pattern.pattern_name_at xbps.Util.Pattern.pkgpattern_match
    xbps.Util.Pattern.pkgpattern_name xbps.Util.Pkgver.is_revision xbps.Util.Pkgver.is_revision_rest
    xbps.Util.Pkgver.name_loop xbps.Util.Pkgver.version_loop xbps.Virtual.by_conf_in_array
    xbps.Virtual.by_conf_in_dict xbps.Virtual.find_virtualpkg_in_array
    xbps.Virtual.find_virtualpkg_in_dict xbps.Virtual.first_provider xbps.Virtual.first_providing
    xbps.Virtual.providers_of xbps.Virtual.vpkg_user_conf xbps.Virtual.wanted_of
removed_first = refl

-- The new version of the installed package is in conflict too, and this is not reported.
updated_unseen : transaction_check_conflicts versions [] installed_b (new_a ∷ newer_b ∷ []) ≡ ret []
unfolding transaction_check_conflicts xbps.Conflicts.all_trans xbps.Conflicts.pkg_conflicts_trans
    xbps.Conflicts.check_entries xbps.Conflicts.check_trans xbps.Conflicts.installed_match
    xbps.Conflicts.check_installed_pkg xbps.Conflicts.is_ignored xbps.Dict.find_pkg_in_dict
    xbps.Common.streq xbps.Common.strpbrk xbps.Common.in_set xbps.Common.strrchr
    xbps.Util.Pattern.pkgpattern_version xbps.Util.Pkgver.pkg_version find_pkg_in_array
    xbps.Util.Pkgver.pkg_name xbps.Arrays.first_wanted xbps.Arrays.get_pkg_in_array
    xbps.Arrays.is_wanted xbps.Arrays.of_type xbps.Arrays.tests xbps.Common.is_digit
    xbps.Common.strchr xbps.Conflicts.all_installed xbps.Conflicts.check_queued
    xbps.Conflicts.check_queued_pkg xbps.Conflicts.is_superseded xbps.Conflicts.pkgdb_conflicts_cb
    xbps.Conflicts.queued_match xbps.Dict.dict_get xbps.Dict.match_pkg_by_pattern
    xbps.Dict.match_pkg_by_pkgver xbps.Match.match_string_in_array
    xbps.Match.match_virtual_pkg_in_array xbps.Match.match_virtual_pkg_in_dict xbps.Match.probe
    xbps.Util.Pattern.byte_at xbps.Util.Pattern.pattern_name_at xbps.Util.Pattern.pkgpattern_match
    xbps.Util.Pattern.pkgpattern_name xbps.Util.Pkgver.is_revision xbps.Util.Pkgver.is_revision_rest
    xbps.Util.Pkgver.name_loop xbps.Util.Pkgver.version_loop xbps.Virtual.by_conf_in_array
    xbps.Virtual.by_conf_in_dict xbps.Virtual.find_virtualpkg_in_array
    xbps.Virtual.find_virtualpkg_in_dict xbps.Virtual.first_provider xbps.Virtual.first_providing
    xbps.Virtual.providers_of xbps.Virtual.vpkg_user_conf xbps.Virtual.wanted_of
updated_unseen = refl

updated_alone :
    transaction_check_conflicts versions [] [] (new_a ∷ newer_b ∷ [])
    ≡ ret (codes "CONFLICT: a-1_1 with b-2_1 in transaction (matched by b)" ∷ [])
unfolding transaction_check_conflicts xbps.Conflicts.all_trans xbps.Conflicts.pkg_conflicts_trans
    xbps.Conflicts.check_entries xbps.Conflicts.check_trans xbps.Conflicts.installed_match
    xbps.Conflicts.check_installed_pkg xbps.Conflicts.is_ignored xbps.Dict.find_pkg_in_dict
    xbps.Common.streq xbps.Common.strpbrk xbps.Common.in_set xbps.Common.strrchr
    xbps.Util.Pattern.pkgpattern_version xbps.Util.Pkgver.pkg_version find_pkg_in_array
    xbps.Util.Pkgver.pkg_name xbps.Arrays.first_wanted xbps.Arrays.get_pkg_in_array
    xbps.Arrays.is_wanted xbps.Arrays.of_type xbps.Arrays.tests xbps.Common.is_digit
    xbps.Common.strchr xbps.Conflicts.all_installed xbps.Conflicts.check_queued
    xbps.Conflicts.check_queued_pkg xbps.Conflicts.is_superseded xbps.Conflicts.pkgdb_conflicts_cb
    xbps.Conflicts.queued_match xbps.Dict.dict_get xbps.Dict.match_pkg_by_pattern
    xbps.Dict.match_pkg_by_pkgver xbps.Match.match_string_in_array
    xbps.Match.match_virtual_pkg_in_array xbps.Match.match_virtual_pkg_in_dict xbps.Match.probe
    xbps.Util.Pattern.byte_at xbps.Util.Pattern.pattern_name_at xbps.Util.Pattern.pkgpattern_match
    xbps.Util.Pattern.pkgpattern_name xbps.Util.Pkgver.is_revision xbps.Util.Pkgver.is_revision_rest
    xbps.Util.Pkgver.name_loop xbps.Util.Pkgver.version_loop xbps.Virtual.by_conf_in_array
    xbps.Virtual.by_conf_in_dict xbps.Virtual.find_virtualpkg_in_array
    xbps.Virtual.find_virtualpkg_in_dict xbps.Virtual.first_provider xbps.Virtual.first_providing
    xbps.Virtual.providers_of xbps.Virtual.vpkg_user_conf xbps.Virtual.wanted_of
updated_alone = refl

transaction_check_conflicts-nothing_example :
    ((p : Pkg) (name cfpkg : CStr)
      → In p (new_a ∷ old_b ∷ [])
      → is_ignored p ≡ false
      → p.pkgname ≡ some name
      → In cfpkg (with_default [] p.conflicts)
      → ¬ InConflict versions [] installed_b (new_a ∷ old_b ∷ []) name cfpkg)
    × ((obj : Installed) (name cfpkg : CStr)
        → In obj installed_b
        → find_pkg_in_array versions (new_a ∷ old_b ∷ []) name unknown ≡ ret none
        → obj.pkgd.pkgname ≡ some name
        → In cfpkg (with_default [] obj.pkgd.conflicts)
        → ¬ InConflictQueued versions [] installed_b (new_a ∷ old_b ∷ []) name cfpkg)
transaction_check_conflicts-nothing_example =
    transaction_check_conflicts-nothing versions [] installed_b (new_a ∷ old_b ∷ []) removed_first
