-- ===== src/Tests/Breakages.antt =====
-- Transactions that break a package, and one that does not: lib/transaction_check_revdeps.c.
use xbps.Common.{
  Bool, true, false, Option, none, some, List, [], ◌∷◌, ◌≡◌, refl, CStr, codes, Run, ret, In, here,
  there, streq,
}
use xbps.Pkg.{Pkg, update, remove}
use xbps.Breakage.{broken_pkg, transaction_check_revdeps}
use xbps.Breakage.Nothing.{IsUnbroken, transaction_check_revdeps-IsUnbroken}
use xbps.Tests.Orphanage.{entry}
use xbps.Tests.Trees.{any_version, lib, chain_db, table}

abbrev new_lib : Pkg
new_lib =
    let e = entry (codes "lib") (codes "lib-2_2") true [] [] in
    record e.pkgd { transaction = update }

abbrev old_lib : Pkg
old_lib = record lib.pkgd { transaction = remove }

removal_breaks :
    transaction_check_revdeps any_version chain_db (old_lib ∷ []) none table
    ≡ ret (true, broken_pkg (codes "app-1_1") (codes "lib-2_1") ∷ [])
unfolding xbps.Util.Pkgver.pkg_name xbps.Common.strrchr xbps.Util.Pkgver.name_loop
    xbps.Common.is_digit xbps.Common.strchr xbps.Util.Pkgver.is_revision
    xbps.Util.Pkgver.is_revision_rest xbps.Breakage.pkg_is_ignored xbps.Revdeps.get_pkg_revdeps
    xbps.Dict.find_pkg_in_dict xbps.Util.Pattern.pkgpattern_version xbps.Common.strpbrk
    xbps.Common.in_set xbps.Util.Pkgver.pkg_version streq xbps.Common.find_key
    transaction_check_revdeps xbps.Breakage.check_each xbps.Breakage.check_obj
    xbps.Breakage.check_revdep xbps.Breakage.check_removed xbps.Breakage.check_kept
    xbps.Breakage.check_real xbps.Breakage.check_virtual_pkgs xbps.Breakage.rev_pkgd
    xbps.Breakage.depends_on xbps.Revdeps.dep_name xbps.Util.Pattern.pkgpattern_name
    xbps.Util.Pattern.pattern_name_at xbps.Util.Pattern.pkgpattern_match
    xbps.Match.match_string_in_array xbps.Match.probe xbps.Arrays.find_pkg_in_array
    xbps.Arrays.get_pkg_in_array xbps.Arrays.first_wanted xbps.Arrays.is_wanted xbps.Arrays.tests
    xbps.Arrays.of_type xbps.Util.Pkgver.version_loop xbps.Dict.dict_get
    xbps.Dict.match_pkg_by_pkgver
removal_breaks = refl

update_passes :
    transaction_check_revdeps any_version chain_db (new_lib ∷ []) none table ≡ ret (true, [])
unfolding xbps.Util.Pkgver.pkg_name xbps.Common.strrchr xbps.Util.Pkgver.name_loop
    xbps.Common.is_digit xbps.Common.strchr xbps.Util.Pkgver.is_revision
    xbps.Util.Pkgver.is_revision_rest xbps.Breakage.pkg_is_ignored xbps.Revdeps.get_pkg_revdeps
    xbps.Dict.find_pkg_in_dict xbps.Util.Pattern.pkgpattern_version xbps.Common.strpbrk
    xbps.Common.in_set xbps.Util.Pkgver.pkg_version streq xbps.Common.find_key
    transaction_check_revdeps xbps.Breakage.check_each xbps.Breakage.check_obj
    xbps.Breakage.check_revdep xbps.Breakage.check_removed xbps.Breakage.check_kept
    xbps.Breakage.check_real xbps.Breakage.check_virtual_pkgs xbps.Breakage.rev_pkgd
    xbps.Breakage.depends_on xbps.Revdeps.dep_name xbps.Util.Pattern.pkgpattern_name
    xbps.Util.Pattern.pattern_name_at xbps.Util.Pattern.pkgpattern_match
    xbps.Match.match_string_in_array xbps.Match.probe xbps.Arrays.find_pkg_in_array
    xbps.Arrays.get_pkg_in_array xbps.Arrays.first_wanted xbps.Arrays.is_wanted xbps.Arrays.tests
    xbps.Arrays.of_type xbps.Util.Pkgver.version_loop xbps.Dict.dict_get
    xbps.Dict.match_pkg_by_pkgver
update_passes = refl

transaction_check_revdeps-IsUnbroken_example :
    IsUnbroken any_version chain_db
      (new_lib ∷ [])
      new_lib
      (codes "lib-2_2")
      (codes "lib")
      (codes "app-1_1")
unfolding xbps.Util.Pkgver.pkg_name xbps.Common.strrchr xbps.Util.Pkgver.name_loop
    xbps.Common.is_digit xbps.Common.strchr xbps.Util.Pkgver.is_revision
    xbps.Util.Pkgver.is_revision_rest xbps.Breakage.pkg_is_ignored xbps.Revdeps.get_pkg_revdeps
    xbps.Dict.find_pkg_in_dict xbps.Util.Pattern.pkgpattern_version xbps.Common.strpbrk
    xbps.Common.in_set xbps.Util.Pkgver.pkg_version streq
transaction_check_revdeps-IsUnbroken_example =
    transaction_check_revdeps-IsUnbroken any_version chain_db (new_lib ∷ []) none table
      update_passes new_lib (codes "lib-2_2") (codes "lib") (codes "app-1_1") (codes "app-1_1" ∷ [])
      here (λ s i. elim i [ ]) refl refl refl refl refl refl here
