-- ===== src/Tests/Orphanage.antt =====
-- A small package database: lib/plist_find.c, lib/pkgdb.c and lib/package_orphans.c.
use xbps.Common.{
  Bool, true, false, Option, none, some, List, [], ◌∷◌, ◌≡◌, ◌≢◌, ◌↔◌, refl, CStr, codes, Run, ret,
  abort, In, here, there, arith, subst,
}
use mathlib.Core.Option.{some-injective}
use xbps.Pkg.{Pkg, Installed, unknown}
use xbps.Virtual.{Virtuals, Provider, find_virtualpkg_in_dict, vpkg_user_conf}
use xbps.Virtual.Found.{Answer, find_virtualpkg_in_dict-Answer}
use xbps.Revdeps.{generate_full_revdeps_tree}
use xbps.Revdeps.Table.{array_of}
use xbps.Revdeps.Complete.{Dependant, generate_full_revdeps_tree-Dependant}
use xbps.Orphans.{find_pkg_orphans}
use xbps.Orphans.Listed.{IsPkgver, listed}
use xbps.Orphans.Passes.{IsOrphan}
use xbps.Orphans.Least.{HasVersions, find_pkg_orphans-IsOrphan}
use xbps.Tests.Queue.{versions}

abbrev pub entry : CStr → CStr → Bool → List CStr → List CStr → Installed
entry name ver automatic depends provided = record {
  key = name;
  pkgd = record {
    pkgver = some ver;
    pkgname = some name;
    repository = none;
    state = none;
    transaction = unknown;
    automatic_install = some automatic;
    hold = none;
    repolock = none;
    replaced = none;
    preserve = none;
    provides = some provided;
    replaces = none;
    conflicts = none;
    run_depends = some depends;
    reverts = none;
    shlib_provides = none;
    shlib_requires = none;
  };
}

-- `app` needs `cron`, which `busybox` stands for.
abbrev app : Installed
app = entry (codes "app") (codes "app-1_1") true (codes "cron>=0" ∷ []) []

abbrev busybox : Installed
busybox = entry (codes "busybox") (codes "busybox-2_1") true [] (codes "cron-1_1" ∷ [])

abbrev tool : Installed
tool = entry (codes "tool") (codes "tool-3_1") false (codes "app>=0" ∷ []) []

abbrev small_db : List Installed
small_db = app ∷ busybox ∷ []

abbrev virtuals : List Virtuals
virtuals =
    record {
      key = codes "cron";
      providers = record { vpkg_conf = codes "cron"; pkg = codes "busybox" } ∷ [];
    }
    ∷ []

abbrev table : List (CStr × List CStr)
table = (codes "busybox", codes "app-1_1" ∷ []) ∷ []

built : generate_full_revdeps_tree versions virtuals small_db ≡ ret table
unfolding generate_full_revdeps_tree xbps.Util.Pattern.pkgpattern_name xbps.Common.strpbrk
    xbps.Common.in_set xbps.Util.Pattern.pattern_name_at vpkg_user_conf xbps.Virtual.providers_of
    xbps.Common.streq xbps.Util.Pkgver.pkg_name xbps.Common.strrchr xbps.Virtual.first_provider
    xbps.Util.Pkgver.pkg_version xbps.Match.match_string_in_array xbps.Revdeps.dep_name
built = refl

with_tool :
    generate_full_revdeps_tree versions virtuals (tool ∷ small_db)
    ≡ ret ((codes "app", codes "tool-3_1" ∷ []) ∷ (codes "busybox", codes "app-1_1" ∷ []) ∷ [])
unfolding generate_full_revdeps_tree xbps.Util.Pattern.pkgpattern_name xbps.Common.strpbrk
    xbps.Common.in_set xbps.Util.Pattern.pattern_name_at vpkg_user_conf xbps.Virtual.providers_of
    xbps.Common.streq xbps.Util.Pkgver.pkg_name xbps.Common.strrchr xbps.Virtual.first_provider
    xbps.Util.Pkgver.pkg_version xbps.Match.match_string_in_array xbps.Revdeps.dep_name
with_tool = refl

cron_is_busybox :
    find_virtualpkg_in_dict versions virtuals small_db (codes "cron") ≡ ret (some busybox)
unfolding find_virtualpkg_in_dict vpkg_user_conf xbps.Virtual.providers_of xbps.Common.streq
    xbps.Util.Pattern.pkgpattern_name xbps.Common.strpbrk xbps.Common.in_set
    xbps.Util.Pkgver.pkg_name xbps.Common.strrchr xbps.Virtual.first_provider
    xbps.Util.Pkgver.pkg_version xbps.Dict.find_pkg_in_dict xbps.Util.Pattern.pkgpattern_version
cron_is_busybox = refl

no_abort : find_virtualpkg_in_dict versions virtuals small_db (codes "cron") ≢ abort
no_abort h = absurd (ground (arith, cron_is_busybox, h))

find_virtualpkg_in_dict-Answer_example :
    (obj : Option Installed) × (find_virtualpkg_in_dict versions virtuals small_db (codes "cron")
      ≡ ret obj)
    × Answer versions virtuals small_db (codes "cron") obj
find_virtualpkg_in_dict-Answer_example =
    find_virtualpkg_in_dict-Answer versions virtuals small_db (codes "cron") no_abort

generate_full_revdeps_tree-Dependant_example :
    In (codes "app-1_1") (array_of table (codes "busybox"))
    ↔ Dependant versions virtuals small_db (codes "app-1_1") (codes "busybox")
generate_full_revdeps_tree-Dependant_example =
    generate_full_revdeps_tree-Dependant versions virtuals small_db (codes "app-1_1")
      (codes "busybox") built

app_ver : IsPkgver (codes "app-1_1")
unfolding xbps.Util.Pattern.pkgpattern_version xbps.Common.strpbrk xbps.Common.in_set
    xbps.Util.Pkgver.pkg_version xbps.Common.strrchr xbps.Util.Pkgver.version_loop
    xbps.Common.is_digit xbps.Common.strchr xbps.Util.Pkgver.is_revision
    xbps.Util.Pkgver.is_revision_rest
app_ver = record { no_pattern = refl; version = codes "1_1"; has_version = refl }

busybox_ver : IsPkgver (codes "busybox-2_1")
unfolding xbps.Util.Pattern.pkgpattern_version xbps.Common.strpbrk xbps.Common.in_set
    xbps.Util.Pkgver.pkg_version xbps.Common.strrchr xbps.Util.Pkgver.version_loop
    xbps.Common.is_digit xbps.Common.strchr xbps.Util.Pkgver.is_revision
    xbps.Util.Pkgver.is_revision_rest
busybox_ver = record { no_pattern = refl; version = codes "2_1"; has_version = refl }

small_db-HasVersions : HasVersions small_db
small_db-HasVersions = record { of_db = λ obj i ver e. of_entry obj i ver e }
  where
    of_entry :
        (obj : Installed)
        → In obj small_db
        → (ver : CStr) → obj.pkgd.pkgver ≡ some ver
        → IsPkgver ver
    of_entry _ here ver e = subst IsPkgver (some-injective _ _ e) app_ver
    of_entry obj (there (there i)) ver e = elim i [ ]
    of_entry _ (there here) ver e = subst IsPkgver (some-injective _ _ e) busybox_ver

find_pkg_orphans-IsOrphan_example :
    (result : List Pkg) × (find_pkg_orphans versions small_db table ≡ ret (some result))
    × ((s : CStr) → (listed result s ≡ true) ↔ IsOrphan versions small_db table s)
find_pkg_orphans-IsOrphan_example =
    find_pkg_orphans-IsOrphan versions virtuals small_db table small_db-HasVersions built
