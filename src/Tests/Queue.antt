-- ===== src/Tests/Queue.antt =====
-- The array of packages of a transaction: lib/plist_find.c, lib/plist_remove.c and
-- lib/transaction_store.c.
use xbps.Common.{
  Bool, true, Option, none, some, List, [], ◌∷◌, ◌≡◌, refl, ap, CStr, codes, streq, streq_refl,
  if◌then◌else◌, In, here, there, Run, ret, All, pos,
}
use xbps.Pkg.{Pkg, unknown, install}
use xbps.Util.Pkgver.{pkg_name, pkg_version}
use xbps.Util.Pattern.{pkgpattern_version}
use xbps.Versions.{Versions, CmpverRefl}
use xbps.Arrays.{find_pkg_in_array}
use xbps.Match.{probe, by_string}
use xbps.Remove.{remove_string_from_array}
use xbps.Arrays.Names.{IsNamed, IsPlain, IsQueue, Found, find_pkg_in_array-Found}
use xbps.Store.{stored_copy, transaction_store}
use xbps.Store.Newest.{Stored, transaction_store-Stored}

-- Any two different versions count as an update.
abbrev pub versions : Versions
versions = record {
  fnmatch = streq;
  dewey_match = λ pattern pkg. pos 0;
  cmpver = λ a b. if streq a b then pos 0 else pos 1;
}

versions_same : CmpverRefl versions
versions_same = record { same = λ a. ap (λ b. if b then pos 0 else pos 1) (streq_refl a) }

abbrev dictionary : CStr → CStr → Pkg
dictionary name ver = record {
  pkgver = some ver;
  pkgname = some name;
  repository = none;
  state = none;
  transaction = install;
  automatic_install = none;
  hold = none;
  repolock = none;
  replaced = none;
  preserve = none;
  provides = none;
  replaces = none;
  conflicts = none;
  run_depends = none;
  reverts = none;
  shlib_provides = none;
  shlib_requires = none;
}

abbrev foo : Pkg
foo = dictionary (codes "foo") (codes "foo-1.0_1")

abbrev newer_foo : Pkg
newer_foo = dictionary (codes "foo") (codes "foo-1.1_1")

abbrev bar : Pkg
bar = dictionary (codes "bar") (codes "bar-2.0_1")

foo-IsNamed : IsNamed foo
unfolding pkg_name xbps.Common.strrchr xbps.Util.Pkgver.name_loop xbps.Common.is_digit
    xbps.Common.strchr xbps.Util.Pkgver.is_revision xbps.Util.Pkgver.is_revision_rest
foo-IsNamed = record {
  ver = codes "foo-1.0_1";
  name = codes "foo";
  has_ver = refl;
  has_name = refl;
  agrees = refl;
}

bar-IsNamed : IsNamed bar
unfolding pkg_name xbps.Common.strrchr xbps.Util.Pkgver.name_loop xbps.Common.is_digit
    xbps.Common.strchr xbps.Util.Pkgver.is_revision xbps.Util.Pkgver.is_revision_rest
bar-IsNamed = record {
  ver = codes "bar-2.0_1";
  name = codes "bar";
  has_ver = refl;
  has_name = refl;
  agrees = refl;
}

unfoldable newer_foo-IsNamed : IsNamed newer_foo
unfolding pkg_name xbps.Common.strrchr xbps.Util.Pkgver.name_loop xbps.Common.is_digit
    xbps.Common.strchr xbps.Util.Pkgver.is_revision xbps.Util.Pkgver.is_revision_rest
newer_foo-IsNamed = record {
  ver = codes "foo-1.1_1";
  name = codes "foo";
  has_ver = refl;
  has_name = refl;
  agrees = refl;
}

foo-IsPlain : IsPlain (codes "foo")
unfolding pkgpattern_version pkg_version xbps.Common.strpbrk xbps.Common.in_set xbps.Common.strrchr
foo-IsPlain = record { no_pattern = refl; no_version = refl }

abbrev queue : List Pkg
queue = bar ∷ foo ∷ []

queue-IsQueue : IsQueue queue
unfolding streq
queue-IsQueue = record { named = (bar-IsNamed, (foo-IsNamed, tt)); unique = ((refl, tt), (tt, tt)) }

find_pkg_in_array-Found_example :
    (r : Option Pkg) × (find_pkg_in_array versions queue (codes "foo") unknown ≡ ret r)
    × Found (codes "foo") queue r
find_pkg_in_array-Found_example =
    find_pkg_in_array-Found versions foo-IsPlain queue queue-IsQueue.named

transaction_store-Stored_example :
    (after : List Pkg) × (transaction_store versions queue newer_foo true ≡ ret (after, true))
    × Stored versions
        (stored_copy newer_foo (codes "foo") true)
        (codes "foo")
        (codes "foo-1.1_1")
        queue
        after
unfolding newer_foo-IsNamed
transaction_store-Stored_example =
    transaction_store-Stored versions versions_same queue-IsQueue newer_foo-IsNamed foo-IsPlain true

abbrev strings : List CStr
strings = codes "b" ∷ codes "a" ∷ codes "a" ∷ []

removed_a :
    remove_string_from_array versions strings (codes "a") ≡ some (codes "b" ∷ codes "a" ∷ [])
unfolding remove_string_from_array xbps.Remove.remove_obj_from_array xbps.Remove.find_idx
    xbps.Remove.array_remove xbps.Match.probe streq
removed_a = refl
