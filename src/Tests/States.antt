-- ===== src/Tests/States.antt =====
-- The state of a package that is not in the database yet: lib/package_state.c.
use xbps.Common.{
  Option, none, some, List, [], ◌∷◌, ◌≡◌, refl, CStr, codes, ◌≤◌, Rv, Run, ret, arith,
}
use xbps.Pkg.{Installed}
use xbps.Util.Pkgver.{pkg_name, pkg_version}
use xbps.Util.Pattern.{pkgpattern_version}
use xbps.Dict.Access.{IsExact}
use xbps.State.{fresh_pkg, set_pkg_state_installed}
use xbps.State.Kept.{Stored, set_pkg_state_installed_lem}
use xbps.Tests.Queue.{versions}

foo-IsExact : IsExact (codes "foo-1.0_1") (codes "foo")
unfolding pkgpattern_version pkg_version pkg_name xbps.Common.strpbrk xbps.Common.in_set
    xbps.Common.strrchr xbps.Util.Pkgver.version_loop xbps.Common.is_digit xbps.Common.strchr
    xbps.Util.Pkgver.is_revision xbps.Util.Pkgver.is_revision_rest xbps.Util.Pkgver.name_loop
foo-IsExact = record {
  no_pattern = refl;
  version = codes "1.0_1";
  has_version = refl;
  has_name = refl;
}

abbrev other : List Installed
other = record { key = codes "bar"; pkgd = fresh_pkg (codes "bar-1_1") } ∷ []

one_le : 1 ≤ 2
one_le = omega arith

two_le : 2 ≤ 5
two_le = omega arith

set_pkg_state_installed_lem_example :
    (after : List Installed) × (set_pkg_state_installed versions other (codes "foo-1.0_1") 2
      ≡ ret (after, none))
    × Stored versions other after (codes "foo-1.0_1") (codes "foo") 2
set_pkg_state_installed_lem_example =
    set_pkg_state_installed_lem versions other 2 foo-IsExact one_le two_le
