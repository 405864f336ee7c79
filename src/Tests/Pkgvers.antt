-- ===== src/Tests/Pkgvers.antt =====
-- Package names, versions and patterns: lib/util.c and lib/plist_match.c.
use xbps.Common.{
  Bool, true, false, Option, none, some, List, [], ◌∷◌, ◌++◌, ◌≡◌, ◌↔◌, refl, CStr, codes, streq,
  truthy, length, ◌<◌, Free, nil, cons, arith, In, not, All, pos, ◌+◌,
}
use xbps.Util.Pkgver.{pkg_name, pkg_version, pkg_revision, name_size, is_revision}
use xbps.Util.Pkgver.Split.{pkg_name-pkg_version, pkg_version-pkg_name}
use xbps.Util.Pkgver.Build.{IsPkgver, pkgver_of_round_trip}
use xbps.Util.Pattern.{size_mod, pkgpattern_name, patterns_match, bare, negated}
use xbps.Util.Pattern.Names.{NameOf, pkgpattern_name-NameOf}
use xbps.Util.Pattern.LastMatch.{Misses, patterns_match_last}
use xbps.Versions.{Versions}

abbrev libfoo : CStr
libfoo = codes "lib-foo-1.0_2"

libfoo_name : pkg_name name_size libfoo ≡ some (codes "lib-foo")
unfolding pkg_name xbps.Common.strrchr xbps.Util.Pkgver.name_loop xbps.Common.is_digit
    xbps.Common.strchr is_revision xbps.Util.Pkgver.is_revision_rest
libfoo_name = refl

libfoo_version : pkg_version libfoo ≡ some (codes "1.0_2")
unfolding pkg_version xbps.Common.strrchr xbps.Util.Pkgver.version_loop xbps.Common.is_digit
    xbps.Common.strchr is_revision xbps.Util.Pkgver.is_revision_rest
libfoo_version = refl

pkg_name-pkg_version_example :
    (version : CStr) × (pkg_version libfoo ≡ some version)
    × (libfoo ≡ codes "lib-foo" ++ b'-' ∷ version)
    × (length (codes "lib-foo") < name_size)
pkg_name-pkg_version_example = pkg_name-pkg_version name_size libfoo libfoo_name

libfoo_short : length libfoo < name_size
libfoo_short = omega arith

pkg_version-pkg_name_example :
    (name : CStr) × (pkg_name name_size libfoo ≡ some name)
    × (libfoo ≡ name ++ b'-' ∷ codes "1.0_2")
pkg_version-pkg_name_example = pkg_version-pkg_name name_size libfoo libfoo_short libfoo_version

version_parts : IsPkgver (codes "1.0") (codes "2")
unfolding is_revision xbps.Common.any xbps.Common.is_digit xbps.Util.Pkgver.is_revision_rest
version_parts = record {
  no_dash =
      cons (λ e. omega arith)
        (cons (λ e. omega arith)
          (cons (λ e. omega arith) (cons (λ e. omega arith) (cons (λ e. omega arith) nil))));
  no_underscore = cons (λ e. omega arith) (cons (λ e. omega arith) (cons (λ e. omega arith) nil));
  has_digit = refl;
  revision_digits = refl;
  revision_plain = cons (λ e. omega arith) nil;
}

name_short : length (codes "lib-foo") < name_size
name_short = omega arith

pkgver_of_round_trip_example :
    (pkg_name name_size libfoo ≡ some (codes "lib-foo"))
    × (pkg_version libfoo ≡ some (codes "1.0_2"))
    × (pkg_revision libfoo ≡ some (codes "2"))
pkgver_of_round_trip_example =
    pkgver_of_round_trip name_size (codes "lib-foo") (codes "1.0") (codes "2") version_parts
      name_short

abbrev at_least : CStr
at_least = codes "foo>=1.0"

at_least_name : pkgpattern_name name_size at_least ≡ some (codes "foo")
unfolding pkgpattern_name xbps.Common.strpbrk xbps.Common.in_set xbps.Util.Pattern.pattern_name_at
at_least_name = refl

at_least_short : length at_least + 1 < size_mod
at_least_short = omega arith

pkgpattern_name-NameOf_example : NameOf name_size at_least (codes "foo")
pkgpattern_name-NameOf_example =
    pkgpattern_name-NameOf name_size at_least at_least_short at_least_name

bare_matches : streq (bare (codes "!b")) (codes "b") ≡ true
unfolding streq bare xbps.Util.Pattern.byte_at
bare_matches = refl

others_miss : All (Misses streq (codes "b")) (some (codes "a") ∷ [])
unfolding streq bare xbps.Util.Pattern.byte_at
others_miss = (refl, tt)

patterns_match_last_example :
    (patterns_match streq
        (some (some (codes "b") ∷ some (codes "!b") ∷ some (codes "a") ∷ []))
        (codes "b")
      ≡ not (negated (codes "!b")))
    × (patterns_match streq (some (some (codes "a") ∷ [])) (codes "b") ≡ false)
patterns_match_last_example =
    patterns_match_last streq (some (codes "b") ∷ []) (some (codes "a") ∷ []) (codes "b")
      (codes "!b") bare_matches others_miss

-- Comparisons that look no further than the strings.
abbrev plain_versions : Versions
plain_versions = record {
  fnmatch = streq;
  dewey_match = λ pattern pkg. pos 0;
  cmpver = λ a b. pos 0;
}
