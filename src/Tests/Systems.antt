-- ===== src/Tests/Systems.antt =====
-- An update that drops a shared library: lib/transaction_check_shlibs.c.
use xbps.Common.{Bool, Option, none, some, List, [], ◌∷◌, ◌≡◌, refl, CStr, codes, All}
use xbps.Pkg.{Installed, Pkg, TransType, unknown, update}
use xbps.Shlibs.{ok, left_missing, transaction_check_shlibs}
use xbps.Shlibs.Reference.{unresolved}
use xbps.Shlibs.Provided.{HasNames}
use xbps.Shlibs.Report.{HasPkgver, transaction_check_shlibs-unresolved}

abbrev with_libs : CStr → CStr → TransType → List CStr → List CStr → Pkg
with_libs name ver ttype provides requires = record {
  pkgver = some ver;
  pkgname = some name;
  repository = none;
  state = none;
  transaction = ttype;
  automatic_install = none;
  hold = none;
  repolock = none;
  replaced = none;
  preserve = none;
  provides = none;
  replaces = none;
  conflicts = none;
  run_depends = none;
  reverts = none;
  shlib_provides = some provides;
  shlib_requires = some requires;
}

abbrev new_foo : Pkg
new_foo = with_libs (codes "foo") (codes "foo-2_1") update (codes "libfoo.so.1" ∷ []) []

abbrev pkgdb : List Installed
pkgdb =
    record {
      key = codes "baz";
      pkgd = with_libs (codes "baz") (codes "baz-1_1") unknown [] (codes "libfoo.so.0" ∷ []);
    }
    ∷ record {
      key = codes "foo";
      pkgd = with_libs (codes "foo") (codes "foo-1_1") unknown (codes "libfoo.so.0" ∷ []) [];
    }
    ∷ []

baz_breaks :
    unresolved pkgdb (new_foo ∷ []) ≡ codes "baz-1_1: broken, unresolvable shlib `libfoo.so.0'" ∷ []
unfolding unresolved xbps.Common.has_prefix xbps.Common.streq
baz_breaks = refl

names : All HasNames (new_foo ∷ [])
names = (record { ver = codes "foo-2_1"; name = codes "foo"; has_ver = refl; has_name = refl }, tt)

pkgvers : All HasPkgver pkgdb
pkgvers = ((codes "baz-1_1", refl), ((codes "foo-1_1", refl), tt))

transaction_check_shlibs-unresolved_example :
    transaction_check_shlibs pkgdb [] (new_foo ∷ [])
    ≡ ok (left_missing (unresolved pkgdb (new_foo ∷ [])))
transaction_check_shlibs-unresolved_example =
    transaction_check_shlibs-unresolved pkgdb (new_foo ∷ []) names pkgvers
