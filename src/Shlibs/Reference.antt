-- ===== src/Shlibs/Reference.antt =====
-- What the check should report, from the two databases alone: a reference without hash table and
-- loops over a shared context.
use xbps.Common.{
  Bool, true, false, ◌||◌, ◌&&◌, not, List, [], ◌∷◌, ◌++◌, if◌then◌else◌, CStr, codes, streq,
  has_prefix, with_default, any,
}
use xbps.Pkg.{Installed, Pkg, hold, remove, ◌same_trans◌, pkg_type}
use xbps.Shlibs.{libs, broken}

-- The package of the transaction is in the system that the transaction leads to.
unfoldable pub joins : Pkg → Bool
joins p = not (pkg_type p same_trans hold) && not (pkg_type p same_trans remove)

unfoldable pub provides_lib : CStr → Pkg → Bool
unfolding any
provides_lib l p = any (streq l) (libs p.shlib_provides)

-- The transaction decides on the package of this name.
unfoldable pub decides : CStr → Pkg → Bool
decides name p = not (pkg_type p same_trans hold) && streq name (with_default [] p.pkgname)

-- The installed package is still there afterwards.
unfoldable pub stays : List Pkg → Installed → Bool
unfolding any decides
stays pkgs obj = not (has_prefix (codes "_XBPS_") obj.key) && not (any (decides obj.key) pkgs)

-- A package of the resulting system has the library.
unfoldable pub provided : List Installed → List Pkg → CStr → Bool
unfolding any joins provides_lib stays
provided pkgdb pkgs l =
    any (λ p. joins p && provides_lib l p) pkgs
    || any (λ obj. stays pkgs obj && provides_lib l obj.pkgd) pkgdb

-- One message for each library of the array that nobody has.
unfoldable pub lacking : (CStr → Bool) → CStr → List CStr → List CStr
lacking has ver [] = []
lacking has ver (l ∷ array) =
    if has l then lacking has ver array else broken ver l ∷ lacking has ver array

unfoldable pub pkg_lacks : (CStr → Bool) → Bool → Pkg → List CStr
unfolding lacking
pkg_lacks has false p = []
pkg_lacks has true p = lacking has (with_default [] p.pkgver) (libs p.shlib_requires)

unfoldable pub pkgs_lack : (CStr → Bool) → List Pkg → List CStr
unfolding pkg_lacks joins
pkgs_lack has [] = []
pkgs_lack has (p ∷ pkgs) = pkg_lacks has (joins p) p ++ pkgs_lack has pkgs

unfoldable pub installed_lack : (CStr → Bool) → List Pkg → List Installed → List CStr
unfolding pkg_lacks stays
installed_lack has pkgs [] = []
installed_lack has pkgs (obj ∷ pkgdb) =
    pkg_lacks has (stays pkgs obj) obj.pkgd ++ installed_lack has pkgs pkgdb

-- The messages for the resulting system.
unfoldable pub unresolved : List Installed → List Pkg → List CStr
unfolding provided pkgs_lack installed_lack
unresolved pkgdb pkgs =
    let has = provided pkgdb pkgs in pkgs_lack has pkgs ++ installed_lack has pkgs pkgdb
