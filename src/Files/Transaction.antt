-- ===== src/Files/Transaction.antt =====
-- lib/transaction_files.c: xbps_transaction_files, the pass over all packages of a transaction.
pub mod Sound
use xbps.Common.{
  ℕ, ◌+◌, Bool, true, false, ◌||◌, Option, none, some, List, [], ◌∷◌, if◌then◌else◌, CStr, Rv,
  Errno, einval, with_default,
}
use xbps.Pkg.{
  Pkg, TransType, ◌same_trans◌, install, reinstall, update, configure, remove, hold, pkg_type,
}
use xbps.Files.Types.{Item}
use xbps.Files.Sort.{sort_items}
use xbps.Files.Collect.{Owner, FilesPlist, collect_files}
use xbps.Files.Obsolete.{Env, Obsoletes, Outcome, done, stop, collect_obsoletes}

-- What opening the binary package of a repository and reading its first entries gives.
pub data BinPkg : Type 0 where
  unreadable : Errno → BinPkg
  no_plist : BinPkg
  plist : FilesPlist → BinPkg

-- The package database and the binary packages; `installed` is `none` for a package that is not
-- in the database, and `some none` for one without a file list.
pub record World : Type 0 where
  pub binpkg : Pkg → BinPkg
  pub installed : CStr → Option (Option FilesPlist)
  pub ignore_file_conflicts : Bool
  pub chdir : Rv

-- The files of `d`, collected for an owner; `none` stands for a list that cannot be had.
unfoldable pub from_binpkg : World → Owner → List Item → BinPkg → List Item × Rv
from_binpkg w o items (unreadable e) = (items, some e)
from_binpkg w o items no_plist = (items, none)
from_binpkg w o items (plist d) = collect_files w.ignore_file_conflicts o d items

unfoldable pub collect_binpkg_files :
    World → Pkg → CStr → CStr → ℕ → Bool → List Item → List Item × Rv
unfolding from_binpkg
collect_binpkg_files w obj pkgname pkgver idx updates items =
    from_binpkg w
      (record {
        pkgname = pkgname;
        pkgver = pkgver;
        idx = idx;
        update = updates;
        removepkg = false;
        preserve = false;
        removefile = false;
      })
      items (w.binpkg obj)

unfoldable pub from_pkgdb : World → Owner → List Item → Option (Option FilesPlist) → List Item × Rv
from_pkgdb w o items none = (items, none)
from_pkgdb w o items (some none) = (items, none)
from_pkgdb w o items (some (some d)) = collect_files w.ignore_file_conflicts o d items

-- The files of the installed package; `removepkg` is ttype == XBPS_TRANS_REMOVE.
unfoldable pub collect_installed : World → Pkg → CStr → CStr → ℕ → List Item → List Item × Rv
unfolding from_pkgdb
collect_installed w obj pkgname pkgver idx items =
    from_pkgdb w
      (record {
        pkgname = pkgname;
        pkgver = pkgver;
        idx = idx;
        update = pkg_type obj same_trans update;
        removepkg = pkg_type obj same_trans remove;
        preserve = with_default false obj.preserve;
        removefile = true;
      })
      items (w.installed pkgname)

-- An error skips what comes next.
abbrev pub and_then : List Item × Rv → (List Item → List Item × Rv) → List Item × Rv
and_then (items, none) next = next items
and_then (items, some e) next = (items, some e)

-- One round for a package that is neither on hold nor only to be configured.
unfoldable pub collect_pkg : World → Pkg → CStr → CStr → ℕ → List Item → List Item × Rv
unfolding collect_binpkg_files collect_installed
collect_pkg w obj pkgname pkgver idx items =
    and_then
      (if pkg_type obj same_trans install
          || pkg_type obj same_trans reinstall
          || pkg_type obj same_trans update
        then collect_binpkg_files w obj pkgname pkgver idx (pkg_type obj same_trans update) items
        else (items, none))
      (collect_installed w obj pkgname pkgver idx)

-- The two names that a package must have.
unfoldable pub with_names : World → Pkg → Option CStr → Option CStr → ℕ → List Item → List Item × Rv
unfolding collect_pkg
with_names w obj (some pkgver) (some pkgname) idx items = collect_pkg w obj pkgname pkgver idx items
with_names w obj _ _ idx items = (items, some einval)

unfoldable pub collect_round : World → Pkg → ℕ → List Item → List Item × Rv
unfolding with_names
collect_round w obj idx items =
    if pkg_type obj same_trans hold || pkg_type obj same_trans configure
    then (items, none)
    else with_names w obj obj.pkgver obj.pkgname idx items

-- The loop; `idx` is incremented first, so the first package has index 1.
unfoldable pub collect_all : World → List Pkg → ℕ → List Item → List Item × Rv
collect_all w [] idx items = (items, none)
collect_all w (obj ∷ pkgs) idx items =
    and_then (collect_round w obj (idx + 1) items) (collect_all w pkgs (idx + 1))

-- What follows the loop; a failed chdir is an error.
unfoldable pub finish : World → Env → List Item × Rv → Outcome
finish w env (items, some e) = stop e
finish w env (items, none) = elim (w.chdir) [
  | some e ↦ stop e
  | none ↦ collect_obsoletes env (sort_items items) []
]

-- On the empty `obsolete_files` of an initialised transaction.
unfoldable pub transaction_files : World → Env → List Pkg → Outcome
unfolding finish
transaction_files w env pkgs = finish w env (collect_all w pkgs 0 [])
