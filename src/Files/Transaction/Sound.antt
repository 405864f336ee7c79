-- ===== src/Files/Transaction/Sound.antt =====
-- What a successful xbps_transaction_files schedules.
use xbps.Common.{
  ℕ, ◌+◌, Bool, true, false, ◌||◌, Option, none, some, List, [], ◌∷◌, ◌≡◌, refl, inl, inr,
  if◌then◌else◌, CStr, Rv, arith, Option-cases,
}
use xbps.Pkg.{Pkg, ◌same_trans◌, install, reinstall, update, configure, hold, pkg_type}
use xbps.Files.Types.{Item}
use xbps.Files.Sort.{sort_items, sort_items_lem, All-sort_items}
use xbps.Files.Collect.{Owner, FilesPlist}
use xbps.Files.Collect.Table.{IsTable}
use xbps.Files.Collect.Conflict.{collect_files-IsTable}
use xbps.Files.Obsolete.{Env, Sweep, done, collect_obsoletes}
use xbps.Files.Obsolete.Justified.{AllFiles, Justified, collect_obsoletes-Justified}
use xbps.Files.Obsolete.Order.{AllArrays, Shrinks, HasLength, collect_obsoletes-Shrinks}
use xbps.Files.Transaction.{
  with_names, from_binpkg, from_pkgdb, and_then, finish, World, BinPkg, unreadable, no_plist, plist,
  collect_binpkg_files, collect_installed, collect_pkg, collect_round, collect_all,
  transaction_files,
}

from_binpkg-IsTable :
    (w : World) (o : Owner) (items : List Item) (b : BinPkg)
    → IsTable items
    → IsTable (from_binpkg w o items b).0
unfolding from_binpkg
from_binpkg-IsTable w o items (unreadable e) h = h
from_binpkg-IsTable w o items no_plist h = h
from_binpkg-IsTable w o items (plist d) h =
    collect_files-IsTable w.ignore_file_conflicts o d items h

from_pkgdb-IsTable :
    (w : World) (o : Owner) (items : List Item) (f : Option (Option FilesPlist))
    → IsTable items
    → IsTable (from_pkgdb w o items f).0
unfolding from_pkgdb
from_pkgdb-IsTable w o items none h = h
from_pkgdb-IsTable w o items (some none) h = h
from_pkgdb-IsTable w o items (some (some d)) h =
    collect_files-IsTable w.ignore_file_conflicts o d items h

and_then-IsTable :
    (r : List Item × Rv) (next : List Item → List Item × Rv)
    → IsTable r.0
    → ((items : List Item) → IsTable items → IsTable (next items).0)
    → IsTable (and_then r next).0
and_then-IsTable (items, none) next h k = k items h
and_then-IsTable (items, some e) next h k = h

if-IsTable :
    (b : Bool) (r s : List Item × Rv) → IsTable r.0 → IsTable s.0 → IsTable (if b then r else s).0
if-IsTable true r s h k = h
if-IsTable false r s h k = k

collect_pkg-IsTable :
    (w : World) (obj : Pkg) (n v : CStr) (idx : ℕ) (items : List Item)
    → IsTable items
    → IsTable (collect_pkg w obj n v idx items).0
unfolding collect_pkg
collect_pkg-IsTable w obj n v idx items h =
    and_then-IsTable _ (collect_installed w obj n v idx)
      (if-IsTable
        (pkg_type obj same_trans install
          || pkg_type obj same_trans reinstall
          || pkg_type obj same_trans update)
        (collect_binpkg_files w obj n v idx (pkg_type obj same_trans update) items) (items, none)
        (from_binpkg-IsTable w _ items (w.binpkg obj) h) h)
      (λ rest k. from_pkgdb-IsTable w _ rest (w.installed n) k)

with_names-IsTable :
    (w : World) (obj : Pkg) (v n : Option CStr) (idx : ℕ) (items : List Item)
    → IsTable items
    → IsTable (with_names w obj v n idx items).0
unfolding with_names
with_names-IsTable w obj (some v) (some n) idx items h = collect_pkg-IsTable w obj n v idx items h
with_names-IsTable w obj _ _ idx items h = h

collect_round-IsTable :
    (w : World) (obj : Pkg) (idx : ℕ) (items : List Item)
    → IsTable items
    → IsTable (collect_round w obj idx items).0
unfolding collect_round
collect_round-IsTable w obj idx items h =
    if-IsTable (pkg_type obj same_trans hold || pkg_type obj same_trans configure) (items, none)
      (with_names w obj obj.pkgver obj.pkgname idx items) h
      (with_names-IsTable w obj obj.pkgver obj.pkgname idx items h)

-- Collecting the files of a list of packages, from any index on, keeps the table well formed: one item
-- for each path, with the length of the path; whatever is returned.
pub collect_all-IsTable :
    (w : World) (pkgs : List Pkg) (idx : ℕ) (items : List Item)
    → IsTable items
    → IsTable (collect_all w pkgs idx items).0
unfolding collect_all
collect_all-IsTable w [] idx items h = h
collect_all-IsTable w (obj ∷ pkgs) idx items h =
    and_then-IsTable _ (collect_all w pkgs (idx + 1))
      (collect_round-IsTable w obj (idx + 1) items h)
      (λ rest k. collect_all-IsTable w pkgs (idx + 1) rest k)

empty-IsTable : IsTable []
empty-IsTable = record { lengths = tt; unique = tt }

finish-done :
    (w : World) (env : Env) (r : List Item × Rv) {s : Sweep}
    → finish w env r ≡ done s
    → (r.1 ≡ none) × (collect_obsoletes env (sort_items r.0) [] ≡ done s)
unfolding finish
finish-done w env (items, some e) h = absurd (cc)
finish-done w env (items, none) h = elim (Option-cases w.chdir) [
  | inl e ↦ (refl, ground arith)
  | inr (x, e) ↦ absurd (ground arith)
]

-- When xbps_transaction_files reaches the end of collect_obsoletes, every package was collected
-- without an error, and over the sorted table every file scheduled for removal is justified, and
-- no package removes a path before a longer one.
pub transaction_files_lem :
    (w : World) (env : Env) (pkgs : List Pkg) {s : Sweep}
    → transaction_files w env pkgs ≡ done s
    → ((collect_all w pkgs 0 []).1 ≡ none)
      × AllFiles (Justified env (sort_items (collect_all w pkgs 0 []).0)) s.obsd
      × AllArrays Shrinks s.obsd
unfolding transaction_files
transaction_files_lem w env pkgs h =
    let items = (collect_all w pkgs 0 []).0 in
    let (ok, swept) = finish-done w env (collect_all w pkgs 0 []) h in
    (
      ok,
      collect_obsoletes-Justified env (sort_items items) swept,
      collect_obsoletes-Shrinks env (sort_items items) (sort_items_lem items).0
          (All-sort_items HasLength items (collect_all-IsTable w pkgs 0 [] empty-IsTable).lengths)
          swept,
    )
