-- ===== src/Tests/FileTables.antt =====
-- Paths that two packages share, and configuration files: lib/transaction_files.c and
-- lib/package_config_files.c.
use mathlib.Core.List.{Perm}
use xbps.Common.{
  Bool, true, false, none, some, List, [], ◌∷◌, ◌≡◌, ◌≢◌, ◌↔◌, refl, inl, CStr, codes, streq,
  eexist, eperm, arith,
}
use xbps.Files.Types.{FileType, link, dir, regular, unset, Item, add_item}
use xbps.Files.Sort.{LongestFirst, sort_items, sort_items_lem}
use xbps.Files.Collect.{Entry, lookup_item, collect_file}
use xbps.Files.Collect.Table.{IsTable, collect_file-IsTable}
use xbps.Files.Collect.Conflict.{IsUnclaimed, collect_file_twice, collect_file_removed_twice}
use xbps.ConfFile.{
  ConfEntry, OldEntry, OnDisk, hash, compare_hashes, leave, overwrite, beside, install,
  entry_install_conf_file,
}
use xbps.ConfFile.Decide.{MayOverwrite, entry_install_conf_file-MayOverwrite}

abbrev created : CStr → FileType → Entry
created pkgname type = record {
  file = codes "/bin/x";
  size = 0;
  pkgname = pkgname;
  pkgver = pkgname;
  idx = 1;
  sha256 = none;
  type = type;
  update = false;
  removepkg = false;
  preserve = false;
  removefile = false;
  target = none;
}

abbrev by_foo : Entry
by_foo = created (codes "foo") regular

abbrev by_bar : Entry
by_bar = created (codes "bar") link

regular_set : regular ≢ unset
regular_set e = ground arith

regular_no_dir : regular ≢ dir
regular_no_dir e = ground arith

by_foo_accepted : (collect_file false by_foo []).1 ≡ none
unfolding collect_file lookup_item
by_foo_accepted = refl

collect_file_twice_example :
    (collect_file false by_bar (collect_file false by_foo []).0).1 ≡ some eexist
collect_file_twice_example =
    collect_file_twice by_foo by_bar [] (refl, refl) refl regular_set (inl regular_no_dir)
      by_foo_accepted

abbrev removed : Bool → Entry
removed preserve = record by_foo { removefile = true; preserve = preserve }

unclaimed : IsUnclaimed [] (codes "/bin/x")
unfolding lookup_item
unclaimed i h = absurd (cc)

collect_file_removed_twice_example :
    ((collect_file false (removed false) []).1 ≡ none)
    × (((collect_file false (removed true) (collect_file false (removed false) []).0).1 ≡ none)
        ↔ (false ≡ true))
    × (((collect_file false (removed true) (collect_file false (removed false) []).0).1
          ≡ some eperm)
        ↔ (false ≢ true))
    × ((i : Item) × (lookup_item
            (collect_file false (removed true) (collect_file false (removed false) []).0).0
            (codes "/bin/x")
          ≡ some i)
        × (i.old.pkgver ≡ some (codes "foo")))
collect_file_removed_twice_example =
    collect_file_removed_twice false (removed false) (removed true) [] (refl, refl) refl unclaimed
      regular_set (inl regular_no_dir)

empty-IsTable : IsTable []
empty-IsTable = record { lengths = tt; unique = tt }

collect_file-IsTable_example : IsTable (collect_file false by_foo []).0
collect_file-IsTable_example = collect_file-IsTable false by_foo [] empty-IsTable

sort_items_lem_example :
    LongestFirst (sort_items (add_item (codes "/a") ∷ add_item (codes "/ab") ∷ []))
    × Perm
        (sort_items (add_item (codes "/a") ∷ add_item (codes "/ab") ∷ []))
        (add_item (codes "/a") ∷ add_item (codes "/ab") ∷ [])
sort_items_lem_example = sort_items_lem (add_item (codes "/a") ∷ add_item (codes "/ab") ∷ [])

abbrev on_disk : CStr → OnDisk
on_disk path = hash (codes "a")

abbrev new_conf : List ConfEntry
new_conf = record { file = codes "/etc/x"; sha256 = codes "b" } ∷ []

abbrev old_conf : List OldEntry
old_conf = record { file = codes "/etc/x"; sha256 = some (codes "a") } ∷ []

conf_installed :
    entry_install_conf_file on_disk false
      (some new_conf)
      (some old_conf)
      (codes "./etc/x")
      (codes "x-1_1")
      false
    ≡ install
unfolding entry_install_conf_file xbps.ConfFile.original_hash streq xbps.ConfFile.conf_loop
    compare_hashes
conf_installed = refl

entry_install_conf_file-MayOverwrite_example :
    (false ≡ false)
    × ((old : List OldEntry) × (some old_conf ≡ some old)
        × MayOverwrite on_disk false old (codes "./etc/x"))
entry_install_conf_file-MayOverwrite_example =
    entry_install_conf_file-MayOverwrite on_disk false new_conf (some old_conf) (codes "./etc/x")
      (codes "x-1_1") false conf_installed
