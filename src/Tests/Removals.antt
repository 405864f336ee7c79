-- ===== src/Tests/Removals.antt =====
-- A package update that replaces a directory by a link: lib/transaction_files.c.
use xbps.Common.{
  Bool, true, false, Option, none, some, List, [], ◌∷◌, ◌≡◌, refl, ap, ◌∙◌, inl, inr, CStr, codes,
  Rv, ◌≤◌, length, arith, All, In, here, there,
}
use xbps.Pkg.{Pkg, update}
use xbps.Files.Types.{FileType, link, dir, regular, unset, Side, Item, blank}
use xbps.Files.Sort.{LongestFirst, sort_items}
use xbps.Files.Collect.{FileEntry, FilesPlist}
use xbps.Files.Obsolete.{
  Env, OpenDir, entries, HashCheck, same, Sweep, Outcome, done, collect_obsoletes, has_dir_prefix,
  remover, match_preserved_file,
}
use xbps.Files.Obsolete.Justified.{AllFiles, Justified, collect_obsoletes-Justified}
use xbps.Files.Obsolete.Order.{Shrinks, AllArrays, HasLength, collect_obsoletes-Shrinks}
use xbps.Files.Obsolete.Complete.{Scheduled, IsObsolete, collect_obsoletes-Scheduled}
use xbps.Files.Obsolete.Directory.{Replaced, collect_obsoletes_empties}
use xbps.Files.Transaction.{World, BinPkg, plist, collect_all, finish, transaction_files}
use xbps.Files.Transaction.Sound.{transaction_files_lem}

-- Every directory holds one file, and every hash is the packaged one.
abbrev env : Env
env = record {
  opendir = λ path. entries 3;
  sha256_check = λ path sha. same;
  symlink_target = λ path target. some target;
  preserved_files = none;
  force_remove_files = false;
  rootdir = codes "/";
}

abbrev side : FileType → Option CStr → Option CStr → Side
side type sha256 target = record {
  pkgname = some (codes "foo");
  pkgver = some (codes "foo-2.0_1");
  sha256 = sha256;
  target = target;
  size = 0;
  type = type;
  index = 1;
  preserve = false;
  update = true;
  removepkg = false;
}

abbrev file_item : Item
file_item = record {
  file = codes "./usr/d/f";
  len = 9;
  old = side regular (some (codes "abc")) none;
  new = blank;
  deleted = false;
}

abbrev dir_item : Item
dir_item = record {
  file = codes "./usr/d";
  len = 7;
  old = side dir none none;
  new = side link none (some (codes "e"));
  deleted = false;
}

abbrev items : List Item
items = file_item ∷ dir_item ∷ []

abbrev swept : Sweep
swept = record {
  before = record file_item { deleted = true } ∷ record dir_item { deleted = true } ∷ [];
  obsd = (codes "foo", codes "./usr/d/f" ∷ codes "./usr/d" ∷ []) ∷ [];
  rv = none;
}

items_swept : collect_obsoletes env items [] ≡ done swept
unfolding collect_obsoletes xbps.Files.Obsolete.sweep xbps.Files.Obsolete.sweep_step
    xbps.Files.Obsolete.apply_verdict xbps.Files.Obsolete.verdict xbps.Files.Obsolete.change_of
    match_preserved_file xbps.Files.Obsolete.is_basesymlink xbps.Common.streq
    xbps.Files.Obsolete.check_hash xbps.Files.Obsolete.can_delete_directory xbps.Common.has_prefix
    xbps.Util.Pattern.byte_at xbps.Files.Obsolete.add_obsolete xbps.Files.Obsolete.remover
items_swept = refl

collect_obsoletes-Justified_example : AllFiles (Justified env items) swept.obsd
collect_obsoletes-Justified_example = collect_obsoletes-Justified env items items_swept

file_item-IsObsolete : IsObsolete env file_item
unfolding match_preserved_file xbps.Files.Obsolete.is_basesymlink xbps.Common.streq
file_item-IsObsolete = record {
  unprovided = refl;
  not_preserved = refl;
  not_listed = refl;
  not_basesymlink = refl;
  no_link = inr refl;
  unmodified = inr (codes "abc", refl, refl);
}

collect_obsoletes-Scheduled_example : Scheduled (codes "foo") (codes "./usr/d/f") swept.obsd
unfolding remover
collect_obsoletes-Scheduled_example =
    collect_obsoletes-Scheduled env items items_swept here file_item-IsObsolete

items-LongestFirst : LongestFirst items
items-LongestFirst = ((omega arith, tt), (tt, tt))

items-HasLength : All HasLength items
items-HasLength = (refl, (refl, tt))

collect_obsoletes-Shrinks_example : AllArrays Shrinks swept.obsd
collect_obsoletes-Shrinks_example =
    collect_obsoletes-Shrinks env items items-LongestFirst items-HasLength items_swept

dir_item-Replaced : Replaced env (record dir_item { deleted = true })
unfolding match_preserved_file
dir_item-Replaced = record {
  content = 3;
  on_disk = refl;
  was_dir = refl;
  becomes = inl refl;
  not_preserved = refl;
}

file_below : has_dir_prefix (codes "./usr/d") 7 (codes "./usr/d/f") ≡ true
unfolding has_dir_prefix xbps.Common.has_prefix xbps.Util.Pattern.byte_at
file_below = refl

collect_obsoletes_empties_example : (record file_item { deleted = true }).deleted ≡ true
collect_obsoletes_empties_example =
    collect_obsoletes_empties env items {d = record dir_item { deleted = true }}
      {j = record file_item { deleted = true }} items-LongestFirst items-HasLength items_swept
      (there here) dir_item-Replaced here file_below

abbrev updated_foo : Pkg
updated_foo = record {
  pkgver = some (codes "foo-2.0_1");
  pkgname = some (codes "foo");
  repository = none;
  state = none;
  transaction = update;
  automatic_install = none;
  hold = none;
  repolock = none;
  replaced = none;
  preserve = none;
  provides = none;
  replaces = none;
  conflicts = none;
  run_depends = none;
  reverts = none;
  shlib_provides = none;
  shlib_requires = none;
}

abbrev entry : CStr → Option CStr → Option CStr → FileEntry
entry file sha256 target = record { file = file; sha256 = sha256; size = none; target = target }

abbrev world : World
world = record {
  binpkg = λ p. plist (record {
    files = [];
    conf_files = [];
    links = entry (codes "/usr/d") none (some (codes "e")) ∷ [];
    dirs = [];
  });
  installed = λ name. some (
      some (record {
        files = entry (codes "/usr/d/f") (some (codes "abc")) none ∷ [];
        conf_files = [];
        links = [];
        dirs = entry (codes "/usr/d") none none ∷ [];
      }));
  ignore_file_conflicts = false;
  chdir = none;
}

collected_items : collect_all world (updated_foo ∷ []) 0 [] ≡ (dir_item ∷ file_item ∷ [], none)
unfolding xbps.Files.Transaction.collect_all xbps.Files.Transaction.collect_round
    xbps.Files.Transaction.with_names xbps.Files.Transaction.collect_pkg
    xbps.Files.Transaction.collect_binpkg_files xbps.Files.Transaction.collect_installed
    xbps.Files.Transaction.from_binpkg xbps.Files.Transaction.from_pkgdb
    xbps.Files.Collect.collect_files xbps.Files.Collect.collect_loop xbps.Files.Collect.collect_step
    xbps.Files.Collect.collect_file xbps.Files.Collect.lookup_item xbps.Files.Collect.update_item
    xbps.Files.Collect.add_side xbps.Files.Collect.after_file xbps.Files.Collect.collect_created
    xbps.Files.Collect.collect_known xbps.Files.Collect.collect_removed xbps.Files.Collect.entry_of
    xbps.Files.Collect.read_sha xbps.Files.Types.add_item xbps.Common.streq
collected_items = refl

items_sorted : sort_items (dir_item ∷ file_item ∷ []) ≡ items
unfolding sort_items xbps.Files.Sort.pathcmp
items_sorted = refl

foo_updated : transaction_files world env (updated_foo ∷ []) ≡ done swept
unfolding transaction_files finish
foo_updated =
    ap (finish world env) collected_items
    ∙ ap (λ xs. collect_obsoletes env xs []) items_sorted
    ∙ items_swept

transaction_files_lem_example :
    ((collect_all world (updated_foo ∷ []) 0 []).1 ≡ none)
    × AllFiles (Justified env (sort_items (collect_all world (updated_foo ∷ []) 0 []).0)) swept.obsd
    × AllArrays Shrinks swept.obsd
transaction_files_lem_example = transaction_files_lem world env (updated_foo ∷ []) foo_updated
