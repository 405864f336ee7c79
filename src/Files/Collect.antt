-- ===== src/Files/Collect.antt =====
-- lib/transaction_files.c: collect_file and collect_files build the table of files.
-- `items` and `hashtab` of the source hold the same items: a list here, in order of insertion.
pub mod Conflict
pub mod Table
use xbps.Common.{
  ℕ, Bool, true, false, ◌&&◌, ◌||◌, not, Option, none, some, List, [], ◌∷◌, ◌++◌, if◌then◌else◌,
  ltb, CStr, streq, drop, Rv, Errno, eperm, eexist, with_default,
}
use xbps.Files.Types.{
  FileType, unset, dir, link, regular, conffile, ◌same_type◌, Side, Item, add_item,
}

-- The arguments of collect_file.
pub record Entry : Type 0 where
  pub file : CStr
  pub size : ℕ
  pub pkgname : CStr
  pub pkgver : CStr
  pub idx : ℕ
  pub sha256 : Option CStr
  pub type : FileType
  pub update : Bool
  pub removepkg : Bool
  pub preserve : Bool
  pub removefile : Bool
  pub target : Option CStr

-- lookupItem: the key is the path behind the dot.
unfoldable pub lookup_item : List Item → CStr → Option Item
lookup_item [] path = none
lookup_item (i ∷ items) path = if streq (drop 1 i.file) path then some i else lookup_item items path

-- The item is changed in place, through the pointer that the lookup gave.
unfoldable pub update_item : List Item → CStr → Item → List Item
update_item [] path new_item = []
update_item (i ∷ items) path new_item =
    if streq (drop 1 i.file) path then new_item ∷ items else i ∷ update_item items path new_item

-- The label `add`.
unfoldable pub add_side : Entry → Item → Item
add_side e item =
    if e.removefile
    then record item {
      old = record {
        pkgname = some e.pkgname;
        pkgver = some e.pkgver;
        sha256 = elim e.sha256 [ none ↦ item.old.sha256 | some s ↦ some s ];
        target = e.target;
        size = e.size;
        type = e.type;
        index = e.idx;
        preserve = e.preserve;
        update = e.update;
        removepkg = e.removepkg;
      };
    }
    else record item {
      new = record {
        pkgname = some e.pkgname;
        pkgver = some e.pkgver;
        sha256 = item.new.sha256;
        target = e.target;
        size = e.size;
        type = e.type;
        index = e.idx;
        preserve = e.preserve;
        update = e.update;
        removepkg = e.removepkg;
      };
    }

-- The branch `removefile` on an item that is in the table.
unfoldable pub collect_removed : Entry → Item → Item × Rv
unfolding add_side
collect_removed e item =
    if item.old.type same_type unset
    then (add_side e item, none)
    else if e.type same_type dir && item.old.type same_type dir
    then (if ltb e.idx item.old.index || item.old.preserve then (item, none) else (
      record item {
        old = record (item.old) {
          pkgname = some e.pkgname;
          pkgver = some e.pkgver;
          index = e.idx;
          preserve = e.preserve;
          update = e.update;
          removepkg = e.removepkg;
        };
      },
      none,
    ))
    else if item.old.preserve && not e.preserve
    then (item, some eperm)
    else if e.preserve && not item.old.preserve
    then (item, some eperm)
    else (item, none)

-- The other branch; the flag is XBPS_FLAG_IGNORE_FILE_CONFLICTS.
unfoldable pub collect_created : Bool → Entry → Item → Item × Rv
unfolding add_side
collect_created ignore_conflicts e item =
    if item.new.type same_type unset
    then (add_side e item, none)
    else if e.type same_type dir && item.new.type same_type dir
    then (item, none)
    else if ignore_conflicts
    then (item, none)
    else (item, some eexist)

unfoldable pub collect_known : Bool → Entry → Item → Item × Rv
unfolding collect_removed collect_created
collect_known ignore_conflicts e item =
    if e.removefile then collect_removed e item else collect_created ignore_conflicts e item

unfoldable pub collect_file : Bool → Entry → List Item → List Item × Rv
unfolding collect_known add_side
collect_file ignore_conflicts e items = elim (lookup_item items e.file) [
  | none ↦ (items ++ add_side e (add_item e.file) ∷ [], none)
  | some item ↦ let r = collect_known ignore_conflicts e item in (update_item items e.file r.0, r.1)
]

-- One entry of an array in files.plist.
pub record FileEntry : Type 0 where
  pub file : CStr
  pub sha256 : Option CStr
  pub size : Option ℕ
  pub target : Option CStr

-- files.plist; an array that is missing is empty.
pub record FilesPlist : Type 0 where
  pub files : List FileEntry
  pub conf_files : List FileEntry
  pub links : List FileEntry
  pub dirs : List FileEntry

-- The arguments of collect_files that each call of collect_file passes on.
pub record Owner : Type 0 where
  pub pkgname : CStr
  pub pkgver : CStr
  pub idx : ℕ
  pub update : Bool
  pub removepkg : Bool
  pub preserve : Bool
  pub removefile : Bool

-- The variables of collect_files between two calls. `stopped` is the error behind `goto out`;
-- `sha256` keeps the last hash that was read.
pub record Collecting : Type 0 where
  pub items : List Item
  pub sha256 : Option CStr
  pub error : Bool
  pub stopped : Rv

-- What the four loops pass for one entry of the given type.
unfoldable pub entry_of : Owner → FileType → Option CStr → FileEntry → Entry
entry_of o t sha f = record {
  file = f.file;
  size = if t same_type regular || t same_type conffile then with_default 0 f.size else 0;
  pkgname = o.pkgname;
  pkgver = o.pkgver;
  idx = o.idx;
  sha256 = if t same_type regular || t same_type conffile then sha else none;
  type = t;
  update = o.update;
  removepkg = o.removepkg;
  preserve = o.preserve;
  removefile = o.removefile;
  target = if t same_type link then f.target else none;
}

-- `sha256` is read only for removed files and configuration files, and kept where it is missing.
unfoldable pub read_sha : Owner → FileType → Option CStr → FileEntry → Option CStr
read_sha o t sha f =
    if o.removefile && (t same_type regular || t same_type conffile)
    then elim (f.sha256) [ none ↦ sha | some s ↦ some s ]
    else sha

-- What follows a call: EEXIST is remembered, any other error ends the loops.
unfoldable pub after_file : Option CStr → Collecting → List Item × Rv → Collecting
after_file sha c (items, none) = record c { items = items; sha256 = sha }
after_file sha c (items, some eexist) = record c { items = items; sha256 = sha; error = true }
after_file sha c (items, some e) = record c { items = items; sha256 = sha; stopped = some e }

unfoldable pub collect_step : Bool → Owner → FileType → Collecting → FileEntry → Collecting
unfolding after_file read_sha entry_of
collect_step ignore_conflicts o t c f =
    let sha = read_sha o t c.sha256 f in
    after_file sha c (collect_file ignore_conflicts (entry_of o t sha f) c.items)

-- One of the four loops.
unfoldable pub collect_loop : Bool → Owner → FileType → List FileEntry → Collecting → Collecting
collect_loop ignore_conflicts o t [] c = c
collect_loop ignore_conflicts o t (f ∷ fs) c = elim (c.stopped) [
  | none ↦ collect_loop ignore_conflicts o t fs (collect_step ignore_conflicts o t c f)
  | some e ↦ c
]

unfoldable pub collect_files : Bool → Owner → FilesPlist → List Item → List Item × Rv
unfolding collect_loop
collect_files ignore_conflicts o d items =
    let start : Collecting = record {
      items = items;
      sha256 = none;
      error = false;
      stopped = none;
    } in
    let c1 = collect_loop ignore_conflicts o regular d.files start in
    let c2 = collect_loop ignore_conflicts o conffile d.conf_files c1 in
    let c3 = collect_loop ignore_conflicts o link d.links c2 in
    let c4 = collect_loop ignore_conflicts o dir d.dirs c3 in
    (c4.items, if c4.error then some eexist else c4.stopped)
