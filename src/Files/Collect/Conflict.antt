-- ===== src/Files/Collect/Conflict.antt =====
-- What collect_file refuses.
use xbps.Common.{
  Bool, true, false, Option, none, some, List, [], ◌∷◌, ◌≡◌, ◌≢◌, ap, sym, ◌∙◌, ◌⊎◌, ◌↔◌, refl, inl,
  inr, streq_refl, streq_iff, arith, Option-cases, if◌then◌else◌, Rv, eexist, eperm, differ, CStr,
}
use xbps.Files.Types.{Item, FileType, unset, dir, link, regular, conffile}
use xbps.Files.Collect.{
  Entry, lookup_item, add_side, collect_known, collect_file, FileEntry, Owner, Collecting,
  FilesPlist, entry_of, read_sha, after_file, collect_step, collect_loop, collect_files,
}
use xbps.Files.Collect.Table.{lookup_item-collect_file, collected, IsTable, collect_file-IsTable}

-- The result of a call, by whether the path is in the table.
abbrev result_for : Bool → Entry → Option Item → Rv
result_for ignore_conflicts e none = none
result_for ignore_conflicts e (some i) = (collect_known ignore_conflicts e i).1

collect_file-result :
    (ignore_conflicts : Bool) (e : Entry) (items : List Item)
    → (collect_file ignore_conflicts e items).1
      ≡ result_for ignore_conflicts e (lookup_item items e.file)
unfolding collect_file
collect_file-result ig e items = elim (Option-cases (lookup_item items e.file)) [
  | inl h ↦ rw (h, collect_file)
  | inr (i, h) ↦ rw (h, collect_file)
]

collected_type :
    (e : Entry) (o : Option Item)
    → e.removefile ≡ false
    → result_for false e o ≡ none
    → (collected false e o).new.type ≡ e.type
unfolding collect_known add_side
collected_type e none r h = ground arith
collected_type e (some i) r h = ground arith

refuses :
    (e : Entry) (i : Item)
    → e.removefile ≡ false
    → i.new.type ≢ unset
    → (e.type ≡ dir → i.new.type ≢ dir)
    → (collect_known false e i).1 ≡ some eexist
unfolding collect_known
refuses e i r h d = ground arith

-- Two packages that create the same path, with no flag to ignore conflicts: after a first call that
-- was accepted, with a type that is set, the second call is refused with EEXIST, unless both create
-- a directory.
pub collect_file_twice :
    (e1 e2 : Entry) (items : List Item)
    → (e1.removefile ≡ false) × (e2.removefile ≡ false)
    → e1.file ≡ e2.file
    → e1.type ≢ unset
    → (e1.type ≢ dir) ⊎ (e2.type ≢ dir)
    → (collect_file false e1 items).1 ≡ none
    → (collect_file false e2 (collect_file false e1 items).0).1 ≡ some eexist
collect_file_twice e1 e2 items r same set kinds first =
    let i = collected false e1 (lookup_item items e1.file) in
    let found : lookup_item (collect_file false e1 items).0 e2.file ≡ some i =
      lookup_item-collect_file false e1 items e2.file ∙ rw ((streq_iff e1.file e2.file).1 same) in
    let t : i.new.type ≡ e1.type =
      collected_type e1 (lookup_item items e1.file) r.0
        (sym (collect_file-result false e1 items) ∙ first) in
    collect_file-result false e2 (collect_file false e1 items).0
    ∙ rw found (
        refuses e2 i r.1 (ground (arith, t))
          (λ e2d nd. elim kinds [ inl h ↦ h (sym t ∙ nd) | inr h ↦ h e2d ]))

removed_again :
    (ignore_conflicts : Bool) (e : Entry) (i : Item)
    → e.removefile ≡ true
    → i.old.type ≢ unset
    → (e.type ≢ dir) ⊎ (i.old.type ≢ dir)
    → ((collect_known ignore_conflicts e i).0 ≡ i)
      × ((collect_known ignore_conflicts e i).1
          ≡ (if differ e.preserve i.old.preserve then some eperm else none))
unfolding collect_known
removed_again ig e i r h d = (ground arith, ground arith)

collect_file_removed_again :
    (ignore_conflicts : Bool) (e : Entry) (items : List Item) {i : Item}
    → lookup_item items e.file ≡ some i
    → e.removefile ≡ true
    → i.old.type ≢ unset
    → (e.type ≢ dir) ⊎ (i.old.type ≢ dir)
    → ((collect_file ignore_conflicts e items).1
        ≡ (if differ e.preserve i.old.preserve then some eperm else none))
      × (lookup_item (collect_file ignore_conflicts e items).0 e.file ≡ some i)
collect_file_removed_again ig e items {i} found r set kinds =
    let known = removed_again ig e i r set kinds in
    (
      collect_file-result ig e items ∙ rw found known.1,
      lookup_item-collect_file ig e items e.file
          ∙ rw (streq_refl e.file) (rw found (ap some known.0)),
    )

-- No package removes the path of the item yet.
abbrev pub IsUnclaimed : List Item → CStr → Type 0
IsUnclaimed items path = (i : Item) → lookup_item items path ≡ some i → i.old.type ≡ unset

-- What the old side of an item is behind the first removal.
claimed :
    (ignore_conflicts : Bool) (e : Entry) (o : Option Item)
    → e.removefile ≡ true
    → ((i : Item) → o ≡ some i → i.old.type ≡ unset)
    → (result_for ignore_conflicts e o ≡ none)
      × ((collected ignore_conflicts e o).old.type ≡ e.type)
      × ((collected ignore_conflicts e o).old.preserve ≡ e.preserve)
      × ((collected ignore_conflicts e o).old.pkgver ≡ some e.pkgver)
unfolding collect_known add_side
claimed ig e none r h = (refl, ground arith, ground arith, ground arith)
claimed ig e (some i) r h =
    let u = h i refl in (ground (arith, u), ground (arith, u), ground (arith, u), ground (arith, u))

differs_iff :
    (a b : Bool) (rv : Rv)
    → rv ≡ (if differ b a then some eperm else none)
    → ((rv ≡ none) ↔ (a ≡ b)) × ((rv ≡ some eperm) ↔ (a ≢ b))
differs_iff true true rv e = (((λ h. refl), (λ h. e)), ((λ h. absurd (cc)), (λ n. absurd (n refl))))
differs_iff false false rv e =
    (((λ h. refl), (λ h. e)), ((λ h. absurd (cc)), (λ n. absurd (n refl))))
differs_iff true false rv e =
    (((λ h. absurd (cc)), (λ h. absurd (cc))), ((λ h k. absurd (cc)), (λ n. e)))
differs_iff false true rv e =
    (((λ h. absurd (cc)), (λ h. absurd (cc))), ((λ h k. absurd (cc)), (λ n. e)))

-- Two packages that remove the same path, which no package removed before, and not both as a
-- directory: the first call is accepted, whether conflicts are ignored or not. The second one is
-- accepted exactly when both packages preserve the path or neither does, and refused with EPERM
-- exactly otherwise, whichever of them comes first; and the item still belongs to the first package.
pub collect_file_removed_twice :
    (ignore_conflicts : Bool) (e1 e2 : Entry) (items : List Item)
    → (e1.removefile ≡ true) × (e2.removefile ≡ true)
    → e1.file ≡ e2.file
    → IsUnclaimed items e1.file
    → e1.type ≢ unset
    → (e1.type ≢ dir) ⊎ (e2.type ≢ dir)
    → let first = collect_file ignore_conflicts e1 items in
      let second = collect_file ignore_conflicts e2 first.0 in
      (first.1 ≡ none)
      × ((second.1 ≡ none) ↔ (e1.preserve ≡ e2.preserve))
      × ((second.1 ≡ some eperm) ↔ (e1.preserve ≢ e2.preserve))
      × ((i : Item) × (lookup_item second.0 e2.file ≡ some i) × (i.old.pkgver ≡ some e1.pkgver))
collect_file_removed_twice ig e1 e2 items r same unclaimed set kinds =
    let i = collected ig e1 (lookup_item items e1.file) in
    let (first, t, p, v) = claimed ig e1 (lookup_item items e1.file) r.0 unclaimed in
    let found : lookup_item (collect_file ig e1 items).0 e2.file ≡ some i =
      lookup_item-collect_file ig e1 items e2.file ∙ rw ((streq_iff e1.file e2.file).1 same) in
    let (result, kept) =
      collect_file_removed_again ig e2 (collect_file ig e1 items).0 found r.1 (ground (arith, t))
        (elim kinds [ inl h ↦ inr (λ d. h (sym t ∙ d)) | inr h ↦ inl h ]) in
    let (accepted, refused) =
      differs_iff e1.preserve e2.preserve (collect_file ig e2 (collect_file ig e1 items).0).1
        (result ∙ ap (λ b. if differ e2.preserve b then some eperm else none) p) in
    (collect_file-result ig e1 items ∙ first, accepted, refused, (i, kept, v))

collect_step-IsTable :
    (ignore_conflicts : Bool) (o : Owner) (t : FileType) (c : Collecting) (f : FileEntry)
    → IsTable c.items
    → IsTable (collect_step ignore_conflicts o t c f).items
unfolding collect_step
collect_step-IsTable ig o t c f h =
    after _ (collect_file ig (entry_of o t sha f) c.items)
      (collect_file-IsTable ig (entry_of o t sha f) c.items h)
  where
    sha : Option CStr
    sha = read_sha o t c.sha256 f

    after : (s : Option CStr) (r : List Item × Rv) → IsTable r.0 → IsTable (after_file s c r).items
    after s (items, none) k = k
    after s (items, some eexist) k = k
    after s (items, some e) k = k

-- The loops keep the table well formed.
collect_loop-IsTable :
    (ignore_conflicts : Bool) (o : Owner) (t : FileType) (fs : List FileEntry) (c : Collecting)
    → IsTable c.items
    → IsTable (collect_loop ignore_conflicts o t fs c).items
unfolding collect_loop
collect_loop-IsTable ig o t [] c h = h
collect_loop-IsTable ig o t (f ∷ fs) c h = elim (Option-cases c.stopped) [
  | inl e ↦
      rw (e, collect_loop)
        (collect_loop-IsTable ig o t fs (collect_step ig o t c f)
          (collect_step-IsTable ig o t c f h))
  | inr (x, e) ↦ rw (e, collect_loop) h
]

pub collect_files-IsTable :
    (ignore_conflicts : Bool) (o : Owner) (d : FilesPlist) (items : List Item)
    → IsTable items
    → IsTable (collect_files ignore_conflicts o d items).0
unfolding collect_files
collect_files-IsTable ig o d items h = collect_loop-IsTable ig o dir d.dirs _ (
    collect_loop-IsTable ig o link d.links _ (
      collect_loop-IsTable ig o conffile d.conf_files _
        (collect_loop-IsTable ig o regular d.files _ h)))
