-- ===== src/Files/Collect/Table.antt =====
-- The table that collect_file keeps: one item for each path.
use xbps.Common.{
  Bool, false, Option, none, some, List, [], ◌∷◌, ◌++◌, ◌≡◌, refl, sym, ap, ◌∙◌, inl, inr, CStr,
  streq, streq_iff, All, arith, Bool-cases, Option-cases, length, drop, if◌then◌else◌,
}
use xbps.Files.Types.{Item, add_item}
use xbps.Files.Collect.{Entry, lookup_item, update_item, add_side, collect_known, collect_file}

-- The item that stands for the path of the entry behind a call of collect_file.
abbrev pub collected : Bool → Entry → Option Item → Item
collected ignore_conflicts e none = add_side e (add_item e.file)
collected ignore_conflicts e (some i) = (collect_known ignore_conflicts e i).0

pub collect_known-file :
    (ignore_conflicts : Bool) (e : Entry) (i : Item)
    → ((collect_known ignore_conflicts e i).0.file ≡ i.file)
      × ((collect_known ignore_conflicts e i).0.len ≡ i.len)
unfolding collect_known
collect_known-file ignore_conflicts e i = ground arith

pub add_side-file :
    (e : Entry) (i : Item) → ((add_side e i).file ≡ i.file) × ((add_side e i).len ≡ i.len)
unfolding add_side
add_side-file e i = ground arith

pub lookup_item-key :
    (items : List Item) (path : CStr) {i : Item}
    → lookup_item items path ≡ some i
    → drop 1 i.file ≡ path
unfolding lookup_item
lookup_item-key [] path h = absurd (cc)
lookup_item-key (j ∷ items) path {i} h = elim (Bool-cases (streq (drop 1 j.file) path)) [
  | inl e ↦ let same : j ≡ i = ground arith in rw (← same) ((streq_iff (drop 1 j.file) path).0 e)
  | inr e ↦ lookup_item-key items path {i = i} (ground arith)
]

-- A lookup behind a change in place.
lookup_item-update_item :
    (items : List Item) (path other : CStr) (i' : Item) {i : Item}
    → lookup_item items path ≡ some i
    → drop 1 i'.file ≡ path
    → lookup_item (update_item items path i') other
      ≡ (if streq path other then some i' else lookup_item items other)
unfolding lookup_item update_item
lookup_item-update_item [] path other i' h key = absurd (cc)
lookup_item-update_item (j ∷ items) path other i' {i} h key = ground (
  arith,
  streq_iff (drop 1 j.file) path,
  streq_iff (drop 1 j.file) other,
  streq_iff path other,
  lookup_item-update_item items path other i' {i = i},
)

lookup_item-append :
    (items : List Item) (path other : CStr) (i' : Item)
    → lookup_item items path ≡ none
    → drop 1 i'.file ≡ path
    → lookup_item (items ++ i' ∷ []) other
      ≡ (if streq path other then some i' else lookup_item items other)
unfolding lookup_item
lookup_item-append [] path other i' h key = rw key
lookup_item-append (j ∷ items) path other i' h key = ground (
  arith,
  streq_iff (drop 1 j.file) path,
  streq_iff (drop 1 j.file) other,
  streq_iff path other,
  lookup_item-append items path other i',
)

-- A call of collect_file changes the item of its own path, and the item of no other path.
pub lookup_item-collect_file :
    (ignore_conflicts : Bool) (e : Entry) (items : List Item) (path : CStr)
    → lookup_item (collect_file ignore_conflicts e items).0 path ≡ (
        if streq e.file path
        then some (collected ignore_conflicts e (lookup_item items e.file))
        else lookup_item items path)
unfolding collect_file
lookup_item-collect_file ig e items path = elim (Option-cases (lookup_item items e.file)) [
  | inl h ↦
      rw (h, collect_file)
        (lookup_item-append items e.file path (add_side e (add_item e.file)) h
          (ap (drop 1) (add_side-file e (add_item e.file)).0 ∙ unfold add_item in refl))
  | inr (i, h) ↦
      rw (h, collect_file)
        (lookup_item-update_item items e.file path (collect_known ig e i).0 h
          (ap (drop 1) (collect_known-file ig e i).0 ∙ lookup_item-key items e.file h))
]

-- A well-formed table: `len` is the length of the path, and no path stands twice.
abbrev pub Unlisted : CStr → List Item → Type 0
Unlisted path = All (λ j. streq (drop 1 j.file) path ≡ false)

abbrev pub Unique : List Item → Type 0
Unique [] = Unit
Unique (i ∷ items) = Unlisted (drop 1 i.file) items × Unique items

pub record IsTable (items : List Item) : Type 0 where
  pub lengths : All (λ i. i.len ≡ length i.file) items
  pub unique : Unique items

lookup_item-Unlisted :
    (items : List Item) (path : CStr) → lookup_item items path ≡ none → Unlisted path items
unfolding lookup_item
lookup_item-Unlisted [] path h = tt
lookup_item-Unlisted (j ∷ items) path h = elim (Bool-cases (streq (drop 1 j.file) path)) [
  | inl e ↦ absurd (ground arith)
  | inr e ↦ (e, lookup_item-Unlisted items path (ground arith))
]

streq_sym : (a b : CStr) → streq a b ≡ false → streq b a ≡ false
streq_sym a b h = ground (arith, streq_iff a b, streq_iff b a)

Unlisted-concat :
    (path : CStr) (items : List Item) (i : Item)
    → Unlisted path items
    → streq (drop 1 i.file) path ≡ false
    → Unlisted path (items ++ i ∷ [])
Unlisted-concat path [] i h e = (e, tt)
Unlisted-concat path (j ∷ items) i h e = (h.0, Unlisted-concat path items i h.1 e)

Unique-concat :
    (items : List Item) (i : Item)
    → Unique items
    → Unlisted (drop 1 i.file) items
    → Unique (items ++ i ∷ [])
Unique-concat [] i u h = (tt, tt)
Unique-concat (j ∷ items) i u h = (
  Unlisted-concat (drop 1 j.file) items i u.0 (streq_sym (drop 1 j.file) (drop 1 i.file) h.0),
  Unique-concat items i u.1 h.1,
)

Unlisted-update_item :
    (key path : CStr) (items : List Item) (i' : Item)
    → drop 1 i'.file ≡ path
    → Unlisted key items
    → Unlisted key (update_item items path i')
unfolding update_item
Unlisted-update_item key path [] i' e h = tt
Unlisted-update_item key path (j ∷ items) i' e h = elim (Bool-cases (streq (drop 1 j.file) path)) [
  | inl s ↦
      let same : drop 1 j.file ≡ drop 1 i'.file = (streq_iff (drop 1 j.file) path).0 s ∙ sym e in
      rw s (rw same at h.0, h.1)
  | inr s ↦ rw s (h.0, Unlisted-update_item key path items i' e h.1)
]

Unique-update_item :
    (path : CStr) (items : List Item) (i' : Item)
    → drop 1 i'.file ≡ path
    → Unique items
    → Unique (update_item items path i')
unfolding update_item
Unique-update_item path [] i' e u = tt
Unique-update_item path (j ∷ items) i' e u = elim (Bool-cases (streq (drop 1 j.file) path)) [
  | inl s ↦
      let same : drop 1 j.file ≡ drop 1 i'.file = (streq_iff (drop 1 j.file) path).0 s ∙ sym e in
      rw s (rw same at u.0, u.1)
  | inr s ↦ rw s (
    Unlisted-update_item (drop 1 j.file) path items i' e u.0,
    Unique-update_item path items i' e u.1,
  )
]

lengths-concat :
    (items : List Item) (i : Item)
    → All (λ j. j.len ≡ length j.file) items
    → i.len ≡ length i.file
    → All (λ j. j.len ≡ length j.file) (items ++ i ∷ [])
lengths-concat [] i h e = (e, tt)
lengths-concat (j ∷ items) i h e = (h.0, lengths-concat items i h.1 e)

lengths-update_item :
    (path : CStr) (items : List Item) (i' : Item)
    → i'.len ≡ length i'.file
    → All (λ j. j.len ≡ length j.file) items
    → All (λ j. j.len ≡ length j.file) (update_item items path i')
unfolding update_item
lengths-update_item path [] i' e h = tt
lengths-update_item path (j ∷ items) i' e h = elim (Bool-cases (streq (drop 1 j.file) path)) [
  | inl s ↦ rw s (e, h.1)
  | inr s ↦ rw s (h.0, lengths-update_item path items i' e h.1)
]

lookup_item-length :
    (items : List Item) (path : CStr) {i : Item}
    → All (λ j. j.len ≡ length j.file) items
    → lookup_item items path ≡ some i
    → i.len ≡ length i.file
unfolding lookup_item
lookup_item-length [] path all h = absurd (cc)
lookup_item-length (j ∷ items) path {i} all h = elim (Bool-cases (streq (drop 1 j.file) path)) [
  | inl e ↦ let same : j ≡ i = ground arith in rw (← same) all.0
  | inr e ↦ lookup_item-length items path {i = i} all.1 (ground arith)
]

-- Every call of collect_file, whatever it returns, keeps the table well formed.
pub collect_file-IsTable :
    (ignore_conflicts : Bool) (e : Entry) (items : List Item)
    → IsTable items
    → IsTable (collect_file ignore_conflicts e items).0
unfolding collect_file
collect_file-IsTable ig e items t = elim (Option-cases (lookup_item items e.file)) [
  | inl h ↦
      rw (h, collect_file)
        (record {
          lengths = lengths-concat items fresh t.lengths (unfold add_item add_side in ground arith);
          unique =
              Unique-concat items fresh t.unique
                (rw fresh_key (lookup_item-Unlisted items e.file h));
        })
  | inr (i, h) ↦
      rw (h, collect_file)
        (record {
          lengths =
              lengths-update_item e.file items (collect_known ig e i).0
                (ground
                  (arith, collect_known-file ig e i, lookup_item-length items e.file t.lengths h))
                t.lengths;
          unique =
              Unique-update_item e.file items (collect_known ig e i).0
                (ap (drop 1) (collect_known-file ig e i).0 ∙ lookup_item-key items e.file h)
                t.unique;
        })
]
  where
    fresh : Item
    fresh = add_side e (add_item e.file)

    fresh_key : drop 1 fresh.file ≡ e.file
    fresh_key = ap (drop 1) (add_side-file e (add_item e.file)).0 ∙ unfold add_item in refl
