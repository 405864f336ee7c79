-- ===== src/Files/Sort.antt =====
-- lib/transaction_files.c: the order of the items, longest path first.
use mathlib.Core.List.{Perm}
use mathlib.Core.List.Perm
use xbps.Common.{
  ℕ, Bool, List, [], ◌∷◌, ◌≤◌, if◌then◌else◌, ltb, ℤ, pos, negsuc, All, arith, Bool-cases, inl, inr,
  true, false,
}
use xbps.Files.Types.{Item}

-- `(a->len < b->len) - (b->len < a->len)`
unfoldable pub pathcmp : Item → Item → ℤ
pathcmp a b =
    if ltb a.len b.len
    then (if ltb b.len a.len then pos 0 else pos 1)
    else if ltb b.len a.len
    then negsuc 0
    else pos 0

abbrev is_positive : ℤ → Bool
is_positive (pos ℕ.zero) = false
is_positive (pos (ℕ.suc n)) = true
is_positive (negsuc n) = false

-- `qsort` with `pathcmp`. The C library leaves the order of equal items open; here it is that of
-- an insertion sort.
unfoldable pub insert_item : Item → List Item → List Item
insert_item i [] = i ∷ []
insert_item i (x ∷ xs) = if is_positive (pathcmp i x) then x ∷ insert_item i xs else i ∷ x ∷ xs

unfoldable pub sort_items : List Item → List Item
unfolding insert_item
sort_items [] = []
sort_items (x ∷ xs) = insert_item x (sort_items xs)

-- No path is followed by a longer one.
abbrev pub LongestFirst : List Item → Type 0
LongestFirst [] = Unit
LongestFirst (i ∷ items) = All (λ j. j.len ≤ i.len) items × LongestFirst items

All-insert_item :
    (P : Item → Type 0) (i : Item) (xs : List Item) → P i → All P xs → All P (insert_item i xs)
unfolding insert_item
All-insert_item P i [] h all = (h, tt)
All-insert_item P i (x ∷ xs) h all = elim (Bool-cases (is_positive (pathcmp i x))) [
  | inl e ↦ rw e (all.0, All-insert_item P i xs h all.1)
  | inr e ↦ rw e (h, all)
]

All-le : (n m : ℕ) (xs : List Item) → n ≤ m → All (λ j. j.len ≤ n) xs → All (λ j. j.len ≤ m) xs
All-le n m [] h all = tt
All-le n m (x ∷ xs) h all = (omega arith, All-le n m xs h all.1)

insert_item-LongestFirst :
    (i : Item) (xs : List Item) → LongestFirst xs → LongestFirst (insert_item i xs)
unfolding insert_item pathcmp
insert_item-LongestFirst i [] h = (tt, tt)
insert_item-LongestFirst i (x ∷ xs) h = elim (Bool-cases (is_positive (pathcmp i x))) [
  | inl e ↦ rw e (
    All-insert_item (λ j. j.len ≤ x.len) i xs (ground arith) h.0,
    insert_item-LongestFirst i xs h.1,
  )
  | inr e ↦ let le : x.len ≤ i.len = ground arith in rw e ((le, All-le x.len i.len xs le h.0), h)
]

insert_item-perm : (i : Item) (xs : List Item) → Perm (insert_item i xs) (i ∷ xs)
unfolding insert_item
insert_item-perm i [] = Perm.refl (i ∷ [])
insert_item-perm i (x ∷ xs) = elim (Bool-cases (is_positive (pathcmp i x))) [
  | inl e ↦ rw e (Perm.trans (Perm.cons x (insert_item-perm i xs)) (Perm.swap i x xs))
  | inr e ↦ rw e (Perm.refl (i ∷ x ∷ xs))
]

sort_items-LongestFirst : (xs : List Item) → LongestFirst (sort_items xs)
unfolding sort_items
sort_items-LongestFirst [] = tt
sort_items-LongestFirst (x ∷ xs) =
    insert_item-LongestFirst x (sort_items xs) (sort_items-LongestFirst xs)

pub All-sort_items : (P : Item → Type 0) (xs : List Item) → All P xs → All P (sort_items xs)
unfolding sort_items
All-sort_items P [] h = tt
All-sort_items P (x ∷ xs) h = All-insert_item P x (sort_items xs) h.0 (All-sort_items P xs h.1)

sort_items-perm : (xs : List Item) → Perm (sort_items xs) xs
unfolding sort_items
sort_items-perm [] = Perm.refl []
sort_items-perm (x ∷ xs) =
    Perm.trans (insert_item-perm x (sort_items xs)) (Perm.cons x (sort_items-perm xs))

-- Sorting keeps the items, each as often, and puts no path in front of a longer one.
pub sort_items_lem : (xs : List Item) → LongestFirst (sort_items xs) × Perm (sort_items xs) xs
sort_items_lem xs = (sort_items-LongestFirst xs, sort_items-perm xs)
