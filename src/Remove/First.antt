-- ===== src/Remove/First.antt =====
-- What is removed.
use xbps.Common.{
  ℕ, ◌+◌, length, some, List, [], ◌∷◌, ◌++◌, ◌≡◌, ◌↔◌, refl, ap, sym, ◌∙◌, inl, inr, All, arith,
  Option-cases,
}
use xbps.Match.{Probe, hit, miss, stop}
use xbps.Remove.{find_idx, array_remove, remove_obj_from_array}

-- The array less an element that is hit, in front of which each element was passed over.
pub record FirstRemoved {ℓ} {A : Type ℓ} (test : A → Probe) (array kept : List A) : Type ℓ where
  pub before : List A
  pub obj : A
  pub after : List A
  pub splits : array ≡ before ++ obj ∷ after
  pub passed : All (λ o. test o ≡ miss) before
  pub is_hit : test obj ≡ hit
  pub leaves : kept ≡ before ++ after

module _ {ℓ} {A : Type ℓ} (test : A → Probe) where
  -- The index counts the elements that were passed over.
  record FoundAt (array : List A) (idx k : ℕ) : Type ℓ where
    before : List A
    obj : A
    after : List A
    splits : array ≡ before ++ obj ∷ after
    passed : All (λ o. test o ≡ miss) before
    is_hit : test obj ≡ hit
    counts : k ≡ idx + length before

  find_idx-FoundAt :
      (array : List A) (idx : ℕ) {k : ℕ} → find_idx test array idx ≡ some k → FoundAt array idx k
  unfolding find_idx
  find_idx-FoundAt [] idx h = absurd (cc)
  find_idx-FoundAt (o ∷ array) idx {k} h =
      step (λ e. find_idx-FoundAt array (idx + 1) {k = k} e) (test o) refl
    where
      step :
          (find_idx test array (idx + 1) ≡ some k → FoundAt array (idx + 1) k)
          → (p : Probe) → test o ≡ p
          → FoundAt (o ∷ array) idx k
      step rec hit e = record {
        before = [];
        obj = o;
        after = array;
        splits = refl;
        passed = tt;
        is_hit = e;
        counts = ground (arith, h, e);
      }
      step rec miss e =
          let f = rec (ground (arith, h, e)) in
          let c = f.counts in
          record {
            before = o ∷ f.before;
            obj = f.obj;
            after = f.after;
            splits = ap (◌∷◌ o) f.splits;
            passed = (e, f.passed);
            is_hit = f.is_hit;
            counts = omega (arith, c);
          }
      step rec stop e = absurd (ground (arith, h, e))

  find_idx-split :
      (before : List A) (obj : A) (after : List A) (idx : ℕ)
      → All (λ o. test o ≡ miss) before
      → test obj ≡ hit
      → find_idx test (before ++ obj ∷ after) idx ≡ some (idx + length before)
  unfolding find_idx
  find_idx-split [] obj after idx passed h = ground (arith, h)
  find_idx-split (o ∷ before) obj after idx passed h =
      let rest = find_idx-split before obj after (idx + 1) passed.1 h in
      let p = passed.0 in ground (arith, rest, p)

  array_remove-split :
      (before : List A) (obj : A) (after : List A)
      → array_remove (before ++ obj ∷ after) (length before) ≡ before ++ after
  unfolding array_remove
  array_remove-split [] obj after = refl
  array_remove-split (o ∷ before) obj after = ap (◌∷◌ o) (array_remove-split before obj after)

  to_FirstRemoved :
      (array : List A) {kept : List A}
      → remove_obj_from_array test array ≡ some kept
      → FirstRemoved test array kept
  unfolding remove_obj_from_array
  to_FirstRemoved array {kept} h = elim (Option-cases (find_idx test array 0)) [
    | inl e ↦ absurd (ground (arith, h, e))
    | inr (k, e) ↦
        let f = find_idx-FoundAt array 0 e in
        let same : array_remove array k ≡ kept = ground (arith, h, e) in
        let count : k ≡ length f.before = (let c = f.counts in omega (arith, c)) in
        record {
          before = f.before;
          obj = f.obj;
          after = f.after;
          splits = f.splits;
          passed = f.passed;
          is_hit = f.is_hit;
          leaves =
              sym same
              ∙ ap (array_remove array) count
              ∙ ap (λ a. array_remove a (length f.before)) f.splits
              ∙ array_remove-split f.before f.obj f.after;
        }
  ]

  from_split :
      (before : List A) (obj : A) (after : List A)
      → All (λ o. test o ≡ miss) before
      → test obj ≡ hit
      → remove_obj_from_array test (before ++ obj ∷ after) ≡ some (before ++ after)
  unfolding remove_obj_from_array
  from_split before obj after passed h =
      let found = find_idx-split before obj after 0 passed h in
      let left_over = array_remove-split before obj after in
      let zero_first : 0 + length before ≡ length before = omega arith in
      rw (found, remove_obj_from_array) (rw zero_first (ap some left_over))

-- The removal succeeds exactly when some element is a hit and no element
-- in front of it ended the search, and then it leaves the array without this element, in order.
pub remove_obj_from_array_iff {ℓ} :
    {A : Type ℓ} (test : A → Probe) (array kept : List A)
    → (remove_obj_from_array test array ≡ some kept) ↔ FirstRemoved test array kept
remove_obj_from_array_iff test array kept = (
  (λ h. to_FirstRemoved test array h),
  (λ f.
      ap (remove_obj_from_array test) f.splits
      ∙ from_split test f.before f.obj f.after f.passed f.is_hit
      ∙ ap some (sym f.leaves)),
)

module _ {ℓ} {A : Type ℓ} (test : A → Probe) (o : A) (array : List A) where
  pub remove_obj_from_array-hit : test o ≡ hit → remove_obj_from_array test (o ∷ array) ≡ some array
  remove_obj_from_array-hit e = from_split test [] o array tt e

  pub remove_obj_from_array-miss :
      {kept : List A}
      → test o ≡ miss
      → remove_obj_from_array test array ≡ some kept
      → remove_obj_from_array test (o ∷ array) ≡ some (o ∷ kept)
  remove_obj_from_array-miss e h =
      let f = to_FirstRemoved test array h in
      ap (λ a. remove_obj_from_array test (o ∷ a)) f.splits
      ∙ from_split test (o ∷ f.before) f.obj f.after (e, f.passed) f.is_hit
      ∙ ap (λ k. some (o ∷ k)) (sym f.leaves)
