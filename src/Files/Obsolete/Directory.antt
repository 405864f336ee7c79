-- ===== src/Files/Obsolete/Directory.antt =====
-- A directory that a link or a file replaces.
use xbps.Common.{
  ℕ, zero, suc, ◌≤◌, ◌<◌, true, false, none, some, List, [], ◌∷◌, ◌++◌, ◌≡◌, ◌≢◌, refl, ◌⊎◌, inl,
  inr, CStr, All, In, All-In, arith, Option-cases, length,
}
use xbps.Util.Pattern.{byte_at}
use xbps.Files.Types.{Item, dir, link, regular}
use xbps.Files.Sort.{LongestFirst}
use xbps.Files.Obsolete.{
  Env, entries, match_preserved_file, has_dir_prefix, count_removed, can_delete_directory,
  change_of, verdict, Sweep, done, sweep, sweep_step, apply_verdict, collect_obsoletes,
}
use xbps.Files.Obsolete.Steps.{sweep-cons, Round, kept, vanished, removed, sweep_step-Round}
use xbps.Files.Obsolete.Justified.{All-append}
use xbps.Files.Obsolete.Order.{HasLength}

-- What lies below a directory has a longer path.
byte_at_nul : (s : CStr) (n : ℕ) → byte_at s n ≢ 0 → n < length s
unfolding byte_at
byte_at_nul [] n h = absurd (h refl)
byte_at_nul (c ∷ s) zero h = omega arith
byte_at_nul (c ∷ s) (suc n) h = omega (arith, byte_at_nul s n h)

has_dir_prefix-lt : (d file : CStr) (n : ℕ) → has_dir_prefix d n file ≡ true → n < length file
unfolding has_dir_prefix
has_dir_prefix-lt d file n h = byte_at_nul file n (λ e. ground arith)

-- Everything tracked below the directory is marked as deleted.
abbrev pub Emptied : CStr → ℕ → List Item → Type 0
Emptied d dirlen = All (λ j. has_dir_prefix d dirlen j.file ≡ true → j.deleted ≡ true)

count_removed-Emptied :
    (d : CStr) (dirlen : ℕ) (before : List Item) {n : ℕ}
    → count_removed d dirlen before ≡ some n
    → Emptied d dirlen before
unfolding count_removed
count_removed-Emptied d dirlen [] h = tt
count_removed-Emptied d dirlen (i ∷ items) {n} h =
    elim (Option-cases (count_removed d dirlen items)) [
      | inl e ↦ ((λ p. ground arith), absurd (ground arith))
      | inr (m, e) ↦ ((λ p. ground arith), count_removed-Emptied d dirlen items e)
    ]

-- A directory on disk that a link or a file of the transaction replaces.
pub record Replaced (env : Env) (i : Item) : Type 0 where
  pub content : ℕ
  pub on_disk : env.opendir i.file ≡ entries content
  pub was_dir : i.old.type ≡ dir
  pub becomes : (i.new.type ≡ link) ⊎ (i.new.type ≡ regular)
  pub not_preserved : match_preserved_file env i.file ≡ false

sweep_step-Emptied :
    (env : Env) (s : Sweep) (i : Item) {s1 : Sweep}
    → sweep_step env s i ≡ done s1
    → Replaced env i
    → Emptied i.file i.len s.before
unfolding sweep_step apply_verdict verdict change_of can_delete_directory
sweep_step-Emptied env s i h r = elim (Option-cases (count_removed i.file i.len s.before)) [
  | inl e ↦ absurd (ground arith)
  | inr (n, e) ↦ count_removed-Emptied i.file i.len s.before e
]

abbrev AllEmptied : Env → List Item → List Item → Type 0
AllEmptied env whole = All (λ k. Replaced env k → Emptied k.file k.len whole)

-- A path that is no longer than the directory's does not lie below it.
Emptied-concat :
    (d : CStr) (n : ℕ) (whole : List Item) (x : Item)
    → HasLength x
    → x.len ≤ n
    → Emptied d n whole
    → Emptied d n (whole ++ x ∷ [])
Emptied-concat d n whole x len le h =
    All-append (λ j. has_dir_prefix d n j.file ≡ true → j.deleted ≡ true) whole (x ∷ []) h
      ((λ p. absurd (omega (arith, has_dir_prefix-lt d x.file n p))), tt)

AllEmptied-concat :
    (env : Env) (part whole : List Item) (x : Item)
    → HasLength x
    → All (λ k. x.len ≤ k.len) part
    → AllEmptied env whole part
    → AllEmptied env (whole ++ x ∷ []) part
AllEmptied-concat env [] whole x len le h = tt
AllEmptied-concat env (k ∷ part) whole x len le h = (
  (λ r. Emptied-concat k.file k.len whole x len le.0 (h.0 r)),
  AllEmptied-concat env part whole x len le.1 h.1,
)

record Clean (env : Env) (before rest : List Item) : Type 0 where
  emptied : AllEmptied env before before
  longer : All (λ j. All (λ k. j.len ≤ k.len) before) rest

All-longer :
    (before rest : List Item) (x : Item)
    → All (λ j. j.len ≤ x.len) rest
    → All (λ j. All (λ k. j.len ≤ k.len) before) rest
    → All (λ j. All (λ k. j.len ≤ k.len) (before ++ x ∷ [])) rest
All-longer before [] x le h = tt
All-longer before (j ∷ rest) x le h = (
  All-append (λ k. j.len ≤ k.len) before (x ∷ []) h.0 (le.0, tt),
  All-longer before rest x le.1 h.1,
)

Clean-concat :
    (env : Env) (before rest : List Item) (x : Item)
    → HasLength x
    → All (λ k. x.len ≤ k.len) before
    → All (λ j. j.len ≤ x.len) rest
    → Clean env before (x ∷ rest)
    → (Replaced env x → Emptied x.file x.len before)
    → Clean env (before ++ x ∷ []) rest
Clean-concat env before rest x len le below c empty = record {
  emptied =
      All-append (λ k. Replaced env k → Emptied k.file k.len (before ++ x ∷ [])) before (x ∷ [])
        (AllEmptied-concat env before before x len le c.emptied)
        ((λ r. Emptied-concat x.file x.len before x len (omega arith) (empty r)), tt);
  longer = All-longer before rest x below c.longer.1;
}

sweep-Clean :
    (env : Env) (items : List Item) (s : Sweep) {s' : Sweep}
    → LongestFirst items
    → All HasLength items
    → Clean env s.before items
    → sweep env s items ≡ done s'
    → AllEmptied env s'.before s'.before
sweep-Clean env [] s {s'} sorted len c h =
    let same : s.before ≡ s'.before = unfold sweep in ground arith in rw same at c.emptied
sweep-Clean env (i ∷ items) s {s'} sorted len c h =
    let (s1, first, later) = sweep-cons env s i items h in
    sweep-Clean env items s1 sorted.1 len.1
      (step (sweep_step-Emptied env s i first) (sweep_step-Round env s i first)) later
  where
    add :
        (x : Item)
        → HasLength x
        → x.len ≡ i.len
        → (Replaced env x → Emptied x.file x.len s.before)
        → Clean env (s.before ++ x ∷ []) items
    add x l e empty =
        Clean-concat env s.before items x l (rw e c.longer.0) (rw e sorted.0)
          (record { emptied = c.emptied; longer = (rw e c.longer.0, c.longer.1) }) empty

    deleted : Item
    deleted = record i { deleted = true }

    same : Replaced env deleted → Replaced env i
    same r = record {
      content = r.content;
      on_disk = r.on_disk;
      was_dir = r.was_dir;
      becomes = r.becomes;
      not_preserved = r.not_preserved;
    }

    step :
        {s1 : Sweep}
        → (Replaced env i → Emptied i.file i.len s.before)
        → Round env s i s1
        → Clean env s1.before items
    step empty (kept b o) = rw b (add i len.0 refl empty)
    step empty (vanished b o) = rw b (add deleted len.0 refl (λ r. empty (same r)))
    step empty (removed rv v b o) = rw b (add deleted len.0 refl (λ r. empty (same r)))

longer_nil : (items : List Item) → All (λ j. All (λ (k : Item). j.len ≤ k.len) []) items
longer_nil [] = tt
longer_nil (i ∷ items) = (tt, longer_nil items)

-- Over items sorted longest path first, whose `len` is the length of the path: when
-- collect_obsoletes reaches its end, every item of its table below a directory that is on disk, is not
-- preserved and is replaced by a link or a file, is marked as deleted.
pub collect_obsoletes_empties :
    (env : Env) (items : List Item) {s : Sweep} {d j : Item}
    → LongestFirst items
    → All HasLength items
    → collect_obsoletes env items [] ≡ done s
    → In d s.before
    → Replaced env d
    → In j s.before
    → has_dir_prefix d.file d.len j.file ≡ true
    → j.deleted ≡ true
unfolding collect_obsoletes
collect_obsoletes_empties env items {s} {d} {j} sorted len h in_d r in_j below =
    let start : Sweep = record { before = []; obsd = []; rv = none } in
    let clean : AllEmptied env s.before s.before =
      sweep-Clean env items start sorted len (record { emptied = tt; longer = longer_nil items })
        h in
    All-In (λ k. has_dir_prefix d.file d.len k.file ≡ true → k.deleted ≡ true) in_j
      (All-In (λ k. Replaced env k → Emptied k.file k.len s.before) in_d clean r) below
