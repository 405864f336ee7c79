-- ===== src/Files/Obsolete/Justified.antt =====
-- What collect_obsoletes schedules for removal, and why it may.
use xbps.Common.{
  true, false, none, some, List, [], ◌∷◌, ◌++◌, ◌≡◌, ◌≢◌, refl, ◌⊎◌, inl, inr, sym, ◌∙◌,
  append_assoc, CStr, streq, All, In, here, there, arith, Rv, Errno, Bool-cases, Option-cases,
}
use xbps.Files.Types.{unset, conffile, Item}
use xbps.Files.Obsolete.Steps.{sweep-cons, Round, kept, vanished, removed, sweep_step-Round}
use xbps.Files.Obsolete.{
  Env, HashCheck, same, absent, failed, mismatch, Obsoletes, match_preserved_file, is_basesymlink,
  remove, obsolete, change_of, check_hash, verdict, remover, add_obsolete, Sweep, done, sweep,
  collect_obsoletes,
}

-- The old file is not provided any more and is not to be preserved, or its type changes.
abbrev pub TypeGoes : Item → Type 0
TypeGoes i =
    ((i.new.type ≡ unset) × (i.old.preserve ≡ false))
    ⊎ ((i.new.type ≢ unset)
        × (i.new.type ≢ conffile)
        × (i.old.type ≢ unset)
        × (i.new.type ≢ i.old.type))

-- No hash is stored; the content has the stored hash; it could not be read to be compared; or it
-- differs, but the package goes and removal is forced.
pub data HashGoes (env : Env) (i : Item) : Type 0 where
  no_hash : i.old.sha256 ≡ none → HashGoes env i
  unmodified :
      (sha : CStr) → i.old.sha256 ≡ some sha → env.sha256_check i.file sha ≡ same → HashGoes env i
  unchecked :
      (sha : CStr) (e : Errno)
      → i.old.sha256 ≡ some sha
      → env.sha256_check i.file sha ≡ failed e
      → HashGoes env i
  forced :
      (sha : CStr)
      → i.old.sha256 ≡ some sha
      → env.sha256_check i.file sha ≡ mismatch
      → env.force_remove_files ≡ true
      → i.old.removepkg ≡ true
      → i.new.pkgname ≡ none
      → HashGoes env i

pub record MayGo (env : Env) (i : Item) : Type 0 where
  pub not_preserved : match_preserved_file env i.file ≡ false
  pub not_basesymlink : is_basesymlink i.file ≡ false
  pub type_goes : TypeGoes i
  pub hash_goes : HashGoes env i

change_of-TypeGoes :
    (env : Env) (before : List Item) (i : Item)
    → change_of env before i ≡ obsolete
    → (match_preserved_file env i.file ≡ false) × TypeGoes i
unfolding change_of
change_of-TypeGoes env before i h = ground arith

check_hash-HashGoes :
    (env : Env) (rv : Rv) (i : Item) {rv' : Rv} → check_hash env rv i ≡ remove rv' → HashGoes env i
unfolding check_hash
check_hash-HashGoes env rv i h = elim (Option-cases i.old.sha256) [
  | inl e ↦ no_hash e
  | inr (sha, e) ↦ go sha e (env.sha256_check i.file sha) refl
]
  where
    go :
        (sha : CStr)
        → i.old.sha256 ≡ some sha
        → (c : HashCheck) → env.sha256_check i.file sha ≡ c
        → HashGoes env i
    go sha e mismatch x = forced sha e x (ground arith) (ground arith) (ground arith)
    go sha e same x = unmodified sha e x
    go sha e absent x = absurd (ground (arith, h, e, x))
    go sha e (failed y) x = unchecked sha y e x

verdict-MayGo :
    (env : Env) (before : List Item) (rv : Rv) (i : Item) {rv' : Rv}
    → verdict env before rv i ≡ remove rv'
    → MayGo env i
unfolding verdict
verdict-MayGo env before rv i {rv'} h =
    let (goes, type_goes) = change_of-TypeGoes env before i (ground arith) in
    record {
      not_preserved = goes;
      not_basesymlink = ground arith;
      type_goes = type_goes;
      hash_goes = check_hash-HashGoes env rv i {rv' = rv'} (ground arith);
    }

-- Every file in the arrays satisfies the predicate.
abbrev pub AllFiles : (CStr → Type 0) → Obsoletes → Type 0
AllFiles P = All (λ e. All P e.1)

pub All-append :
    {A : Type 0} (P : A → Type 0) (xs ys : List A) → All P xs → All P ys → All P (xs ++ ys)
All-append P [] ys hx hy = hy
All-append P (x ∷ xs) ys hx hy = (hx.0, All-append P xs ys hx.1 hy)

pub add_obsolete-AllFiles :
    (P : CStr → Type 0) (pkgname file : CStr) (obsd : Obsoletes)
    → P file
    → AllFiles P obsd
    → AllFiles P (add_obsolete pkgname file obsd)
unfolding add_obsolete
add_obsolete-AllFiles P pkgname file [] h all = ((h, tt), tt)
add_obsolete-AllFiles P pkgname file ((p, files) ∷ obsd) h all =
    elim (Bool-cases (streq p pkgname)) [
      | inl e ↦ rw e (All-append P files (file ∷ []) all.0 (h, tt), all.1)
      | inr e ↦ rw e (all.0, add_obsolete-AllFiles P pkgname file obsd h all.1)
    ]

-- The file is that of an item of the table that may go.
pub record Justified (env : Env) (items : List Item) (file : CStr) : Type 0 where
  pub item : Item
  pub listed : In item items
  pub is_file : item.file ≡ file
  pub may_go : MayGo env item

In-middle : {A : Type 0} (before : List A) (a : A) (after : List A) → In a (before ++ a ∷ after)
In-middle [] a after = here
In-middle (x ∷ before) a after = there (In-middle before a after)

-- The table is the part seen, as it was, and the rest.
sweep-Justified :
    (env : Env) (table seen rest : List Item) (s : Sweep) {s' : Sweep}
    → table ≡ seen ++ rest
    → AllFiles (Justified env table) s.obsd
    → sweep env s rest ≡ done s'
    → AllFiles (Justified env table) s'.obsd
sweep-Justified env table seen [] s {s'} e all h =
    let same : s.obsd ≡ s'.obsd = unfold sweep in ground arith in rw same at all
sweep-Justified env table seen (i ∷ rest) s {s'} e all h =
    let (s1, first, later) = sweep-cons env s i rest h in
    sweep-Justified env table (seen ++ i ∷ []) rest s1 (e ∙ sym (append_assoc seen (i ∷ []) rest))
      (step (sweep_step-Round env s i first)) later
  where
    item_listed : In i table
    item_listed = rw e (In-middle seen i rest)

    step : {s1 : Sweep} → Round env s i s1 → AllFiles (Justified env table) s1.obsd
    step (kept b o) = rw o all
    step (vanished b o) = rw o all
    step (removed rv v b o) = rw o (
        add_obsolete-AllFiles (Justified env table) (remover i) i.file s.obsd
          (record {
            item = i;
            listed = item_listed;
            is_file = refl;
            may_go = verdict-MayGo env s.before s.rv i v;
          })
          all)

-- Every file that a collect_obsoletes which reaches its end adds to empty arrays is that of an item
-- of the table which is not listed as preserved, is no base symlink, is either not provided any more
-- and not to be preserved or of another type than before (and never a new configuration file), and
-- for which no hash is stored, or whose content has the stored hash, or could not be read to be
-- compared for another reason than that the file is not there, or differs while the package goes
-- and removal is forced.
pub collect_obsoletes-Justified :
    (env : Env) (items : List Item) {s : Sweep}
    → collect_obsoletes env items [] ≡ done s
    → AllFiles (Justified env items) s.obsd
unfolding collect_obsoletes
collect_obsoletes-Justified env items h =
    sweep-Justified env items [] items (record { before = []; obsd = []; rv = none }) refl tt h
