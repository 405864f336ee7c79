-- ===== src/Files/Obsolete/Order.antt =====
-- The order in which a package's obsolete files are removed.
use xbps.Common.{
  ℕ, ◌≤◌, List, [], ◌∷◌, ◌++◌, ◌≡◌, inl, inr, CStr, streq, All, arith, Bool-cases, length, none,
}
use xbps.Files.Types.{Item}
use xbps.Files.Sort.{LongestFirst}
use xbps.Files.Obsolete.{
  Env, Obsoletes, remover, add_obsolete, Sweep, done, sweep, collect_obsoletes,
}
use xbps.Files.Obsolete.Steps.{sweep-cons, Round, kept, vanished, removed, sweep_step-Round}
use xbps.Files.Obsolete.Justified.{AllFiles, add_obsolete-AllFiles}

-- No file is followed by one with a longer path.
abbrev pub Shrinks : List CStr → Type 0
Shrinks [] = Unit
Shrinks (f ∷ fs) = All (λ g. length g ≤ length f) fs × Shrinks fs

abbrev pub AllArrays : (List CStr → Type 0) → Obsoletes → Type 0
AllArrays P = All (λ e. P e.1)

abbrev pub HasLength : Item → Type 0
HasLength i = i.len ≡ length i.file

abbrev AtLeast : ℕ → Obsoletes → Type 0
AtLeast n = AllFiles (λ f. n ≤ length f)

All-concat :
    (n : ℕ) (fs : List CStr) (f : CStr)
    → length f ≤ n
    → All (λ g. length g ≤ n) fs
    → All (λ g. length g ≤ n) (fs ++ f ∷ [])
All-concat n [] f h all = (h, tt)
All-concat n (g ∷ fs) f h all = (all.0, All-concat n fs f h all.1)

Shrinks-concat :
    (fs : List CStr) (f : CStr)
    → Shrinks fs
    → All (λ g. length f ≤ length g) fs
    → Shrinks (fs ++ f ∷ [])
Shrinks-concat [] f s all = (tt, tt)
Shrinks-concat (g ∷ fs) f s all =
    (All-concat (length g) fs f all.0 s.0, Shrinks-concat fs f s.1 all.1)

add_obsolete-Shrinks :
    (pkgname file : CStr) (obsd : Obsoletes)
    → AllArrays Shrinks obsd
    → AtLeast (length file) obsd
    → AllArrays Shrinks (add_obsolete pkgname file obsd)
unfolding add_obsolete
add_obsolete-Shrinks pkgname file [] s all = ((tt, tt), tt)
add_obsolete-Shrinks pkgname file ((p, files) ∷ obsd) s all = elim (Bool-cases (streq p pkgname)) [
  | inl e ↦ rw e (Shrinks-concat files file s.0 all.0, s.1)
  | inr e ↦ rw e (s.0, add_obsolete-Shrinks pkgname file obsd s.1 all.1)
]

-- What holds between two rounds: the arrays shrink, and the items to come are no longer than
-- the files in them.
record Ordered (obsd : Obsoletes) (rest : List Item) : Type 0 where
  arrays : AllArrays Shrinks obsd
  bounded : All (λ i. AtLeast i.len obsd) rest

All-AtLeast :
    (pkgname : CStr) (i : Item) (obsd : Obsoletes) (rest : List Item)
    → HasLength i
    → All (λ j. j.len ≤ i.len) rest
    → All (λ j. AtLeast j.len obsd) rest
    → All (λ j. AtLeast j.len (add_obsolete pkgname i.file obsd)) rest
All-AtLeast pkgname i obsd [] e le all = tt
All-AtLeast pkgname i obsd (j ∷ rest) e le all = (
  add_obsolete-AllFiles (λ f. j.len ≤ length f) pkgname i.file obsd (omega arith) all.0,
  All-AtLeast pkgname i obsd rest e le.1 all.1,
)

sweep-Shrinks :
    (env : Env) (items : List Item) (s : Sweep) {s' : Sweep}
    → LongestFirst items
    → All HasLength items
    → Ordered s.obsd items
    → sweep env s items ≡ done s'
    → AllArrays Shrinks s'.obsd
sweep-Shrinks env [] s {s'} sorted len o h =
    let same : s.obsd ≡ s'.obsd = unfold sweep in ground arith in rw same at o.arrays
sweep-Shrinks env (i ∷ items) s {s'} sorted len o h =
    let (s1, first, later) = sweep-cons env s i items h in
    sweep-Shrinks env items s1 sorted.1 len.1 (step (sweep_step-Round env s i first)) later
  where
    unchanged : Ordered s.obsd items
    unchanged = record { arrays = o.arrays; bounded = o.bounded.1 }

    step : {s1 : Sweep} → Round env s i s1 → Ordered s1.obsd items
    step (kept b e) = rw e unchanged
    step (vanished b e) = rw e unchanged
    step (removed rv v b e) = rw e (record {
      arrays = add_obsolete-Shrinks (remover i) i.file s.obsd o.arrays (rw len.0 at o.bounded.0);
      bounded = All-AtLeast (remover i) i s.obsd items len.0 sorted.0 o.bounded.1;
    })

All-AtLeast_nil : (items : List Item) → All (λ i. AtLeast i.len []) items
All-AtLeast_nil [] = tt
All-AtLeast_nil (i ∷ items) = (tt, All-AtLeast_nil items)

-- Over items sorted longest path first, whose `len` is the length of the path, the array of each
-- package that collect_obsoletes fills from empty lists no path before a longer one.
pub collect_obsoletes-Shrinks :
    (env : Env) (items : List Item) {s : Sweep}
    → LongestFirst items
    → All HasLength items
    → collect_obsoletes env items [] ≡ done s
    → AllArrays Shrinks s.obsd
unfolding collect_obsoletes
collect_obsoletes-Shrinks env items sorted len h =
    sweep-Shrinks env items (record { before = []; obsd = []; rv = none }) sorted len
      (record { arrays = tt; bounded = All-AtLeast_nil items }) h
