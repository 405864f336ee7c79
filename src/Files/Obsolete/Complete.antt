-- ===== src/Files/Obsolete/Complete.antt =====
-- No obsolete file is forgotten.
use xbps.Common.{
  false, none, some, List, [], ◌∷◌, ◌++◌, ◌≡◌, ◌≢◌, ◌⊎◌, inl, inr, sym, CStr, streq, streq_iff, In,
  here, there, In-append_left, In-last, arith, Rv, Bool-cases, subst,
}
use xbps.Files.Types.{unset, link, Item}
use xbps.Files.Obsolete.{
  Env, same, Obsoletes, match_preserved_file, is_basesymlink, change_of, keeps_symlink, check_hash,
  remove, verdict, remover, add_obsolete, Sweep, done, sweep, sweep_step, apply_verdict,
  collect_obsoletes,
}
use xbps.Files.Obsolete.Steps.{sweep-cons, Round, kept, vanished, removed, sweep_step-Round}

-- The package's array has the file.
pub data Scheduled (pkgname file : CStr) : Obsoletes → Type 0 where
  in_first :
      {files : List CStr} {obsd : Obsoletes}
      → In file files
      → Scheduled pkgname file ((pkgname, files) ∷ obsd)
  in_rest :
      {entry : CStr × List CStr} {obsd : Obsoletes}
      → Scheduled pkgname file obsd
      → Scheduled pkgname file (entry ∷ obsd)

-- A file that no package provides any more, with the content that was installed, that nothing
-- preserves: not a list, not its package, and it is no link of a package that is removed.
pub record IsObsolete (env : Env) (i : Item) : Type 0 where
  pub unprovided : i.new.type ≡ unset
  pub not_preserved : i.old.preserve ≡ false
  pub not_listed : match_preserved_file env i.file ≡ false
  pub not_basesymlink : is_basesymlink i.file ≡ false
  pub no_link : (i.old.type ≢ link) ⊎ (i.old.removepkg ≡ false)
  pub unmodified :
      (i.old.sha256 ≡ none)
      ⊎ ((sha : CStr) × (i.old.sha256 ≡ some sha) × (env.sha256_check i.file sha ≡ same))

no_link-keeps_symlink :
    (env : Env) (i : Item)
    → (i.old.type ≢ link) ⊎ (i.old.removepkg ≡ false)
    → keeps_symlink env i ≡ false
unfolding keeps_symlink
no_link-keeps_symlink env i h = ground arith

IsObsolete-verdict :
    (env : Env) (before : List Item) (rv : Rv) (i : Item)
    → IsObsolete env i
    → (rv' : Rv) × (verdict env before rv i ≡ remove rv')
unfolding verdict change_of check_hash
IsObsolete-verdict env before rv i h =
    let a = h.unprovided in
    let b = h.not_preserved in
    let c = h.not_listed in
    let d = h.not_basesymlink in
    let k = no_link-keeps_symlink env i h.no_link in
    elim (h.unmodified) [
      | inl e ↦ (rv, ground (arith, a, b, c, d, k, e))
      | inr (sha, e, f) ↦ (none, ground (arith, a, b, c, d, k, e, f))
    ]

add_obsolete-Scheduled :
    (pkgname file : CStr) (obsd : Obsoletes)
    → Scheduled pkgname file (add_obsolete pkgname file obsd)
unfolding add_obsolete
add_obsolete-Scheduled pkgname file [] = in_first here
add_obsolete-Scheduled pkgname file ((p, files) ∷ obsd) = elim (Bool-cases (streq p pkgname)) [
  | inl e ↦ rw e (
      subst (λ q. Scheduled pkgname file ((q, files ++ file ∷ []) ∷ obsd))
        (sym ((streq_iff p pkgname).0 e)) (in_first (In-last files file)))
  | inr e ↦ rw e (in_rest (add_obsolete-Scheduled pkgname file obsd))
]

add_obsolete-kept :
    {pkgname file : CStr} (p f : CStr) {obsd : Obsoletes}
    → Scheduled pkgname file obsd
    → Scheduled pkgname file (add_obsolete p f obsd)
unfolding add_obsolete
add_obsolete-kept {pkgname} p f (in_first i) = elim (Bool-cases (streq pkgname p)) [
  | inl e ↦ rw e (in_first (In-append_left (f ∷ []) i))
  | inr e ↦ rw e (in_first i)
]
add_obsolete-kept p f (in_rest {entry = (q, files)} s) = elim (Bool-cases (streq q p)) [
  | inl e ↦ rw e (in_rest s)
  | inr e ↦ rw e (in_rest (add_obsolete-kept p f s))
]

Round-kept :
    {env : Env} {s s1 : Sweep} {i : Item} {pkgname file : CStr}
    → Round env s i s1
    → Scheduled pkgname file s.obsd
    → Scheduled pkgname file s1.obsd
Round-kept (kept b o) h = rw o h
Round-kept (vanished b o) h = rw o h
Round-kept {i = i} (removed rv v b o) h = rw o (add_obsolete-kept (remover i) i.file h)

sweep-kept :
    (env : Env) {pkgname file : CStr} (s : Sweep) (rest : List Item) {s' : Sweep}
    → sweep env s rest ≡ done s'
    → Scheduled pkgname file s.obsd
    → Scheduled pkgname file s'.obsd
sweep-kept env s [] {s'} h k = let e : s.obsd ≡ s'.obsd = unfold sweep in ground arith in rw e at k
sweep-kept env s (i ∷ rest) {s'} h k =
    let (s1, first, later) = sweep-cons env s i rest h in
    sweep-kept env s1 rest later (Round-kept (sweep_step-Round env s i first) k)

IsObsolete-Scheduled :
    (env : Env) (s : Sweep) (i : Item) {s1 : Sweep}
    → sweep_step env s i ≡ done s1
    → IsObsolete env i
    → Scheduled (remover i) i.file s1.obsd
unfolding sweep_step apply_verdict
IsObsolete-Scheduled env s i {s1} h o =
    let (rv', v) = IsObsolete-verdict env s.before s.rv i o in
    let e : s1.obsd ≡ add_obsolete (remover i) i.file s.obsd = ground (arith, v) in
    rw e (add_obsolete-Scheduled (remover i) i.file s.obsd)

sweep-Scheduled :
    (env : Env) {i : Item} (s : Sweep) {rest : List Item} {s' : Sweep}
    → In i rest
    → IsObsolete env i
    → sweep env s rest ≡ done s'
    → Scheduled (remover i) i.file s'.obsd
sweep-Scheduled env {i} s (here {xs = rest}) o h =
    let (s1, first, later) = sweep-cons env s i rest h in
    sweep-kept env s1 rest later (IsObsolete-Scheduled env s i first o)
sweep-Scheduled env s (there {x = x} {xs = rest} j) o h =
    let (s1, first, later) = sweep-cons env s x rest h in sweep-Scheduled env s1 j o later

-- When collect_obsoletes reaches its end, the file of every item of the table that is not provided
-- any more, not preserved by its package or by a list, no base symlink, not a link of a package
-- that is removed, and that is without a hash or has the content that was installed, is in the
-- array of the package that removes it.
pub collect_obsoletes-Scheduled :
    (env : Env) (items : List Item) {s : Sweep} {i : Item}
    → collect_obsoletes env items [] ≡ done s
    → In i items
    → IsObsolete env i
    → Scheduled (remover i) i.file s.obsd
unfolding collect_obsoletes
collect_obsoletes-Scheduled env items h i o =
    sweep-Scheduled env (record { before = []; obsd = []; rv = none }) i o h
