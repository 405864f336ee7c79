-- ===== src/Files/Obsolete.antt =====
-- lib/transaction_files.c: collect_obsoletes decides which files are removed, and by which package.
mod Steps
pub mod Justified
pub mod Directory
pub mod Order
pub mod Complete
use xbps.Common.{
  ℕ, ◌+◌, ◌-◌, ◌%◌, Bool, true, false, ◌&&◌, ◌||◌, not, Option, none, some, List, [], ◌∷◌, ◌++◌,
  if◌then◌else◌, ltb, leb, ◌==◌, CStr, codes, streq, has_prefix, drop, any, is_some, Rv, Errno,
  enotempty, printed,
}
use xbps.Util.Pattern.{byte_at, size_mod}
use xbps.Files.Types.{FileType, unset, dir, link, conffile, ◌same_type◌, Side, Item}

-- What opendir and readdir give: the entries are counted with `.` and `..`.
pub data OpenDir : Type 0 where
  missing : OpenDir
  unreadable : OpenDir
  entries : ℕ → OpenDir

-- What xbps_file_sha256_check returns: 0, ENOENT, ERANGE or another error.
pub data HashCheck : Type 0 where
  same : HashCheck
  absent : HashCheck
  mismatch : HashCheck
  failed : Errno → HashCheck

-- The root directory as the code sees it, and the fields of `struct xbps_handle` that it reads.
pub record Env : Type 0 where
  pub opendir : CStr → OpenDir
  pub sha256_check : CStr → CStr → HashCheck
  pub symlink_target : CStr → CStr → Option CStr
  pub preserved_files : Option (List CStr)
  pub force_remove_files : Bool
  pub rootdir : CStr

-- The arrays of the dictionary `obsolete_files`, by package name.
abbrev pub Obsoletes : Type 0
Obsoletes = List (CStr × List CStr)

abbrev pub basesymlinks : List CStr
basesymlinks =
    codes "/bin"
    ∷ codes "/sbin"
    ∷ codes "/usr/sbin"
    ∷ codes "/lib"
    ∷ codes "/lib32"
    ∷ codes "/lib64"
    ∷ codes "/usr/lib32"
    ∷ codes "/usr/lib64"
    ∷ codes "/var/run"
    ∷ []

unfoldable pub match_preserved_file : Env → CStr → Bool
unfolding any
match_preserved_file env file = elim (env.preserved_files) [
  | none ↦ false
  | some files ↦ any (λ f. streq f (drop 1 file)) files
]

unfoldable pub is_basesymlink : CStr → Bool
unfolding any
is_basesymlink file = any (λ s. streq (drop 1 file) s) basesymlinks

unfoldable pub has_dir_prefix : CStr → ℕ → CStr → Bool
has_dir_prefix d dirlen file = has_prefix d file && byte_at file dirlen == b'/'

-- The loop over `items[0 .. max)`: `none` where tracked content stays, else `rmcount`.
unfoldable pub count_removed : CStr → ℕ → List Item → Option ℕ
unfolding has_dir_prefix
count_removed d dirlen [] = some 0
count_removed d dirlen (i ∷ items) =
    let rest = count_removed d dirlen items in
    if has_dir_prefix d dirlen i.file
    then (if not i.deleted then none else elim rest [ none ↦ none | some n ↦ some (n + 1) ])
    else rest

-- `fcount -= 2` is on a size_t.
unfoldable pub can_delete_directory : Env → CStr → ℕ → List Item → Bool
unfolding count_removed
can_delete_directory env d dirlen before = elim (env.opendir d) [
  | missing ↦ true
  | unreadable ↦ false
  | entries n ↦ elim (count_removed d dirlen before) [
    | none ↦ false
    | some rmcount ↦ leb ((n + size_mod - 2) % size_mod) rmcount
  ]
]

-- What one round of the loop does to its item.
pub data Verdict : Type 0 where
  skip : Rv → Verdict
  gone : Verdict
  fail : Errno → Verdict
  remove : Rv → Verdict

-- The tests on the two file types: whether the old file is obsolete.
pub data Change : Type 0 where
  unchanged : Change
  obsolete : Change
  stuck_directory : Change

unfoldable pub change_of : Env → List Item → Item → Change
change_of env before i =
    if match_preserved_file env i.file
    then unchanged
    else if i.new.type same_type unset
    then (if i.old.preserve then unchanged else obsolete)
    else if i.new.type same_type conffile
    then unchanged
    else if i.old.type same_type unset
    then unchanged
    else if i.old.type same_type dir
        && not (i.new.type same_type dir)
        && not (i.new.type same_type unset)
    then (if can_delete_directory env i.file i.len before then obsolete else stuck_directory)
    else if not (i.new.type same_type i.old.type)
    then obsolete
    else unchanged

-- The file that xbps_symlink_target is asked about.
unfoldable pub symlink_path : Env → Item → CStr
symlink_path env i =
    if not (streq env.rootdir (codes "/"))
    then printed (env.rootdir ++ drop 1 i.file)
    else drop 1 i.file

-- On removal without force a symlink whose target changed is kept, and one without a stored
-- target, which the code would read through a null pointer.
unfoldable pub keeps_symlink : Env → Item → Bool
unfolding symlink_path
keeps_symlink env i =
    if is_some i.old.pkgname
      && i.old.removepkg
      && i.old.type same_type link
      && not (is_some i.new.pkgname)
      && not env.force_remove_files
    then elim (i.old.target) [
      | none ↦ true
      | some target ↦ elim (env.symlink_target (symlink_path env i) target) [
        | none ↦ true
        | some lnk ↦ not (streq lnk target)
      ]
    ]
    else false

-- The hash test and what follows it, on an obsolete file; `rv` is the loop's variable.
unfoldable pub check_hash : Env → Rv → Item → Verdict
unfolding keeps_symlink
check_hash env rv i =
    let after = λ (r : Rv). if keeps_symlink env i then skip r else remove r in
    elim (i.old.sha256) [
      | none ↦ after rv
      | some sha ↦ elim (env.sha256_check i.file sha) [
        | same ↦ after none
        | absent ↦ gone
        | mismatch ↦
            if i.old.removepkg && not (is_some i.new.pkgname) && env.force_remove_files
            then after none
            else skip none
        | failed e ↦ after (some e)
      ]
    ]

unfoldable pub verdict : Env → List Item → Rv → Item → Verdict
verdict env before rv i = elim (change_of env before i) [
  | unchanged ↦ skip rv
  | stuck_directory ↦ fail enotempty
  | obsolete ↦ if is_basesymlink i.file then skip rv else check_hash env rv i
]

-- Which package removes the file. One of the two names is set in every item of the table.
unfoldable pub remover : Item → CStr
remover i = elim (i.old.pkgname) [
  | none ↦ elim (i.new.pkgname) [ none ↦ [] | some new_name ↦ new_name ]
  | some old_name ↦ elim (i.new.pkgname) [
    | none ↦ old_name
    | some new_name ↦ if ltb i.new.index i.old.index then new_name else old_name
  ]
]

-- `xbps_dictionary_get(obsd, pkgname)`, an array made where it is missing, and the file added.
unfoldable pub add_obsolete : CStr → CStr → Obsoletes → Obsoletes
add_obsolete pkgname file [] = (pkgname, file ∷ []) ∷ []
add_obsolete pkgname file ((p, files) ∷ obsd) =
    if streq p pkgname
    then (p, files ++ file ∷ []) ∷ obsd
    else (p, files) ∷ add_obsolete pkgname file obsd

pub record Sweep : Type 0 where
  pub before : List Item
  pub obsd : Obsoletes
  pub rv : Rv

pub data Outcome : Type 0 where
  done : Sweep → Outcome
  stop : Errno → Outcome

unfoldable pub apply_verdict : Sweep → Item → Verdict → Outcome
apply_verdict s i (skip rv) = done (record s { before = s.before ++ i ∷ []; rv = rv })
apply_verdict s i gone =
    done (record s { before = s.before ++ record i { deleted = true } ∷ []; rv = none })
apply_verdict s i (fail e) = stop e
apply_verdict s i (remove rv) = done (record {
  before = s.before ++ record i { deleted = true } ∷ [];
  obsd = add_obsolete (remover i) i.file s.obsd;
  rv = rv;
})

unfoldable pub sweep_step : Env → Sweep → Item → Outcome
sweep_step env s i = apply_verdict s i (verdict env s.before s.rv i)

-- The loop over `items[i ..]`, with the items already seen in the state.
unfoldable pub sweep : Env → Sweep → List Item → Outcome
sweep env s [] = done s
sweep env s (i ∷ items) = elim (sweep_step env s i) [
  | done s' ↦ sweep env s' items
  | stop e ↦ stop e
]

-- The whole function, on the dictionary of an initialised transaction.
unfoldable pub collect_obsoletes : Env → List Item → Obsoletes → Outcome
collect_obsoletes env items obsd = sweep env (record { before = []; obsd = obsd; rv = none }) items
