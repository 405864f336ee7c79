-- ===== src/ConfFile/Decide.antt =====
-- The decision table, and what is never overwritten.
use xbps.Common.{
  Bool, true, false, ◌&&◌, ◌||◌, not, Option, none, some, List, [], ◌∷◌, ◌≡◌, ◌≢◌, refl, ◌⊎◌, inl,
  inr, if◌then◌else◌, CStr, streq, streq_iff, arith, Bool-cases, Option-cases, printed,
}
use xbps.ConfFile.{
  ConfEntry, OldEntry, OnDisk, hash, missing, unreadable, Decision, install, original_hash, leave,
  overwrite, beside, compare_hashes, renamed, with_disk, conf_loop, entry_install_conf_file,
}

-- The ladder takes a branch for all hashes. It leaves the file where the new package brings
-- nothing (its hash is the original's, or the one on disk already); otherwise it overwrites a file
-- that was not changed, unless configuration is to be kept, and puts the new one beside it else.
pub compare_hashes_lem :
    (keep_config : Bool) (orig cur new_hash : CStr)
    → compare_hashes keep_config orig cur new_hash ≡ (
        if streq cur new_hash || streq orig new_hash
        then leave
        else if streq orig cur && not keep_config
        then overwrite
        else beside)
unfolding compare_hashes
compare_hashes_lem keep_config orig cur new_hash =
    ground (arith, streq_iff orig cur, streq_iff orig new_hash, streq_iff cur new_hash)

-- Why a file may be written in place.
pub data MayOverwrite (on_disk : CStr → OnDisk) (keep_config : Bool) (old : List OldEntry)
    (pname : CStr) : Type 0 where
  untracked : original_hash old pname ≡ none → MayOverwrite on_disk keep_config old pname
  absent : on_disk pname ≡ missing → MayOverwrite on_disk keep_config old pname
  unmodified :
      (orig : CStr)
      → original_hash old pname ≡ some orig
      → on_disk pname ≡ hash orig
      → keep_config ≡ false
      → MayOverwrite on_disk keep_config old pname

renamed-ne-install : (path pkgver : CStr) → renamed path pkgver ≢ install
unfolding renamed
renamed-ne-install path pkgver h = ground arith

module _ (on_disk : CStr → OnDisk) (keep_config : Bool) where
  with_disk-install :
      (o : OnDisk) (orig : CStr) (d : ConfEntry) (pkgver : CStr) (rest : Decision)
      → with_disk o keep_config orig d pkgver rest ≡ install
      → (o ≡ missing) ⊎ ((o ≡ hash orig) × (keep_config ≡ false))
  unfolding with_disk
  with_disk-install (hash cur) orig d pkgver rest h = ground (
    arith,
    compare_hashes_lem keep_config orig cur d.sha256,
    streq_iff orig cur,
    renamed-ne-install (b'.' ∷ d.file) pkgver,
  )
  with_disk-install missing orig d pkgver rest h = inl refl
  with_disk-install unreadable orig d pkgver rest h = absurd (cc)

  conf_loop-install :
      (orig : CStr) (ds : List ConfEntry) (pname pkgver : CStr)
      → conf_loop on_disk keep_config orig ds pname pkgver ≡ install
      → (on_disk pname ≡ missing) ⊎ ((on_disk pname ≡ hash orig) × (keep_config ≡ false))
  unfolding conf_loop
  conf_loop-install orig [] pname pkgver h = absurd (cc)
  conf_loop-install orig (d ∷ ds) pname pkgver h =
      elim (Bool-cases (streq pname (printed (b'.' ∷ d.file)))) [
        | inl e ↦
            let same = (streq_iff pname (printed (b'.' ∷ d.file))).0 e in
            rw same (
              with_disk-install (on_disk (printed (b'.' ∷ d.file))) orig d pkgver
                (conf_loop on_disk keep_config orig ds pname pkgver) (ground arith))
        | inr e ↦ conf_loop-install orig ds pname pkgver (ground arith)
      ]

  -- A configuration file is installed in place only if the installed package does not list it
  -- with a hash, or it is missing on disk, or its content on disk is the one the installed package
  -- brought and configuration is not to be kept; and never over a symlink, nor when no version of
  -- the package is installed.
  pub entry_install_conf_file-MayOverwrite :
      (ds : List ConfEntry) (pkg : Option (List OldEntry)) (pname pkgver : CStr) (mysymlink : Bool)
      → entry_install_conf_file on_disk keep_config (some ds) pkg pname pkgver mysymlink ≡ install
      → (mysymlink ≡ false)
        × ((old : List OldEntry) × (pkg ≡ some old) × MayOverwrite on_disk keep_config old pname)
  unfolding entry_install_conf_file
  entry_install_conf_file-MayOverwrite ds none pname pkgver mysymlink h =
      absurd (renamed-ne-install pname pkgver h)
  entry_install_conf_file-MayOverwrite ds (some old) pname pkgver true h =
      absurd (renamed-ne-install pname pkgver h)
  entry_install_conf_file-MayOverwrite ds (some old) pname pkgver false h = (
    refl,
    (
      old,
      refl,
      elim (Option-cases (original_hash old pname)) [
        | inl e ↦ untracked e
        | inr (orig, e) ↦ elim (conf_loop-install orig ds pname pkgver (ground arith)) [
          | inl m ↦ absent m
          | inr p ↦ unmodified orig e p.0 p.1
        ]
      ],
    ),
  )
