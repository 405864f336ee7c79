-- ===== src/ConfFile.antt =====
-- lib/package_config_files.c: whether a configuration file of a package is unpacked, and where.
pub mod Decide
use xbps.Common.{
  ℕ, ◌-◌, Bool, true, false, ◌&&◌, ◌||◌, not, Option, none, some, List, [], ◌∷◌, ◌++◌,
  if◌then◌else◌, CStr, codes, streq, any, printed,
}
use xbps.Util.Pkgver.{pkg_version}

-- An entry of `conf_files` in the plist of the binary package, with its hash.
pub record ConfEntry : Type 0 where
  pub file : CStr
  pub sha256 : CStr

-- The same in the plist of the installed package, where the hash may be missing.
pub record OldEntry : Type 0 where
  pub file : CStr
  pub sha256 : Option CStr

-- What xbps_file_sha256 finds on disk: a hash, ENOENT, or another error.
pub data OnDisk : Type 0 where
  hash : CStr → OnDisk
  missing : OnDisk
  unreadable : OnDisk

-- The result 0, 1, or -1; `install_as` is 1 with another path set in the archive entry. A failed
-- assertion is `aborted`.
pub data Decision : Type 0 where
  keep : Decision
  install : Decision
  install_as : CStr → Decision
  failed : Decision
  aborted : Decision

unfoldable pub entry_is_a_conf_file : List ConfEntry → CStr → Bool
unfolding any
entry_is_a_conf_file conf_files pname = any (λ d. streq d.file pname) conf_files

-- The first loop: the hash of the first entry of the installed package with this path.
unfoldable pub original_hash : List OldEntry → CStr → Option CStr
unfolding printed
original_hash [] pname = none
original_hash (d ∷ ds) pname =
    if streq pname (printed (b'.' ∷ d.file)) then d.sha256 else original_hash ds pname

-- The outcome of the ladder on the three hashes; `no_branch` is none of its branches taken.
pub data Choice : Type 0 where
  leave : Choice
  overwrite : Choice
  beside : Choice
  no_branch : Choice

unfoldable pub compare_hashes : Bool → CStr → CStr → CStr → Choice
compare_hashes keep_config orig cur new_hash =
    if streq orig cur && streq orig new_hash && streq cur new_hash
    then leave
    else if streq orig cur
        && not (streq orig new_hash)
        && not (streq cur new_hash)
        && not keep_config
    then overwrite
    else if streq orig new_hash && not (streq cur new_hash) && not (streq orig cur)
    then leave
    else if streq cur new_hash && not (streq orig new_hash) && not (streq orig cur)
    then leave
    else if not (streq orig cur) && not (streq cur new_hash) && not (streq orig new_hash)
        || keep_config
    then beside
    else no_branch

-- `<prefix>.new-<version>`
unfoldable pub renamed : CStr → CStr → Decision
unfolding printed
renamed path pkgver = elim (pkg_version pkgver) [
  | none ↦ aborted
  | some version ↦ install_as (printed (path ++ (codes ".new-" ++ version)))
]

-- The end of a round, with what the rest of the loop gives where no branch is taken.
unfoldable pub choose : Choice → ConfEntry → CStr → Decision → Decision
unfolding renamed
choose leave d pkgver rest = keep
choose overwrite d pkgver rest = install
choose beside d pkgver rest = renamed (b'.' ∷ d.file) pkgver
choose no_branch d pkgver rest = rest

unfoldable pub with_disk : OnDisk → Bool → CStr → ConfEntry → CStr → Decision → Decision
unfolding choose
with_disk (hash cur) keep_config orig d pkgver rest =
    choose (compare_hashes keep_config orig cur d.sha256) d pkgver rest
with_disk missing keep_config orig d pkgver rest = install
with_disk unreadable keep_config orig d pkgver rest = failed

module _ (on_disk : CStr → OnDisk) where
  -- The second loop, over the entries of the new package.
  unfoldable pub conf_loop : Bool → CStr → List ConfEntry → CStr → CStr → Decision
  unfolding with_disk printed
  conf_loop keep_config orig [] pname pkgver = keep
  conf_loop keep_config orig (d ∷ ds) pname pkgver =
      let rest = conf_loop keep_config orig ds pname pkgver in
      let buf = printed (b'.' ∷ d.file) in
      if not (streq pname buf) then rest else with_disk (on_disk buf) keep_config orig d pkgver rest

  -- `binpkg` and `pkg` are the `conf_files` of the new and of the installed package; `pkg` is
  -- `none` for a package that is not installed, and its list is empty where it has none.
  unfoldable pub entry_install_conf_file :
      Bool → Option (List ConfEntry) → Option (List OldEntry) → CStr → CStr → Bool → Decision
  entry_install_conf_file keep_config none pkg pname pkgver mysymlink = failed
  entry_install_conf_file keep_config (some ds) none pname pkgver mysymlink = renamed pname pkgver
  entry_install_conf_file keep_config (some ds) (some old) pname pkgver mysymlink =
      if mysymlink then renamed pname pkgver else elim (original_hash old pname) [
        | none ↦ install
        | some orig ↦ conf_loop keep_config orig ds pname pkgver
      ]
