-- ===== src/Shlibs.antt =====
-- lib/transaction_check_shlibs.c: the shared libraries of the system that a transaction leads to.
pub mod Reference
pub mod Provided
pub mod Report
use xbps.Common.{
  Bool, true, false, ◌||◌, Option, none, some, List, [], ◌∷◌, ◌++◌, if◌then◌else◌, CStr, codes,
  streq, has_prefix, any, Errno, einval,
}
use xbps.Pkg.{Installed, Pkg, TransType, hold, remove, ◌same_trans◌, pkg_type}

-- A negative result, or what the function leaves behind.
pub data Checked {ℓ} (A : Type ℓ) : Type ℓ where
  failed : Errno → Checked A
  ok : A → Checked A

infixl 5 ◌and_then◌
abbrev pub ◌and_then◌ {ℓ κ} : {A : Type ℓ} {B : Type κ} → Checked A → (A → Checked B) → Checked B
failed e and_then f = failed e
ok a and_then f = f a

-- struct shlib_ctx, less the missing libraries: the names in the hash table and in `seen`.
pub record ShlibCtx : Type 0 where
  pub entries : List CStr
  pub seen : List CStr

unfoldable pub shlib_entry_find : List CStr → CStr → Bool
unfolding any
shlib_entry_find entries name = any (streq name) entries

-- shlib_entry_get, where memory is there to be had.
unfoldable pub shlib_entry_get : List CStr → CStr → List CStr
unfolding shlib_entry_find
shlib_entry_get entries name = if shlib_entry_find entries name then entries else name ∷ entries

-- A missing array is NULL and has no elements.
unfoldable pub collect_shlib_array : List CStr → List CStr → List CStr
unfolding shlib_entry_get
collect_shlib_array entries [] = entries
collect_shlib_array entries (shlib ∷ array) =
    collect_shlib_array (shlib_entry_get entries shlib) array

abbrev pub libs : Option (List CStr) → List CStr
libs none = []
libs (some array) = array

-- The loop of collect_shlibs on the packages of the transaction, and its body.
unfoldable pub collect_pkg_shlibs : ShlibCtx → Pkg → Checked ShlibCtx
unfolding collect_shlib_array
collect_pkg_shlibs ctx pkgd =
    if pkg_type pkgd same_trans hold then ok ctx else elim (pkgd.pkgname) [
      | none ↦ failed einval
      | some pkgname ↦
          let seen = pkgname ∷ ctx.seen in
          if pkg_type pkgd same_trans remove
          then ok (record ctx { seen = seen })
          else ok (record {
            entries = collect_shlib_array ctx.entries (libs pkgd.shlib_provides);
            seen = seen;
          })
    ]

unfoldable pub collect_pkgs : ShlibCtx → List Pkg → Checked ShlibCtx
unfolding collect_pkg_shlibs
collect_pkgs ctx [] = ok ctx
collect_pkgs ctx (pkgd ∷ pkgs) = collect_pkg_shlibs ctx pkgd and_then λ ctx'. collect_pkgs ctx' pkgs

-- The tests on a key of the pkgdb: internal objects and packages of the transaction are passed
-- over.
unfoldable pub passed_over : List CStr → CStr → Bool
unfolding any
passed_over seen pkgname = has_prefix (codes "_XBPS_") pkgname || any (streq pkgname) seen

-- The loop of collect_shlibs on the pkgdb, and its body.
unfoldable pub collect_installed_shlibs : ShlibCtx → Installed → ShlibCtx
unfolding collect_shlib_array passed_over
collect_installed_shlibs ctx obj =
    if passed_over ctx.seen obj.key
    then ctx
    else record ctx { entries = collect_shlib_array ctx.entries (libs obj.pkgd.shlib_provides) }

unfoldable pub collect_pkgdb : ShlibCtx → List Installed → ShlibCtx
unfolding collect_installed_shlibs
collect_pkgdb ctx [] = ctx
collect_pkgdb ctx (obj ∷ pkgdb) = collect_pkgdb (collect_installed_shlibs ctx obj) pkgdb

unfoldable pub collect_shlibs : List Installed → List Pkg → Checked ShlibCtx
unfolding collect_pkgs collect_pkgdb
collect_shlibs pkgdb pkgs = collect_pkgs (record { entries = []; seen = [] }) pkgs and_then λ ctx.
    ok (collect_pkgdb ctx pkgdb)

-- xbps_xasprintf("%s: broken, unresolvable shlib `%s'", pkgver, shlib)
abbrev pub broken : CStr → CStr → CStr
broken pkgver shlib = pkgver ++ codes ": broken, unresolvable shlib `" ++ shlib ++ codes "'"

-- The inner loop of check_shlibs. The pkgver is only read for a library that is not found.
unfoldable pub check_requires :
    List CStr → Option CStr → List CStr → List CStr → Checked (List CStr)
unfolding shlib_entry_find
check_requires entries pkgver missing [] = ok missing
check_requires entries pkgver missing (shlib ∷ array) = elim (shlib_entry_find entries shlib) [
  | true ↦ check_requires entries pkgver missing array
  | false ↦ elim pkgver [
    | none ↦ failed einval
    | some ver ↦ check_requires entries pkgver (missing ++ broken ver shlib ∷ []) array
  ]
]

-- The loops of check_shlibs and their bodies.
unfoldable pub check_pkg : ShlibCtx → List CStr → Pkg → Checked (List CStr)
unfolding check_requires
check_pkg ctx missing pkgd =
    if pkg_type pkgd same_trans hold || pkg_type pkgd same_trans remove
    then ok missing
    else check_requires ctx.entries pkgd.pkgver missing (libs pkgd.shlib_requires)

unfoldable pub check_pkgs : ShlibCtx → List CStr → List Pkg → Checked (List CStr)
unfolding check_pkg
check_pkgs ctx missing [] = ok missing
check_pkgs ctx missing (pkgd ∷ pkgs) =
    check_pkg ctx missing pkgd and_then λ missing'. check_pkgs ctx missing' pkgs

unfoldable pub check_installed : ShlibCtx → List CStr → Installed → Checked (List CStr)
unfolding check_requires passed_over
check_installed ctx missing obj =
    if passed_over ctx.seen obj.key
    then ok missing
    else check_requires ctx.entries obj.pkgd.pkgver missing (libs obj.pkgd.shlib_requires)

unfoldable pub check_pkgdb : ShlibCtx → List CStr → List Installed → Checked (List CStr)
unfolding check_installed
check_pkgdb ctx missing [] = ok missing
check_pkgdb ctx missing (obj ∷ pkgdb) =
    check_installed ctx missing obj and_then λ missing'. check_pkgdb ctx missing' pkgdb

unfoldable pub check_shlibs : ShlibCtx → List Installed → List CStr → List Pkg → Checked (List CStr)
unfolding check_pkgs check_pkgdb
check_shlibs ctx pkgdb missing pkgs =
    check_pkgs ctx missing pkgs and_then λ missing'. check_pkgdb ctx missing' pkgdb

-- What the call leaves in transd: `missing_shlibs` is removed when it is empty, and stays as it
-- was on a failure that came before anything was added to it.
unfoldable pub left_missing : List CStr → Option (List CStr)
left_missing [] = none
left_missing (m ∷ missing) = some (m ∷ missing)

-- The result true, with transd's `missing_shlibs`; `failed` is the result false.
unfoldable pub transaction_check_shlibs :
    List Installed → List CStr → List Pkg → Checked (Option (List CStr))
unfolding collect_shlibs check_shlibs left_missing
transaction_check_shlibs pkgdb missing pkgs = collect_shlibs pkgdb pkgs and_then λ ctx.
    check_shlibs ctx pkgdb missing pkgs and_then λ missing'. ok (left_missing missing')
