-- ===== src/Conflicts.antt =====
-- lib/transaction_check_conflicts.c: packages of a transaction that conflict with installed ones or
-- with each other.
pub mod Matches
pub mod Entries
pub mod Reported
use xbps.Common.{
  Bool, true, false, ◌||◌, Option, none, some, List, [], ◌∷◌, ◌++◌, if◌then◌else◌, CStr, codes,
  streq, is_some, with_default, Run, ret, abort, ◌>>=◌,
}
use xbps.Versions.{Versions}
use xbps.Pkg.{
  Pkg, Installed, TransType, unknown, install, update, remove, hold, ◌same_trans◌, pkg_type,
}
use xbps.Arrays.{find_pkg_in_array}
use xbps.Virtual.{Virtuals, find_virtualpkg_in_array, pkgdb_get_pkg, pkgdb_get_virtualpkg}

-- What one entry of `conflicts` comes to: the loop goes on, with a message or without, or ends.
pub data Check : Type 0 where
  pass : Check
  conflict : CStr → Check
  stop : Check

-- `CONFLICT: %s with installed pkg %s (matched by %s)`
abbrev pub installed_text : CStr → CStr → CStr → CStr
installed_text repopkgver pkgver cfpkg =
    codes "CONFLICT: "
    ++ repopkgver
    ++ codes " with installed pkg "
    ++ pkgver
    ++ codes " (matched by "
    ++ cfpkg
    ++ codes ")"

-- `CONFLICT: %s with %s in transaction (matched by %s)`
abbrev pub queued_text : CStr → CStr → CStr → CStr
queued_text repopkgver pkgver cfpkg =
    codes "CONFLICT: "
    ++ repopkgver
    ++ codes " with "
    ++ pkgver
    ++ codes " in transaction (matched by "
    ++ cfpkg
    ++ codes ")"

-- A package that is removed or on hold.
unfoldable pub is_ignored : Pkg → Bool
is_ignored pkgd = pkg_type pkgd same_trans remove || pkg_type pkgd same_trans hold

-- A package of the transaction that stands for the installed one.
unfoldable pub is_superseded : Option Pkg → Bool
unfolding is_ignored
is_superseded none = false
is_superseded (some tpkgd) =
    pkg_type tpkgd same_trans install || pkg_type tpkgd same_trans update || is_ignored tpkgd

-- The loop over the entries.
unfoldable pub check_entries : (CStr → Run Check) → List CStr → List CStr → Run (List CStr)
check_entries check [] found = ret found
check_entries check (cfpkg ∷ cflicts) found = check cfpkg >>= λ o. elim o [
  | pass ↦ check_entries check cflicts found
  | conflict buf ↦ check_entries check cflicts (found ++ buf ∷ [])
  | stop ↦ ret found
]

module _ (v : Versions) (vpkgd : List Virtuals) (pkgdb : List Installed) (pkgs : List Pkg) where
  unfoldable pub installed_match : CStr → Run (Option Installed)
  installed_match cfpkg = elim (pkgdb_get_pkg v pkgdb cfpkg) [
    | some obj ↦ ret (some obj)
    | none ↦ pkgdb_get_virtualpkg v vpkgd pkgdb cfpkg
  ]

  unfoldable pub queued_match : CStr → Run (Option Pkg)
  queued_match cfpkg = find_pkg_in_array v pkgs cfpkg unknown >>= λ pkgd. elim pkgd [
    | some p ↦ ret (some p)
    | none ↦ find_virtualpkg_in_array v vpkgd pkgs cfpkg unknown
  ]

  -- A conflict with an installed package; `cfpkg` is the entry that matched it.
  unfoldable pub check_installed_pkg : CStr → CStr → CStr → Pkg → Run Check
  check_installed_pkg repopkgver repopkgname cfpkg pkgd =
      if is_some pkgd.hold then ret pass else elim (pkgd.pkgname) [
        | none ↦ abort
        | some pkgname ↦ if streq pkgname repopkgname then ret pass else elim (pkgd.pkgver) [
          | none ↦ abort
          | some pkgver ↦ find_pkg_in_array v pkgs pkgname unknown >>= λ tpkgd. ret (
              if is_superseded tpkgd
              then pass
              else conflict (installed_text repopkgver pkgver cfpkg))
        ]
      ]

  -- A conflict with a package of the transaction; `unversioned` is what a missing pkgver leads to.
  unfoldable pub check_queued_pkg : Run Check → CStr → CStr → CStr → Pkg → Run Check
  check_queued_pkg unversioned repopkgver repopkgname cfpkg pkgd =
      if is_ignored pkgd then ret pass else elim (pkgd.pkgname) [
        | none ↦ abort
        | some pkgname ↦ if streq pkgname repopkgname then ret pass else elim (pkgd.pkgver) [
          | none ↦ unversioned
          | some pkgver ↦ ret (conflict (queued_text repopkgver pkgver cfpkg))
        ]
      ]

  unfoldable pub check_queued : Run Check → CStr → CStr → CStr → Run Check
  check_queued unversioned repopkgver repopkgname cfpkg = queued_match cfpkg >>= λ pkgd. elim pkgd [
    | none ↦ ret pass
    | some p ↦ check_queued_pkg unversioned repopkgver repopkgname cfpkg p
  ]

  -- One entry of the `conflicts` of a package of the transaction.
  unfoldable pub check_trans : CStr → CStr → CStr → Run Check
  check_trans repopkgver repopkgname cfpkg = installed_match cfpkg >>= λ pkgd. elim pkgd [
    | some obj ↦ check_installed_pkg repopkgver repopkgname cfpkg obj.pkgd
    | none ↦ check_queued (ret stop) repopkgver repopkgname cfpkg
  ]

  unfoldable pub pkg_conflicts_trans : Pkg → List CStr → Run (List CStr)
  pkg_conflicts_trans pkg_repod found = elim (with_default [] pkg_repod.conflicts) [
    | [] ↦ ret found
    | cfpkg ∷ cflicts ↦ if is_ignored pkg_repod then ret found else elim (pkg_repod.pkgver) [
      | none ↦ abort
      | some repopkgver ↦ elim (pkg_repod.pkgname) [
        | none ↦ abort
        | some repopkgname ↦
            check_entries (check_trans repopkgver repopkgname) (cfpkg ∷ cflicts) found
      ]
    ]
  ]

  unfoldable pub pkgdb_conflicts_cb : Pkg → List CStr → Run (List CStr)
  pkgdb_conflicts_cb obj found = elim (with_default [] obj.conflicts) [
    | [] ↦ ret found
    | cfpkg ∷ cflicts ↦ elim (obj.pkgver) [
      | none ↦ abort
      | some repopkgver ↦ elim (obj.pkgname) [
        | none ↦ abort
        | some repopkgname ↦ find_pkg_in_array v pkgs repopkgname unknown >>= λ p.
            if is_some p
            then ret found
            else check_entries (check_queued abort repopkgver repopkgname) (cfpkg ∷ cflicts) found
      ]
    ]
  ]

  unfoldable pub all_trans : List Pkg → List CStr → Run (List CStr)
  all_trans [] found = ret found
  all_trans (p ∷ ps) found = pkg_conflicts_trans p found >>= λ found'. all_trans ps found'

  unfoldable pub all_installed : List Installed → List CStr → Run (List CStr)
  all_installed [] found = ret found
  all_installed (obj ∷ objs) found =
      pkgdb_conflicts_cb obj.pkgd found >>= λ found'. all_installed objs found'

  -- The array `conflicts` of the transaction dictionary.
  unfoldable pub transaction_check_conflicts : Run (List CStr)
  transaction_check_conflicts = all_trans pkgs [] >>= λ found. all_installed pkgdb found
