-- ===== src/Breakage.antt =====
-- lib/transaction_check_revdeps.c: installed packages that a transaction would break; lib/util.c:
-- xbps_pkg_is_ignored.
pub mod Unbroken
pub mod Nothing
use xbps.Common.{
  Bool, true, false, not, ◌&&◌, ◌||◌, Option, none, some, List, [], ◌∷◌, ◌++◌, if◌then◌else◌, CStr,
  codes, streq, is_some, truthy, with_default, Run, ret, ◌>>=◌,
}
use xbps.Util.Pkgver.{pkg_name, name_size}
use xbps.Versions.{Versions, pattern_match}
use xbps.Match.{match_string_in_array, by_string, pkgdep_against_patterns}
use xbps.Pkg.{
  Pkg, Installed, TransType, unknown, install, update, remove, hold, ◌same_trans◌, pkg_type,
}
use xbps.Arrays.{find_pkg_in_array}
use xbps.Virtual.{pkgdb_get_pkg}
use xbps.Revdeps.{dep_name, get_pkg_revdeps}

-- Whether the check may go on, and the messages for `mdeps`.
abbrev pub Report : Type 0
Report = Bool × List CStr

-- A loop whose body adds messages; it ends at the first round that fails.
unfoldable pub check_each {ℓ} : {A : Type ℓ} → (A → Run Report) → List A → List CStr → Run Report
check_each check [] mdeps = ret (true, mdeps)
check_each check (x ∷ xs) mdeps =
    check x >>= λ r. if r.0 then check_each check xs (mdeps ++ r.1) else ret (false, mdeps ++ r.1)

-- `%s broken, needs '%s' virtual pkg (got `%s')`; a missing pkgver is printed as `(null)`.
abbrev pub virtual_text : Option CStr → CStr → CStr → CStr
virtual_text revpkgver pkgpattern vpkgver =
    with_default (codes "(null)") revpkgver
    ++ codes " broken, needs '"
    ++ pkgpattern
    ++ codes "' virtual pkg (got `"
    ++ vpkgver
    ++ codes "')"

-- broken_pkg
abbrev pub broken_pkg : CStr → CStr → CStr
broken_pkg dep pkg = pkg ++ codes " in transaction breaks installed pkg `" ++ dep ++ codes "'"

module _ (v : Versions) where
  -- A dependency on the name of a virtual package that its new version does not satisfy.
  unfoldable pub is_violated : CStr → CStr → CStr → Bool
  is_violated vpkgver vpkgname pkgpattern = elim (dep_name pkgpattern) [
    | none ↦ false
    | some pkgname ↦
        if not (streq vpkgname pkgname)
        then false
        else not (streq vpkgver pkgpattern || truthy (pattern_match v vpkgver pkgpattern))
  ]

  unfoldable pub virtual_messages : Option CStr → CStr → CStr → List CStr → List CStr
  virtual_messages revpkgver vpkgver vpkgname [] = []
  virtual_messages revpkgver vpkgver vpkgname (pkgpattern ∷ rundeps) =
      let rest = virtual_messages revpkgver vpkgver vpkgname rundeps in
      if is_violated vpkgver vpkgname pkgpattern
      then virtual_text revpkgver pkgpattern vpkgver ∷ rest
      else rest

  -- The messages that are added; it is `matched` if there are any.
  unfoldable pub check_virtual_pkgs : Option CStr → List CStr → List CStr → List CStr
  check_virtual_pkgs revpkgver rundeps [] = []
  check_virtual_pkgs revpkgver rundeps (vpkgver ∷ provides) =
      let rest = check_virtual_pkgs revpkgver rundeps provides in
      elim (pkg_name name_size vpkgver) [
        | none ↦ []
        | some vpkgname ↦ virtual_messages revpkgver vpkgver vpkgname rundeps ++ rest
      ]

  -- The loop that finds out what dependency it is; `none` where one has no name.
  unfoldable pub depends_on : CStr → List CStr → Option Bool
  depends_on curpkgname [] = some false
  depends_on curpkgname (curdep ∷ rundeps) =
      let rest = depends_on curpkgname rundeps in
      elim (dep_name curdep) [
        | none ↦ none
        | some curdepname ↦ if streq curdepname curpkgname then some true else rest
      ]

  -- xbps_pkg_is_ignored; `ignored_pkgs` is that of the handle.
  unfoldable pub pkg_is_ignored : Option (List CStr) → CStr → Bool
  pkg_is_ignored none pkg = false
  pkg_is_ignored (some ignored_pkgs) pkg =
      match_string_in_array v by_string (with_default pkg (dep_name pkg)) ignored_pkgs

  module _ (pkgdb : List Installed) (pkgs : List Pkg) where
    -- `if (!found)` and what follows; `pkgname` is the name of the reverse dependency.
    unfoldable pub check_real : CStr → CStr → CStr → CStr → List CStr → Run Report
    check_real pkgver curpkgname curpkgver pkgname rundeps = elim (depends_on curpkgname rundeps) [
      | none ↦ ret (false, [])
      | some found ↦
          if not found || match_string_in_array v pkgdep_against_patterns pkgver rundeps
          then ret (true, [])
          else find_pkg_in_array v pkgs pkgname update >>= λ updated.
              ret (true, if is_some updated then [] else broken_pkg curpkgver pkgver ∷ [])
    ]

    -- A reverse dependency of a package that is removed.
    unfoldable pub check_removed : Pkg → CStr → CStr → CStr → Run Report
    check_removed obj pkgver curpkgver pkgname =
        if is_some obj.replaced
        then ret (true, [])
        else find_pkg_in_array v pkgs pkgname remove >>= λ removed.
            ret (true, if is_some removed then [] else broken_pkg curpkgver pkgver ∷ [])

    -- A reverse dependency of a package that stays; `rundeps` is that of its dictionary.
    unfoldable pub check_kept :
        Pkg → CStr → CStr → CStr → CStr → Option CStr → List CStr → Run Report
    check_kept obj pkgver curpkgname curpkgver pkgname revpkgver rundeps =
        elim (check_virtual_pkgs revpkgver rundeps (with_default [] obj.provides)) [
          | [] ↦ check_real pkgver curpkgname curpkgver pkgname rundeps
          | m ∷ ms ↦ ret (true, m ∷ ms)
        ]

    abbrev pub rundeps_of : Option Pkg → List CStr
    rundeps_of none = []
    rundeps_of (some p) = with_default [] p.run_depends

    abbrev pub rev_pkgver : Option Pkg → Option CStr
    rev_pkgver none = none
    rev_pkgver (some p) = p.pkgver

    -- The package of the reverse dependency: the one in the transaction, or the installed one.
    unfoldable pub rev_pkgd : Option Pkg → CStr → Option Pkg
    rev_pkgd (some p) curpkgver = some p
    rev_pkgd none curpkgver = elim (pkgdb_get_pkg v pkgdb curpkgver) [
      | none ↦ none
      | some obj ↦ some obj.pkgd
    ]

    abbrev pub is_going : Option Pkg → Bool
    is_going none = false
    is_going (some p) = pkg_type p same_trans remove

    -- One reverse dependency.
    unfoldable pub check_revdep : Pkg → CStr → CStr → CStr → Run Report
    check_revdep obj pkgver curpkgname curpkgver = elim (pkg_name name_size curpkgver) [
      | none ↦ ret (false, [])
      | some pkgname ↦ find_pkg_in_array v pkgs pkgname unknown >>= λ queued.
          if is_going queued
          then ret (true, [])
          else if pkg_type obj same_trans remove
          then check_removed obj pkgver curpkgver pkgname
          else let revpkgd = rev_pkgd queued curpkgver in
            check_kept obj pkgver curpkgname curpkgver pkgname (rev_pkgver revpkgd)
              (rundeps_of revpkgd)
    ]

    module _ (ignored_pkgs : Option (List CStr)) (revs : List (CStr × List CStr)) where
      -- One package of the transaction.
      unfoldable pub check_obj : Pkg → Run Report
      check_obj obj = if pkg_type obj same_trans hold then ret (true, []) else elim (obj.pkgver) [
        | none ↦ ret (false, [])
        | some pkgver ↦ elim (pkg_name name_size pkgver) [
          | none ↦ ret (false, [])
          | some pkgname ↦
              if pkg_type obj same_trans install
              then ret (true, [])
              else get_pkg_revdeps v pkgdb revs pkgname >>= λ pkgrdeps.
                  elim (with_default [] pkgrdeps) [
                    | [] ↦ ret (true, [])
                    | rdep ∷ rdeps ↦
                        if pkg_is_ignored ignored_pkgs pkgver
                        then ret (true, [])
                        else check_each (check_revdep obj pkgver pkgname) (rdep ∷ rdeps) []
                  ]
        ]
      ]

      -- xbps_transaction_check_revdeps: the result, and the array missing_deps.
      unfoldable pub transaction_check_revdeps : Run Report
      transaction_check_revdeps = check_each check_obj pkgs []
