-- ===== src/State.antt =====
-- lib/package_state.c: the states of packages.
pub mod Kept
use xbps.Common.{
  ℕ, Bool, true, false, Option, none, some, List, [], ◌∷◌, if◌then◌else◌, ◌==◌, CStr, codes, streq,
  Rv, einval, enoent, Run, ret, abort,
}
use xbps.Util.Pkgver.{pkg_name, name_size}
use xbps.Versions.{Versions}
use xbps.Pkg.{Pkg, Installed, unknown}
use xbps.Dict.{dict_set, find_pkg_in_dict}

-- `states`, up to the sentinel; the numbers are those of enum pkg_state.
abbrev pub states : List (CStr × ℕ)
states =
    (codes "unpacked", 1)
    ∷ (codes "installed", 2)
    ∷ (codes "broken", 3)
    ∷ (codes "half-removed", 4)
    ∷ (codes "not-installed", 5)
    ∷ []

-- The loops over the table.
unfoldable pub state_string : List (CStr × ℕ) → ℕ → Option CStr
state_string [] state = none
state_string ((string, number) ∷ stp) state =
    if state == number then some string else state_string stp state

unfoldable pub state_number : List (CStr × ℕ) → CStr → ℕ
state_number [] state_str = 0
state_number ((string, number) ∷ stp) state_str =
    if streq state_str string then number else state_number stp state_str

-- `none` is EINVAL.
unfoldable pub set_new_state : Pkg → ℕ → Option Pkg
unfolding state_string
set_new_state dict state = elim (state_string states state) [
  | none ↦ none
  | some string ↦ some (record dict { state = some string })
]

unfoldable pub get_state : Pkg → ℕ
unfolding state_number
get_state dict = elim (dict.state) [ none ↦ 0 | some state_str ↦ state_number states state_str ]

-- The result and `*state`, where it is written.
unfoldable pub pkg_state_dictionary : Pkg → Rv × ℕ
unfolding get_state
pkg_state_dictionary dict =
    let state = get_state dict in (if state == 0 then some einval else none, state)

-- xbps_dictionary_create, with the pkgver set.
abbrev pub fresh_pkg : CStr → Pkg
fresh_pkg pkgver = record {
  pkgver = some pkgver;
  pkgname = none;
  repository = none;
  state = none;
  transaction = unknown;
  automatic_install = none;
  hold = none;
  repolock = none;
  replaced = none;
  preserve = none;
  provides = none;
  replaces = none;
  conflicts = none;
  run_depends = none;
  reverts = none;
  shlib_provides = none;
  shlib_requires = none;
}

-- The end of both branches: the dictionary is stored under the name of the pkgver.
unfoldable pub store_state : List Installed → CStr → Pkg → Run (List Installed × Rv)
store_state pkgdb pkgver pkgd = elim (pkg_name name_size pkgver) [
  | none ↦ abort
  | some pkgname ↦ ret (dict_set pkgdb pkgname pkgd, none)
]

module _ (v : Versions) where
  unfoldable pub pkg_state_installed : List Installed → CStr → Rv × Option ℕ
  pkg_state_installed pkgdb pkgver = elim (find_pkg_in_dict v pkgdb pkgver) [
    | none ↦ (some enoent, none)
    | some obj ↦ let r = pkg_state_dictionary obj.pkgd in (r.0, some r.1)
  ]

  -- A dictionary that is found is changed in place, under the key where it is, and then stored.
  unfoldable pub set_pkg_state_installed : List Installed → CStr → ℕ → Run (List Installed × Rv)
  set_pkg_state_installed pkgdb pkgver state = elim (find_pkg_in_dict v pkgdb pkgver) [
    | none ↦ elim (set_new_state (fresh_pkg pkgver) state) [
      | none ↦ ret (pkgdb, some einval)
      | some pkgd ↦ store_state pkgdb pkgver pkgd
    ]
    | some obj ↦ elim (set_new_state obj.pkgd state) [
      | none ↦ ret (pkgdb, some einval)
      | some pkgd ↦ store_state (dict_set pkgdb obj.key pkgd) pkgver pkgd
    ]
  ]
