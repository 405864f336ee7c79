-- ===== src/State/Kept.antt =====
-- The state that is set is the one read back.
use xbps.Common.{
  ℕ, false, none, some, List, [], ◌∷◌, ◌≡◌, ◌≢◌, refl, ap, sym, ◌∙◌, subst, ◌≤◌, inl, inr, ◌==◌,
  CStr, streq, streq_iff, streq_refl, ret, All, arith, Bool-cases, Option-cases,
}
use xbps.Versions.{Versions}
use xbps.Pkg.{Pkg, Installed}
use xbps.Dict.{dict_get, dict_set, find_pkg_in_dict}
use xbps.Dict.Access.{
  dict_get-dict_set, IsExact, find_pkg_in_dict-exact, dict_get-key, checked-some,
}
use xbps.State.{
  states, state_string, state_number, set_new_state, get_state, pkg_state_dictionary, fresh_pkg,
  store_state, pkg_state_installed, set_pkg_state_installed,
}

-- No string stands twice in the table, and no number is 0.
abbrev IsTable : List (CStr × ℕ) → Type 0
IsTable [] = Unit
IsTable ((string, number) ∷ stp) =
    (number ≢ 0) × All (λ e. streq e.0 string ≡ false) stp × IsTable stp

state_string-differs :
    (stp : List (CStr × ℕ)) (state : ℕ) (other : CStr) {string : CStr}
    → All (λ e. streq e.0 other ≡ false) stp
    → state_string stp state ≡ some string
    → streq string other ≡ false
unfolding state_string
state_string-differs [] state other all h = absurd (cc)
state_string-differs ((string, number) ∷ stp) state other all h =
    elim (Bool-cases (state == number)) [
      | inl e ↦ let a = all.0 in ground (arith, a)
      | inr e ↦ state_string-differs stp state other all.1 (ground arith)
    ]

state_number-state_string :
    (stp : List (CStr × ℕ)) (state : ℕ) {string : CStr}
    → IsTable stp
    → state_string stp state ≡ some string
    → (state_number stp string ≡ state) × (state ≢ 0)
unfolding state_string state_number
state_number-state_string [] state t h = absurd (cc)
state_number-state_string ((s, number) ∷ stp) state {string} t h =
    elim (Bool-cases (state == number)) [
      | inl e ↦ let r = streq_refl s in let n = t.0 in ground (arith, r, n)
      | inr e ↦
          let found : state_string stp state ≡ some string = ground arith in
          let d = state_string-differs stp state s t.1 found in
          let rest = state_number-state_string stp state t.2 found in ground (arith, d, rest)
    ]

states-IsTable : IsTable states
unfolding streq
states-IsTable = (
  (λ e. omega arith),
  (refl, (refl, (refl, (refl, tt)))),
  (
    (λ e. omega arith),
    (refl, (refl, (refl, tt))),
    (
      (λ e. omega arith),
      (refl, (refl, tt)),
      ((λ e. omega arith), (refl, tt), ((λ e. omega arith), tt, tt)),
    ),
  ),
)

get_state-set_new_state :
    (p : Pkg) (state : ℕ) {q : Pkg}
    → set_new_state p state ≡ some q
    → (pkg_state_dictionary q ≡ (none, state)) × (q.pkgver ≡ p.pkgver)
unfolding set_new_state pkg_state_dictionary get_state
get_state-set_new_state p state {q} h = elim (Option-cases (state_string states state)) [
  | inl e ↦ absurd (ground arith)
  | inr (s, e) ↦
      let b = state_number-state_string states state states-IsTable e in
      let same : record p { state = some s } ≡ q = ground arith in
      subst (λ r. (pkg_state_dictionary r ≡ (none, state)) × (r.pkgver ≡ p.pkgver)) same
        (ground (arith, b), refl)
]

-- The states of enum pkg_state are in the table.
in_states :
    (p : Pkg) (state : ℕ) → 1 ≤ state → state ≤ 5 → (q : Pkg) × (set_new_state p state ≡ some q)
unfolding set_new_state state_string
in_states p state low high = elim (Option-cases (set_new_state p state)) [
  | inl e ↦ absurd (ground arith)
  | inr found ↦ found
]

-- A dictionary stored under the name of its exact pkgver: what is read there, and elsewhere.
pub record Stored (v : Versions) (before after : List Installed) (pkgver name : CStr) (state : ℕ)
    : Type 0 where
  pub reads : pkg_state_installed v after pkgver ≡ (none, some state)
  pub frame :
      (other : CStr) → streq name other ≡ false → dict_get after other ≡ dict_get before other

module _ (v : Versions) {pkgver name : CStr} (exact : IsExact pkgver name) (state : ℕ) where
  reads_at :
      (d : List Installed) (q : Pkg)
      → pkg_state_dictionary q ≡ (none, state)
      → q.pkgver ≡ some pkgver
      → pkg_state_installed v (dict_set d name q) pkgver ≡ (none, some state)
  unfolding pkg_state_installed
  reads_at d q s p =
      let f = find_pkg_in_dict-exact v (dict_set d name q) exact in
      let g = dict_get-dict_set d name name q in
      let r = streq_refl name in
      let t = streq_refl pkgver in
      let found : find_pkg_in_dict v (dict_set d name q) pkgver
          ≡ some (record { key = name; pkgd = q }) =
        f ∙ ground (arith, g, r, p, t) in
      ground (arith, found, s)

  stored : (d : List Installed) (q : Pkg) → store_state d pkgver q ≡ ret (dict_set d name q, none)
  unfolding store_state
  stored d q = rw (exact.has_name, store_state) refl

  -- Where no dictionary is found.
  set_fresh :
      (d : List Installed)
      → 1 ≤ state
      → state ≤ 5
      → find_pkg_in_dict v d pkgver ≡ none
      → (after : List Installed) × (set_pkg_state_installed v d pkgver state ≡ ret (after, none))
        × Stored v d after pkgver name state
  unfolding set_pkg_state_installed
  set_fresh d low high none_found =
      let (q, made) = in_states (fresh_pkg pkgver) state low high in
      let (s, p) = get_state-set_new_state (fresh_pkg pkgver) state made in
      let w = stored d q in
      (
        dict_set d name q,
        ground (arith, none_found, made, w),
        record {
          reads = reads_at d q s p;
          frame =
              λ other apart. let g = dict_get-dict_set d name other q in ground (arith, g, apart);
        },
      )

  -- Where one is found, it is the one of this name.
  set_found :
      (d : List Installed) (obj : Installed)
      → 1 ≤ state
      → state ≤ 5
      → find_pkg_in_dict v d pkgver ≡ some obj
      → (after : List Installed) × (set_pkg_state_installed v d pkgver state ≡ ret (after, none))
        × Stored v d after pkgver name state
  unfolding set_pkg_state_installed
  set_found d obj low high found =
      let (q, made) = in_states obj.pkgd state low high in
      let (s, p) = get_state-set_new_state obj.pkgd state made in
      let (entry, (ver, has_ver, same)) =
        checked-some (λ cur. streq cur pkgver) (dict_get d name)
          (sym (find_pkg_in_dict-exact v d exact) ∙ found) in
      let at = dict_get-key d name entry in
      let mid = dict_set d obj.key q in
      let w = stored mid q in
      (
        dict_set mid name q,
        ground (arith, found, made, w),
        record {
          reads = reads_at mid q s (p ∙ has_ver ∙ ap some ((streq_iff ver pkgver).0 same));
          frame = λ other apart.
              let g = dict_get-dict_set mid name other q in
              let k = dict_get-dict_set d obj.key other q in
              let apart' : streq obj.key other ≡ false = rw at apart in
              ground (arith, g, k, apart, apart');
        },
      )

-- Setting one of the five states on an exact pkgver never fails or aborts; afterwards
-- xbps_pkg_state_installed reads this state, and the entries of all other names are as before.
pub set_pkg_state_installed_lem :
    (v : Versions) (pkgdb : List Installed) {pkgver name : CStr} (state : ℕ)
    → IsExact pkgver name
    → 1 ≤ state
    → state ≤ 5
    → (after : List Installed) × (set_pkg_state_installed v pkgdb pkgver state ≡ ret (after, none))
      × Stored v pkgdb after pkgver name state
set_pkg_state_installed_lem v pkgdb {pkgver} state exact low high =
    elim (Option-cases (find_pkg_in_dict v pkgdb pkgver)) [
      | inl e ↦ set_fresh v exact state pkgdb low high e
      | inr (obj, e) ↦ set_found v exact state pkgdb obj low high e
    ]
