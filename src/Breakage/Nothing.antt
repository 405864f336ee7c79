-- ===== src/Breakage/Nothing.antt =====
-- A check without a message: no reverse dependency is broken.
use xbps.Common.{
  true, false, Option, none, some, List, [], ◌∷◌, ◌≡◌, ◌⊎◌, inl, inr, refl, sym, ◌∙◌, if◌then◌else◌,
  CStr, is_some, truthy, with_default, Run, ret, abort, ◌>>=◌, >>=-ret, In, arith, Bool-cases,
  Option-cases,
}
use xbps.Util.Pkgver.{pkg_name, name_size}
use xbps.Versions.{Versions, pattern_match}
use xbps.Match.{match_string_in_array, pkgdep_against_patterns}
use xbps.Pkg.{Pkg, Installed, unknown, install, update, remove, hold, ◌same_trans◌, pkg_type}
use xbps.Arrays.{find_pkg_in_array}
use xbps.Revdeps.{dep_name, get_pkg_revdeps}
use xbps.Breakage.{
  Report, check_each, check_virtual_pkgs, depends_on, pkg_is_ignored, check_real, check_removed,
  check_kept, rev_pkgd, rundeps_of, rev_pkgver, is_going, check_revdep, check_obj,
  transaction_check_revdeps,
}
use xbps.Breakage.Unbroken.{
  AllNamed, check_each-quiet, MeetsVirtual, check_virtual_pkgs-MeetsVirtual, depends_on-false,
  some_pattern,
}

List-cases {ℓ} : {A : Type ℓ} (xs : List A) → (xs ≡ []) ⊎ ((a : A) × (ys : List A) × (xs ≡ a ∷ ys))
List-cases [] = inl refl
List-cases (x ∷ xs) = inr (x, xs, refl)

module _ (v : Versions) (pkgdb : List Installed) (pkgs : List Pkg) where
  -- A dependency on the name of the package: the new version satisfies one of the dependencies, or
  -- the one that depends on it is updated as well.
  pub record MeetsReal (pkgver name rname : CStr) (rundeps : List CStr) : Type 0 where
    pub meets :
        (dep : CStr)
        → In dep rundeps
        → dep_name dep ≡ some name
        → ((d : CStr) × In d rundeps × (truthy (pattern_match v pkgver d) ≡ true))
          ⊎ ((p : Pkg) × (find_pkg_in_array v pkgs rname update ≡ ret (some p)))

  -- The transaction does not break the installed `curpkgver` by what it does to `obj`.
  pub data IsUnbroken (obj : Pkg) (pkgver name curpkgver : CStr) : Type 0 where
    going :
        {rname : CStr} {p : Pkg}
        → pkg_name name_size curpkgver ≡ some rname
        → find_pkg_in_array v pkgs rname unknown ≡ ret (some p)
        → (pkg_type p same_trans remove) ≡ true
        → IsUnbroken obj pkgver name curpkgver
    replaced :
        (pkg_type obj same_trans remove) ≡ true
        → is_some obj.replaced ≡ true
        → IsUnbroken obj pkgver name curpkgver
    removed_too :
        {rname : CStr} {p : Pkg}
        → pkg_name name_size curpkgver ≡ some rname
        → find_pkg_in_array v pkgs rname remove ≡ ret (some p)
        → IsUnbroken obj pkgver name curpkgver
    satisfied :
        {rname : CStr} {queued : Option Pkg}
        → pkg_name name_size curpkgver ≡ some rname
        → find_pkg_in_array v pkgs rname unknown ≡ ret queued
        → (pkg_type obj same_trans remove) ≡ false
        → MeetsVirtual v
            (with_default [] obj.provides)
            (rundeps_of v pkgdb pkgs (rev_pkgd v pkgdb pkgs queued curpkgver))
        → MeetsReal pkgver name rname
            (rundeps_of v pkgdb pkgs (rev_pkgd v pkgdb pkgs queued curpkgver))
        → IsUnbroken obj pkgver name curpkgver

  abbrev reported : CStr → Option Pkg → Run Report
  reported text o = ret (true, if is_some o then [] else text ∷ [])

  -- Of a search whose success is silent.
  silent :
      (m : Run (Option Pkg)) (text : CStr)
      → (m >>= reported text) ≡ ret (true, [])
      → (p : Pkg) × (m ≡ ret (some p))
  silent abort text h = absurd (cc)
  silent (ret none) text h = absurd (ground (arith, h))
  silent (ret (some p)) text h = (p, refl)

  check_real-MeetsReal :
      (pkgver name curpkgver rname : CStr) (rundeps : List CStr)
      → check_real v pkgdb pkgs pkgver name curpkgver rname rundeps ≡ ret (true, [])
      → MeetsReal pkgver name rname rundeps
  unfolding check_real
  check_real-MeetsReal pkgver name curpkgver rname rundeps h = record {
    meets = elim (Option-cases (depends_on v name rundeps)) [
      | inl e ↦ absurd (ground (arith, e, h))
      | inr (false, e) ↦ λ dep i n. absurd (depends_on-false v name rundeps e dep i n)
      | inr (true, e) ↦ λ dep i n.
          elim (Bool-cases (match_string_in_array v pkgdep_against_patterns pkgver rundeps)) [
            | inl t ↦ inl (some_pattern v pkgver rundeps t)
            | inr f ↦
                inr (silent (find_pkg_in_array v pkgs rname update) _ (rw (check_real, e, f) at h))
          ]
    ];
  }

  check_kept-meets :
      (obj : Pkg) (pkgver name curpkgver rname : CStr) (revpkgver : Option CStr)
      (rundeps : List CStr)
      → AllNamed v (with_default [] obj.provides)
      → check_kept v pkgdb pkgs obj pkgver name curpkgver rname revpkgver rundeps ≡ ret (true, [])
      → MeetsVirtual v (with_default [] obj.provides) rundeps × MeetsReal pkgver name rname rundeps
  unfolding check_kept
  check_kept-meets obj pkgver name curpkgver rname revpkgver rundeps named h =
      elim (List-cases (check_virtual_pkgs v revpkgver rundeps (with_default [] obj.provides))) [
        | inl e ↦ (
          check_virtual_pkgs-MeetsVirtual v revpkgver rundeps (with_default [] obj.provides) named
              e,
          check_real-MeetsReal pkgver name curpkgver rname rundeps (ground (arith, e, h)),
        )
        | inr (m, ms, e) ↦ absurd (ground (arith, e, h))
      ]

  check_removed-cases :
      (obj : Pkg) (pkgver curpkgver rname : CStr)
      → check_removed v pkgdb pkgs obj pkgver curpkgver rname ≡ ret (true, [])
      → (is_some obj.replaced ≡ true)
        ⊎ ((p : Pkg) × (find_pkg_in_array v pkgs rname remove ≡ ret (some p)))
  unfolding check_removed
  check_removed-cases obj pkgver curpkgver rname h = elim (Bool-cases (is_some obj.replaced)) [
    | inl t ↦ inl t
    | inr f ↦ inr (silent (find_pkg_in_array v pkgs rname remove) _ (rw (f, check_removed) at h))
  ]

  check_revdep-IsUnbroken :
      (obj : Pkg) (pkgver name curpkgver : CStr)
      → AllNamed v (with_default [] obj.provides)
      → check_revdep v pkgdb pkgs obj pkgver name curpkgver ≡ ret (true, [])
      → IsUnbroken obj pkgver name curpkgver
  unfolding check_revdep
  check_revdep-IsUnbroken obj pkgver name curpkgver named h =
      elim (Option-cases (pkg_name name_size curpkgver)) [
        | inl e ↦ absurd (ground (arith, e, h))
        | inr (rname, e) ↦
            let (queued, finds, out) =
              >>=-ret (find_pkg_in_array v pkgs rname unknown) _ (rw (e, check_revdep) at h) in
            at_queued rname queued e finds out
      ]
    where
      at_queued :
          (rname : CStr) (queued : Option Pkg)
          → pkg_name name_size curpkgver ≡ some rname
          → find_pkg_in_array v pkgs rname unknown ≡ ret queued
          → (if is_going v pkgdb pkgs queued
              then ret (true, [])
              else if pkg_type obj same_trans remove
              then check_removed v pkgdb pkgs obj pkgver curpkgver rname
              else check_kept v pkgdb pkgs obj pkgver name curpkgver rname
                  (rev_pkgver v pkgdb pkgs (rev_pkgd v pkgdb pkgs queued curpkgver))
                  (rundeps_of v pkgdb pkgs (rev_pkgd v pkgdb pkgs queued curpkgver)))
            ≡ ret (true, [])
          → IsUnbroken obj pkgver name curpkgver
      at_queued rname queued e finds out = elim (Bool-cases (is_going v pkgdb pkgs queued)) [
        | inl t ↦ goes queued finds t
        | inr f ↦ elim (Bool-cases (pkg_type obj same_trans remove)) [
          | inl t ↦
              elim (check_removed-cases obj pkgver curpkgver rname (ground (arith, f, t, out))) [
                | inl r ↦ replaced t r
                | inr (p, r) ↦ removed_too e r
              ]
          | inr g ↦
              let revpkgd = rev_pkgd v pkgdb pkgs queued curpkgver in
              let (meets, real) =
                check_kept-meets obj pkgver name curpkgver rname (rev_pkgver v pkgdb pkgs revpkgd)
                  (rundeps_of v pkgdb pkgs revpkgd) named (ground (arith, f, g, out)) in
              satisfied e finds g meets real
        ]
      ]
        where
          goes :
              (queued : Option Pkg)
              → find_pkg_in_array v pkgs rname unknown ≡ ret queued
              → is_going v pkgdb pkgs queued ≡ true
              → IsUnbroken obj pkgver name curpkgver
          goes none finds t = absurd (cc)
          goes (some p) finds t = going e finds t

  check_obj-quiet :
      (ignored_pkgs : Option (List CStr)) (revs : List (CStr × List CStr)) (obj : Pkg)
      (pkgver name x : CStr) (xs : List CStr)
      → (pkg_type obj same_trans hold) ≡ false
      → (pkg_type obj same_trans install) ≡ false
      → obj.pkgver ≡ some pkgver
      → pkg_name name_size pkgver ≡ some name
      → pkg_is_ignored v ignored_pkgs pkgver ≡ false
      → get_pkg_revdeps v pkgdb revs name ≡ ret (some (x ∷ xs))
      → check_obj v pkgdb pkgs ignored_pkgs revs obj
        ≡ check_each (check_revdep v pkgdb pkgs obj pkgver name) (x ∷ xs) []
  unfolding check_obj
  check_obj-quiet ignored_pkgs revs obj pkgver name x xs k l e n g r =
      ground (arith, k, l, e, n, g, r)

  -- The check succeeds without a message. Then each package of the transaction that is neither on
  -- hold nor newly installed nor ignored, and whose provided virtual packages have a name, leaves
  -- each of its reverse dependencies unbroken: that one is removed too; or the package is removed
  -- and replaced; or, where the package stays, the virtual packages that it provides satisfy all
  -- dependencies that name them, and its own pkgver satisfies some dependency of one that names it,
  -- unless an update of that one is in the transaction.
  pub transaction_check_revdeps-IsUnbroken :
      (ignored_pkgs : Option (List CStr)) (revs : List (CStr × List CStr))
      → transaction_check_revdeps v pkgdb pkgs ignored_pkgs revs ≡ ret (true, [])
      → (obj : Pkg) (pkgver name curpkgver : CStr) (pkgrdeps : List CStr) → In obj pkgs
      → AllNamed v (with_default [] obj.provides)
      → (pkg_type obj same_trans hold) ≡ false
      → (pkg_type obj same_trans install) ≡ false
      → obj.pkgver ≡ some pkgver
      → pkg_name name_size pkgver ≡ some name
      → pkg_is_ignored v ignored_pkgs pkgver ≡ false
      → get_pkg_revdeps v pkgdb revs name ≡ ret (some pkgrdeps)
      → In curpkgver pkgrdeps
      → IsUnbroken obj pkgver name curpkgver
  unfolding transaction_check_revdeps
  transaction_check_revdeps-IsUnbroken ignored_pkgs revs h obj pkgver name cur rdeps i named k l e n
        g r j =
      let (start, rounds) = check_each-quiet (check_obj v pkgdb pkgs ignored_pkgs revs) pkgs [] h in
      check_revdep-IsUnbroken obj pkgver name cur named (revdeps_quiet rdeps (rounds obj i) r cur j)
    where
      revdeps_quiet :
          (rdeps : List CStr)
          → check_obj v pkgdb pkgs ignored_pkgs revs obj ≡ ret (true, [])
          → get_pkg_revdeps v pkgdb revs name ≡ ret (some rdeps)
          → (cur : CStr) → In cur rdeps
          → check_revdep v pkgdb pkgs obj pkgver name cur ≡ ret (true, [])
      revdeps_quiet [] quiet r cur j = elim j [ ]
      revdeps_quiet (x ∷ xs) quiet r cur j =
          let (nothing, each) =
            check_each-quiet (check_revdep v pkgdb pkgs obj pkgver name) (x ∷ xs) []
              (sym (check_obj-quiet ignored_pkgs revs obj pkgver name x xs k l e n g r) ∙ quiet) in
          each cur j
