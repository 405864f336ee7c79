-- ===== src/Conflicts/Reported.antt =====
-- Where no conflict is reported there is none.
use xbps.Common.{
  false, none, some, List, [], ◌∷◌, ◌≡◌, refl, sym, ap, subst, ◌∙◌, if◌then◌else◌, CStr, is_some,
  with_default, ret, abort, ◌>>=◌, >>=-ret, In, here, there, arith, Bool-cases, Option-cases, inl,
  inr,
}
use xbps.Versions.{Versions}
use xbps.Pkg.{Pkg, Installed, unknown}
use xbps.Arrays.{find_pkg_in_array}
use xbps.Virtual.{Virtuals}
use xbps.Conflicts.{
  is_ignored, check_queued, check_trans, check_entries, pkg_conflicts_trans, pkgdb_conflicts_cb,
  all_trans, all_installed, transaction_check_conflicts,
}
use xbps.Conflicts.Entries.{
  check_entries-nothing, InConflict, InConflictQueued, check_trans-NoStop, check_trans-pass,
  check_queued-NoStop, check_queued-pass,
}

module _ (v : Versions) (vpkgd : List Virtuals) (pkgdb : List Installed) (pkgs : List Pkg) where
  pkg_conflicts_trans-nothing :
      (p : Pkg) (found : List CStr)
      → pkg_conflicts_trans v vpkgd pkgdb pkgs p found ≡ ret []
      → (found ≡ [])
        × ((name cfpkg : CStr)
            → is_ignored p ≡ false
            → p.pkgname ≡ some name
            → In cfpkg (with_default [] p.conflicts)
            → ¬ InConflict v vpkgd pkgdb pkgs name cfpkg)
  unfolding pkg_conflicts_trans
  pkg_conflicts_trans-nothing p found h = go (with_default [] p.conflicts) refl
    where
      go :
          (cfs : List CStr)
          → with_default [] p.conflicts ≡ cfs
          → (found ≡ [])
            × ((name cfpkg : CStr)
                → is_ignored p ≡ false
                → p.pkgname ≡ some name
                → In cfpkg (with_default [] p.conflicts)
                → ¬ InConflict v vpkgd pkgdb pkgs name cfpkg)
      go [] e =
          (ground (arith, e, h), (λ name cfpkg g n i. absurd (elim (subst (In cfpkg) e i) [ ])))
      go (cf ∷ cfs) e = elim (Bool-cases (is_ignored p)) [
        | inl g ↦ (ground (arith, e, g, h), (λ name cfpkg g' n i. absurd (ground (arith, g, g'))))
        | inr g ↦ elim (Option-cases p.pkgver) [
          | inl k ↦ absurd (ground (arith, e, g, k, h))
          | inr (a, k) ↦ elim (Option-cases p.pkgname) [
            | inl l ↦ absurd (ground (arith, e, g, k, l, h))
            | inr (n, l) ↦
                let (z, each) =
                  check_entries-nothing (check_trans v vpkgd pkgdb pkgs a n) (cf ∷ cfs) found
                    (ground (arith, e, g, k, l, h)) in
                (
                  z,
                  (λ name cfpkg g' n' i.
                      let same : n ≡ name = ground (arith, l, n') in
                      subst (λ name. ¬ InConflict v vpkgd pkgdb pkgs name cfpkg) same
                        (check_trans-pass v vpkgd pkgdb pkgs a n cfpkg (
                          each (check_trans-NoStop v vpkgd pkgdb pkgs a n) cfpkg
                            (subst (In cfpkg) e i)))),
                )
          ]
        ]
      ]

  all_trans-nothing :
      (ps : List Pkg) (found : List CStr)
      → all_trans v vpkgd pkgdb pkgs ps found ≡ ret []
      → (found ≡ []) × ((p : Pkg) → In p ps → pkg_conflicts_trans v vpkgd pkgdb pkgs p [] ≡ ret [])
  unfolding all_trans
  all_trans-nothing [] found h = (ground (arith, h), (λ p i. elim i [ ]))
  all_trans-nothing (p ∷ ps) found h =
      let (f, runs, out) = >>=-ret (pkg_conflicts_trans v vpkgd pkgdb pkgs p found) _ h in
      let (z, later) = all_trans-nothing ps f out in
      let first : pkg_conflicts_trans v vpkgd pkgdb pkgs p found ≡ ret [] = runs ∙ ap ret z in
      let (y, n) = pkg_conflicts_trans-nothing p found first in
      (
        y,
        (λ q i.
            each later (subst (λ f. pkg_conflicts_trans v vpkgd pkgdb pkgs p f ≡ ret []) y first)
              i),
      )
    where
      each :
          ((q : Pkg) → In q ps → pkg_conflicts_trans v vpkgd pkgdb pkgs q [] ≡ ret [])
          → pkg_conflicts_trans v vpkgd pkgdb pkgs p [] ≡ ret []
          → {q : Pkg} → In q (p ∷ ps)
          → pkg_conflicts_trans v vpkgd pkgdb pkgs q [] ≡ ret []
      each later first here = first
      each later first {q} (there i) = later q i

  pkgdb_conflicts_cb-nothing :
      (p : Pkg) (found : List CStr)
      → pkgdb_conflicts_cb v vpkgd pkgdb pkgs p found ≡ ret []
      → (found ≡ [])
        × ((name cfpkg : CStr)
            → find_pkg_in_array v pkgs name unknown ≡ ret none
            → p.pkgname ≡ some name
            → In cfpkg (with_default [] p.conflicts)
            → ¬ InConflictQueued v vpkgd pkgdb pkgs name cfpkg)
  unfolding pkgdb_conflicts_cb
  pkgdb_conflicts_cb-nothing p found h = go (with_default [] p.conflicts) refl
    where
      go :
          (cfs : List CStr)
          → with_default [] p.conflicts ≡ cfs
          → (found ≡ [])
            × ((name cfpkg : CStr)
                → find_pkg_in_array v pkgs name unknown ≡ ret none
                → p.pkgname ≡ some name
                → In cfpkg (with_default [] p.conflicts)
                → ¬ InConflictQueued v vpkgd pkgdb pkgs name cfpkg)
      go [] e =
          (ground (arith, e, h), (λ name cfpkg g n i. absurd (elim (subst (In cfpkg) e i) [ ])))
      go (cf ∷ cfs) e = elim (Option-cases p.pkgver) [
        | inl k ↦ absurd (ground (arith, e, k, h))
        | inr (a, k) ↦ elim (Option-cases p.pkgname) [
          | inl l ↦ absurd (ground (arith, e, k, l, h))
          | inr (n, l) ↦
              let opened : (find_pkg_in_array v pkgs n unknown >>= λ t.
              if is_some t
              then ret found
              else check_entries (check_queued v vpkgd pkgdb pkgs abort a n) (cf ∷ cfs) found)
                  ≡ ret [] =
                ground (arith, e, k, l, h) in
              let (t, runs, out) = >>=-ret (find_pkg_in_array v pkgs n unknown) _ opened in
              elim (Option-cases t) [
                | inr (o, u) ↦ (
                  ground (arith, u, out),
                  (λ name cfpkg g' n' i.
                      let same : n ≡ name = ground (arith, l, n') in
                      let other : find_pkg_in_array v pkgs n unknown ≡ ret none =
                        subst (λ n. find_pkg_in_array v pkgs n unknown ≡ ret none) (sym same) g' in
                      absurd (ground (arith, runs, u, other))),
                )
                | inl u ↦
                    let (z, each) =
                      check_entries-nothing (check_queued v vpkgd pkgdb pkgs abort a n) (cf ∷ cfs)
                        found (ground (arith, u, out)) in
                    (
                      z,
                      (λ name cfpkg g' n' i.
                          let same : n ≡ name = ground (arith, l, n') in
                          subst (λ name. ¬ InConflictQueued v vpkgd pkgdb pkgs name cfpkg) same
                            (check_queued-pass v vpkgd pkgdb pkgs a n cfpkg (
                              each (check_queued-NoStop v vpkgd pkgdb pkgs abort a n) cfpkg
                                (subst (In cfpkg) e i)))),
                    )
              ]
        ]
      ]

  all_installed-nothing :
      (objs : List Installed) (found : List CStr)
      → all_installed v vpkgd pkgdb pkgs objs found ≡ ret []
      → (found ≡ [])
        × ((obj : Installed)
            → In obj objs
            → pkgdb_conflicts_cb v vpkgd pkgdb pkgs obj.pkgd [] ≡ ret [])
  unfolding all_installed
  all_installed-nothing [] found h = (ground (arith, h), (λ p i. elim i [ ]))
  all_installed-nothing (o ∷ objs) found h =
      let (f, runs, out) = >>=-ret (pkgdb_conflicts_cb v vpkgd pkgdb pkgs o.pkgd found) _ h in
      let (z, later) = all_installed-nothing objs f out in
      let first : pkgdb_conflicts_cb v vpkgd pkgdb pkgs o.pkgd found ≡ ret [] = runs ∙ ap ret z in
      let (y, n) = pkgdb_conflicts_cb-nothing o.pkgd found first in
      (
        y,
        (λ q i.
            each later
              (subst (λ f. pkgdb_conflicts_cb v vpkgd pkgdb pkgs o.pkgd f ≡ ret []) y first) i),
      )
    where
      each :
          ((q : Installed) → In q objs → pkgdb_conflicts_cb v vpkgd pkgdb pkgs q.pkgd [] ≡ ret [])
          → pkgdb_conflicts_cb v vpkgd pkgdb pkgs o.pkgd [] ≡ ret []
          → {q : Installed} → In q (o ∷ objs)
          → pkgdb_conflicts_cb v vpkgd pkgdb pkgs q.pkgd [] ≡ ret []
      each later first here = first
      each later first {q} (there i) = later q i

  -- Where the check of a transaction reports no conflict, no package of the transaction that is
  -- neither removed nor on hold has an entry in `conflicts` that matches an installed package of
  -- another name that is not on hold and not superseded in the transaction, or, where no installed
  -- package matches, one of the transaction of another name that is neither removed nor on hold;
  -- and no installed package whose name the transaction does not have is in conflict with one of
  -- the transaction of another name that is neither removed nor on hold.
  pub transaction_check_conflicts-nothing :
      transaction_check_conflicts v vpkgd pkgdb pkgs ≡ ret []
      → ((p : Pkg) (name cfpkg : CStr)
          → In p pkgs
          → is_ignored p ≡ false
          → p.pkgname ≡ some name
          → In cfpkg (with_default [] p.conflicts)
          → ¬ InConflict v vpkgd pkgdb pkgs name cfpkg)
        × ((obj : Installed) (name cfpkg : CStr)
            → In obj pkgdb
            → find_pkg_in_array v pkgs name unknown ≡ ret none
            → obj.pkgd.pkgname ≡ some name
            → In cfpkg (with_default [] obj.pkgd.conflicts)
            → ¬ InConflictQueued v vpkgd pkgdb pkgs name cfpkg)
  unfolding transaction_check_conflicts
  transaction_check_conflicts-nothing h =
      let (f, runs, out) = >>=-ret (all_trans v vpkgd pkgdb pkgs pkgs []) _ h in
      let (z, installed) = all_installed-nothing pkgdb f out in
      let (y, queued) = all_trans-nothing pkgs [] (runs ∙ ap ret z) in
      (
        (λ p name cfpkg i. (pkg_conflicts_trans-nothing p [] (queued p i)).1 name cfpkg),
        (λ obj name cfpkg i.
            (pkgdb_conflicts_cb-nothing obj.pkgd [] (installed obj i)).1 name cfpkg),
      )
