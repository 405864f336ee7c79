-- ===== src/Conflicts/Entries.antt =====
-- One entry of `conflicts`, and the loop over the entries.
use xbps.Common.{
  false, Option, none, some, List, [], ◌∷◌, ◌++◌, ◌≡◌, ◌≢◌, refl, ap, ◌∙◌, if◌then◌else◌, CStr,
  streq, is_some, Run, ret, abort, ◌>>=◌, >>=-ret, In, here, there, arith, Bool-cases, Option-cases,
  inl, inr,
}
use xbps.Versions.{Versions}
use xbps.Pkg.{Pkg, Installed, unknown}
use xbps.Arrays.{find_pkg_in_array}
use xbps.Virtual.{Virtuals}
use xbps.Conflicts.{
  Check, pass, conflict, stop, is_ignored, is_superseded, installed_match, queued_match,
  check_installed_pkg, installed_text, check_queued_pkg, check_queued, check_trans, check_entries,
}
use xbps.Conflicts.Matches.{queued_match-HasVer}

append-nonempty : (found : List CStr) (buf : CStr) → ¬ ((found ++ buf ∷ []) ≡ [])
append-nonempty [] buf h = cc
append-nonempty (x ∷ found) buf h = cc

abbrev pub NoStop : (CStr → Run Check) → Type 0
NoStop check = (cfpkg : CStr) → check cfpkg ≢ ret stop

-- A loop that reports nothing started with nothing, and no entry is a conflict.
pub check_entries-nothing :
    (check : CStr → Run Check) (cflicts found : List CStr)
    → check_entries check cflicts found ≡ ret []
    → (found ≡ []) × ((NoStop check) → (cfpkg : CStr) → In cfpkg cflicts → check cfpkg ≡ ret pass)
unfolding check_entries
check_entries-nothing check [] found h = (ground arith, (λ n cfpkg i. elim i [ ]))
check_entries-nothing check (c ∷ cs) found h =
    go (check c) refl (λ f e. check_entries-nothing check cs f e)
  where
    go :
        (o : Run Check)
        → check c ≡ o
        → ((f : List CStr)
            → check_entries check cs f ≡ ret []
            → (f ≡ []) × ((NoStop check) → (cfpkg : CStr) → In cfpkg cs → check cfpkg ≡ ret pass))
        → (found ≡ [])
          × ((NoStop check) → (cfpkg : CStr) → In cfpkg (c ∷ cs) → check cfpkg ≡ ret pass)
    go abort e rec = absurd (ground (arith, e, h))
    go (ret stop) e rec = (ground (arith, e, h), (λ n cfpkg i. absurd (n c e)))
    go (ret (conflict buf)) e rec =
        let (a, b) = rec (found ++ buf ∷ []) (ground (arith, e, h)) in
        absurd (append-nonempty found buf a)
    go (ret pass) e rec =
        let (a, b) = rec found (ground (arith, e, h)) in (a, (λ n cfpkg i. each (b n) i))
      where
        each :
            ((cfpkg : CStr) → In cfpkg cs → check cfpkg ≡ ret pass)
            → {cfpkg : CStr} → In cfpkg (c ∷ cs)
            → check cfpkg ≡ ret pass
        each k here = e
        each k {cfpkg} (there i) = k cfpkg i

module _ (v : Versions) (vpkgd : List Virtuals) (pkgdb : List Installed) (pkgs : List Pkg) where
  -- A conflict, by its entry, of a package of this name: with an installed package that is not on
  -- hold and that no package of the transaction supersedes, or, where none is installed, with one
  -- of the transaction that is neither removed nor on hold.
  pub data InConflict (name cfpkg : CStr) : Type 0 where
    with_installed :
        {obj : Installed} {other : CStr} {t : Option Pkg}
        → installed_match v vpkgd pkgdb pkgs cfpkg ≡ ret (some obj)
        → is_some obj.pkgd.hold ≡ false
        → obj.pkgd.pkgname ≡ some other
        → streq other name ≡ false
        → find_pkg_in_array v pkgs other unknown ≡ ret t
        → is_superseded t ≡ false
        → InConflict name cfpkg
    with_queued :
        {q : Pkg} {other : CStr}
        → installed_match v vpkgd pkgdb pkgs cfpkg ≡ ret none
        → queued_match v vpkgd pkgdb pkgs cfpkg ≡ ret (some q)
        → is_ignored q ≡ false
        → q.pkgname ≡ some other
        → streq other name ≡ false
        → InConflict name cfpkg

  check_installed_pkg-NoStop :
      (a n cfpkg : CStr) (p : Pkg) → check_installed_pkg v vpkgd pkgdb pkgs a n cfpkg p ≢ ret stop
  unfolding check_installed_pkg
  check_installed_pkg-NoStop a n cfpkg p h = elim (Bool-cases (is_some p.hold)) [
    | inl e ↦ absurd (ground (arith, e, h))
    | inr e ↦ elim (Option-cases p.pkgname) [
      | inl f ↦ absurd (ground (arith, e, f, h))
      | inr (other, f) ↦ elim (Bool-cases (streq other n)) [
        | inl g ↦ absurd (ground (arith, e, f, g, h))
        | inr g ↦ elim (Option-cases p.pkgver) [
          | inl k ↦ absurd (ground (arith, e, f, g, k, h))
          | inr (ver, k) ↦
              let opened : (find_pkg_in_array v pkgs other unknown >>= λ t.
              ret (if is_superseded t then pass else conflict (installed_text a ver cfpkg)))
                  ≡ ret stop =
                ground (arith, e, f, g, k, h) in
              let (t, runs, out) = >>=-ret (find_pkg_in_array v pkgs other unknown) _ opened in
              elim (Bool-cases (is_superseded t)) [
                | inl u ↦ absurd (ground (arith, u, out))
                | inr u ↦ absurd (ground (arith, u, out))
              ]
        ]
      ]
    ]
  ]

  pub check_queued-NoStop :
      (o : Run Check) (a n cfpkg : CStr) → check_queued v vpkgd pkgdb pkgs o a n cfpkg ≢ ret stop
  unfolding check_queued check_queued_pkg
  check_queued-NoStop o a n cfpkg h =
      let (r, runs, out) = >>=-ret (queued_match v vpkgd pkgdb pkgs cfpkg) _ h in
      elim (Option-cases r) [
        | inl e ↦ absurd (ground (arith, e, out))
        | inr (q, e) ↦
            let (ver, k) = queued_match-HasVer v vpkgd pkgs pkgdb cfpkg {q = q} (runs ∙ ap ret e) in
            absurd (ground (arith, e, k, out))
      ]

  pub check_trans-NoStop : (a n : CStr) → NoStop (check_trans v vpkgd pkgdb pkgs a n)
  unfolding check_trans
  check_trans-NoStop a n cfpkg h =
      let (r, runs, out) = >>=-ret (installed_match v vpkgd pkgdb pkgs cfpkg) _ h in go r out
    where
      go :
          (r : Option Installed)
          → (elim r [
            | some obj ↦ check_installed_pkg v vpkgd pkgdb pkgs a n cfpkg obj.pkgd
            | none ↦ check_queued v vpkgd pkgdb pkgs (ret stop) a n cfpkg
          ])
            ≢ ret stop
      go none out = check_queued-NoStop (ret stop) a n cfpkg out
      go (some obj) out = check_installed_pkg-NoStop a n cfpkg obj.pkgd out

  pub check_trans-pass :
      (a n cfpkg : CStr)
      → check_trans v vpkgd pkgdb pkgs a n cfpkg ≡ ret pass
      → ¬ InConflict n cfpkg
  unfolding check_trans check_queued check_queued_pkg check_installed_pkg
  check_trans-pass a n cfpkg h (with_installed {obj} i hd nm ne f s) =
      elim (Option-cases obj.pkgd.pkgver) [
        | inl e ↦ absurd (ground (arith, e, i, hd, nm, ne, f, s, h))
        | inr (ver, e) ↦ absurd (ground (arith, e, i, hd, nm, ne, f, s, h))
      ]
  check_trans-pass a n cfpkg h (with_queued {q} i m g nm ne) = elim (Option-cases q.pkgver) [
    | inl e ↦ absurd (ground (arith, e, i, m, g, nm, ne, h))
    | inr (ver, e) ↦ absurd (ground (arith, e, i, m, g, nm, ne, h))
  ]

  -- The same for an installed package that is not in the transaction: with one of the transaction.
  pub record InConflictQueued (name cfpkg : CStr) : Type 0 where
    pub matched : Pkg
    pub other : CStr
    pub matches : queued_match v vpkgd pkgdb pkgs cfpkg ≡ ret (some matched)
    pub stays : is_ignored matched ≡ false
    pub has_name : matched.pkgname ≡ some other
    pub differs : streq other name ≡ false

  pub check_queued-pass :
      (a n cfpkg : CStr)
      → check_queued v vpkgd pkgdb pkgs abort a n cfpkg ≡ ret pass
      → ¬ InConflictQueued n cfpkg
  unfolding check_queued check_queued_pkg
  check_queued-pass a n cfpkg h c =
      let m = c.matches in
      let g = c.stays in
      let nm = c.has_name in
      let ne = c.differs in
      elim (Option-cases c.matched.pkgver) [
        | inl e ↦ absurd (ground (arith, e, m, g, nm, ne, h))
        | inr (ver, e) ↦ absurd (ground (arith, e, m, g, nm, ne, h))
      ]
