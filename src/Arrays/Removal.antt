-- ===== src/Arrays/Removal.antt =====
-- What remove_pkg_from_array_by_pkgver leaves of an array in which no name stands twice.
use xbps.Common.{
  true, false, false, some, List, ◌∷◌, ◌≡◌, refl, sym, ap, ◌∙◌, inl, inr, CStr, streq, streq_iff,
  streq_refl, subst, All, In, here, there, All-In, All-of_In, arith, Bool-cases,
}
use xbps.Pkg.{Pkg}
use xbps.Match.{Probe, hit, miss}
use xbps.Remove.{found_if, remove_pkg_from_array_by_pkgver}
use xbps.Remove.First.{remove_obj_from_array-hit, remove_obj_from_array-miss}
use xbps.Arrays.Names.{IsNamed, name_of, Lacks, UniqueNames, streq_flip}

-- The package of this name is gone, and nothing else is.
pub record Removed (name : CStr) (pkgs kept : List Pkg) : Type 0 where
  pub lacks : Lacks name kept
  pub unique : UniqueNames kept
  pub sub : (q : Pkg) → In q kept → In q pkgs
  pub frame : (q : Pkg) → In q pkgs → streq name (name_of q) ≡ false → In q kept

pub All-sub :
    (P : Pkg → Type 0) (pkgs kept : List Pkg)
    → ((q : Pkg) → In q kept → In q pkgs)
    → All P pkgs
    → All P kept
All-sub P pkgs kept sub h = All-of_In P kept (λ q i. All-In P (sub q i) h)

step :
    {name : CStr} {pkgs kept : List Pkg} (p : Pkg)
    → UniqueNames (p ∷ pkgs)
    → streq name (name_of p) ≡ false
    → Removed name pkgs kept
    → Removed name (p ∷ pkgs) (p ∷ kept)
step {name} {pkgs} {kept} p u e r = record {
  lacks = (e, r.lacks);
  unique = (All-sub (λ q. streq (name_of p) (name_of q) ≡ false) pkgs kept r.sub u.0, r.unique);
  sub = sub;
  frame = frame;
}
  where
    sub : (q : Pkg) → In q (p ∷ kept) → In q (p ∷ pkgs)
    sub _ here = here
    sub q (there i) = there (r.sub q i)

    frame : (q : Pkg) → In q (p ∷ pkgs) → streq name (name_of q) ≡ false → In q (p ∷ kept)
    frame _ here f = here
    frame q (there i) f = there (r.frame q i f)

first :
    {name : CStr} {pkgs : List Pkg} (p : Pkg)
    → UniqueNames (p ∷ pkgs)
    → name_of p ≡ name
    → Removed name (p ∷ pkgs) pkgs
first {name} {pkgs} p u e = record {
  lacks = subst (λ n. Lacks n pkgs) e u.0;
  unique = u.1;
  sub = λ q i. there i;
  frame = frame;
}
  where
    frame : (q : Pkg) → In q (p ∷ pkgs) → streq name (name_of q) ≡ false → In q pkgs
    frame _ here f = absurd (let t = (streq_iff name (name_of p)).1 (sym e) in ground arith)
    frame q (there i) f = i

-- Two packages of one pkgver have one name.
same_name :
    {p q : Pkg} {ver : CStr}
    → IsNamed p
    → IsNamed q
    → p.pkgver ≡ some ver
    → q.pkgver ≡ some ver
    → name_of p ≡ name_of q
same_name {p} {q} h k e f =
    let a = h.has_ver in
    let b = h.has_name in
    let c = h.agrees in let d = k.has_ver in let g = k.has_name in let i = k.agrees in ground arith

-- The test of a pkgver.
by_ver : CStr → Pkg → Probe
by_ver ver p = found_if (λ curname. streq curname ver) p.pkgver

by_ver-hit :
    (ver : CStr) (p : Pkg) {cur : CStr}
    → p.pkgver ≡ some cur
    → streq cur ver ≡ true
    → by_ver ver p ≡ hit
unfolding by_ver
by_ver-hit ver p g t = ap (found_if (λ curname. streq curname ver)) g ∙ ground (arith, t)

by_ver-miss :
    (ver : CStr) (p : Pkg) {cur : CStr}
    → p.pkgver ≡ some cur
    → streq cur ver ≡ false
    → by_ver ver p ≡ miss
unfolding by_ver
by_ver-miss ver p g t = ap (found_if (λ curname. streq curname ver)) g ∙ ground (arith, t)

-- An array of packages with a name that their pkgver has too, without two of one name, that holds
-- a package of this pkgver loses the package of its name and no other, and keeps distinct names.
pub remove_pkg_from_array_by_pkgver-Removed :
    {p : Pkg} {ver : CStr} {pkgs : List Pkg}
    → In p pkgs
    → All IsNamed pkgs
    → UniqueNames pkgs
    → p.pkgver ≡ some ver
    → (kept : List Pkg) × (remove_pkg_from_array_by_pkgver pkgs ver ≡ some kept)
      × Removed (name_of p) pkgs kept
unfolding remove_pkg_from_array_by_pkgver by_ver
remove_pkg_from_array_by_pkgver-Removed {p = p} {ver = ver} (here {xs = pkgs}) h u e = (
  pkgs,
  remove_obj_from_array-hit (by_ver ver) p pkgs (by_ver-hit ver p e (streq_refl ver)),
  first p u refl,
)
remove_pkg_from_array_by_pkgver-Removed {p = p} {ver = ver} (there {x = q} {xs = pkgs} i) h u e =
    let (kept, runs, r) = remove_pkg_from_array_by_pkgver-Removed {ver = ver} i h.1 u.1 e in
    elim (Bool-cases (streq (h.0.ver) ver)) [
      | inl t ↦ (
        pkgs,
        remove_obj_from_array-hit (by_ver ver) q pkgs (by_ver-hit ver q h.0.has_ver t),
        first q u (
            same_name h.0 (All-In IsNamed i h.1)
              (h.0.has_ver ∙ ap some ((streq_iff h.0.ver ver).0 t)) e),
      )
      | inr f ↦ (
        q ∷ kept,
        remove_obj_from_array-miss (by_ver ver) q pkgs (by_ver-miss ver q h.0.has_ver f) runs,
        step q u
            (streq_flip (name_of p) (name_of q)
              (All-In (λ o. streq (name_of q) (name_of o) ≡ false) i u.0))
            r,
      )
    ]
