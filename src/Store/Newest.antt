-- ===== src/Store/Newest.antt =====
-- What transaction_store makes of an array in which no name stands twice.
use xbps.Common.{
  Bool, true, false, Option, some, List, [], ◌∷◌, ◌++◌, ◌≡◌, ◌⊎◌, refl, sym, ap, inl, inr, CStr,
  streq, All, In, All-In, All-concat, In-append_left, In-last, In-concat, with_default, subst, ret,
  arith, Bool-cases,
}
use xbps.Pkg.{Pkg}
use xbps.Versions.{Versions, CmpverRefl}
use xbps.Arrays.Names.{
  IsNamed, IsPlain, IsQueue, name_of, Lacks, UniqueNames, Found, absent, present, streq_flip,
  find_pkg_in_array-Found,
}
use xbps.Arrays.Removal.{Removed, All-sub, remove_pkg_from_array_by_pkgver-Removed}
use xbps.Store.{stored_copy, not_newer, store_over, transaction_store}

-- The array `after` has a package of `name` that the version `ver` is not newer than; the packages
-- of other names are those of `before`.
pub record Stored (v : Versions) (stored_pkg : Pkg) (name ver : CStr) (before after : List Pkg)
    : Type 0 where
  pub queue : IsQueue after
  pub newest :
      (q : Pkg) × (qver : CStr) × In q after
      × (name_of q ≡ name)
      × (q.pkgver ≡ some qver)
      × (not_newer (v.cmpver ver qver) ≡ true)
  pub kept : (q : Pkg) → In q before → streq name (name_of q) ≡ false → In q after
  pub origin : (q : Pkg) → In q after → In q before ⊎ (q ≡ stored_pkg)

UniqueNames-concat :
    (a : Pkg) (pkgs : List Pkg)
    → Lacks (name_of a) pkgs
    → UniqueNames pkgs
    → UniqueNames (pkgs ++ a ∷ [])
UniqueNames-concat a [] l u = (tt, tt)
UniqueNames-concat a (p ∷ pkgs) l u = (
  All-concat (λ q. streq (name_of p) (name_of q) ≡ false) pkgs a u.0
      (streq_flip (name_of p) (name_of a) l.0),
  UniqueNames-concat a pkgs l.1 u.1,
)

module _ (v : Versions) (same : CmpverRefl v) {p : Pkg} (h : IsNamed p) (autoinst : Bool) where
  stored_pkg : Pkg
  stored_pkg = stored_copy p h.name autoinst

  stored_pkg-IsNamed : IsNamed stored_pkg
  unfolding stored_pkg stored_copy
  stored_pkg-IsNamed = record {
    ver = h.ver;
    name = h.name;
    has_ver = h.has_ver;
    has_name = h.has_name;
    agrees = h.agrees;
  }

  stored_pkg-name : name_of stored_pkg ≡ h.name
  unfolding stored_pkg stored_copy
  stored_pkg-name = ap (with_default []) h.has_name

  stored_pkg-ver : stored_pkg.pkgver ≡ some h.ver
  unfolding stored_pkg stored_copy
  stored_pkg-ver = h.has_ver

  not_newer-same : not_newer (v.cmpver h.ver h.ver) ≡ true
  unfolding not_newer
  not_newer-same = ap not_newer (same.same h.ver)

  appended :
      {before kept : List Pkg}
      → All IsNamed before
      → Removed h.name before kept
      → Stored v stored_pkg h.name h.ver before (kept ++ stored_pkg ∷ [])
  appended {before} {kept} named r = record {
    queue = record {
      named =
          All-concat IsNamed kept stored_pkg (All-sub IsNamed before kept r.sub named)
            stored_pkg-IsNamed;
      unique =
          UniqueNames-concat stored_pkg kept
            (subst (λ n. Lacks n kept) (sym stored_pkg-name) r.lacks) r.unique;
    };
    newest = (
      stored_pkg,
      h.ver,
      In-last kept stored_pkg,
      stored_pkg-name,
      stored_pkg-ver,
      not_newer-same,
    );
    kept = λ q i e. In-append_left (stored_pkg ∷ []) (r.frame q i e);
    origin = origin;
  }
    where
      origin : (q : Pkg) → In q (kept ++ stored_pkg ∷ []) → In q before ⊎ (q ≡ stored_pkg)
      origin q i = elim (In-concat kept i) [ inl j ↦ inl (r.sub q j) | inr e ↦ inr e ]

  over :
      {pkgs : List Pkg} {d : Option Pkg}
      → IsQueue pkgs
      → Found h.name pkgs d
      → (after : List Pkg) × (store_over v pkgs p h.ver h.name autoinst d ≡ (after, true))
        × Stored v stored_pkg h.name h.ver pkgs after
  unfolding store_over stored_pkg
  over {pkgs} u (absent l) = (
    pkgs ++ stored_pkg ∷ [],
    refl,
    appended u.named (record { lacks = l; unique = u.unique; sub = λ q i. i; frame = λ q i e. i }),
  )
  over {pkgs} u (present {p = d} i e) =
      let k = All-In IsNamed i u.named in
      let g = k.has_ver in
      elim (Bool-cases (not_newer (v.cmpver h.ver k.ver))) [
        | inl t ↦ (
          pkgs,
          ground (arith, g, t),
          record {
            queue = u;
            newest = (d, k.ver, i, e, g, t);
            kept = λ q j f. j;
            origin = λ q j. inl j;
          },
        )
        | inr f ↦
            let (kept, runs, r) = remove_pkg_from_array_by_pkgver-Removed i u.named u.unique g in
            (
              kept ++ stored_pkg ∷ [],
              ground (arith, g, f, runs),
              appended u.named (subst (λ n. Removed n pkgs kept) e r),
            )
      ]

-- Where a version compares as equal with itself: storing a package that has a pkgver and its name
-- in an array of such packages with distinct names never aborts and is a success, if the name is
-- not itself a pattern or a pkgver. The array keeps distinct names, now has a package of this name
-- that the stored version is not newer than, keeps every package of another name, and gains at
-- most the stored copy.
pub transaction_store-Stored :
    (v : Versions)
    → CmpverRefl v
    → {pkgs : List Pkg} {p : Pkg} → IsQueue pkgs
    → (h : IsNamed p) → IsPlain h.name
    → (autoinst : Bool)
    → (after : List Pkg) × (transaction_store v pkgs p autoinst ≡ ret (after, true))
      × Stored v (stored_copy p h.name autoinst) h.name h.ver pkgs after
unfolding transaction_store stored_pkg
transaction_store-Stored v same {pkgs} {p} u h plain autoinst =
    let (d, found, f) = find_pkg_in_array-Found v plain pkgs u.named in
    let (after, runs, s) = over v same h autoinst u f in
    let a = h.has_ver in let b = h.has_name in (after, ground (arith, a, b, found, runs), s)
