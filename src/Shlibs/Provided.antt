-- ===== src/Shlibs/Provided.antt =====
-- What collect_shlibs gathers: the libraries of the resulting system.
use xbps.Common.{
  Bool, ◌||◌, ◌&&◌, not, some, List, [], ◌∷◌, ◌≡◌, refl, fun_ext, ap, ◌∙◌, inl, inr, CStr, streq,
  streq_iff, streq_refl, any, All, arith, Bool-cases,
}
use xbps.Pkg.{Installed, Pkg, hold, remove, ◌same_trans◌, pkg_type}
use xbps.Shlibs.{
  ok, ShlibCtx, shlib_entry_find, shlib_entry_get, collect_shlib_array, libs, collect_pkg_shlibs,
  collect_pkgs, passed_over, collect_installed_shlibs, collect_pkgdb, collect_shlibs,
}
use xbps.Shlibs.Reference.{joins, provides_lib, decides, stays, provided}

-- A dictionary with both names.
pub record HasNames (p : Pkg) : Type 0 where
  pub ver : CStr
  pub name : CStr
  pub has_ver : p.pkgver ≡ some ver
  pub has_name : p.pkgname ≡ some name

shlib_entry_get-find :
    (es : List CStr) (s l : CStr)
    → shlib_entry_find (shlib_entry_get es s) l ≡ (shlib_entry_find es l || streq l s)
unfolding shlib_entry_get shlib_entry_find any
shlib_entry_get-find es s l = elim (Bool-cases (streq l s)) [
  | inl e ↦ let same = (streq_iff l s).0 e in let r = streq_refl s in rw same (ground (arith, r))
  | inr e ↦ ground (arith, e)
]

collect_shlib_array-find :
    (es array : List CStr) (l : CStr)
    → shlib_entry_find (collect_shlib_array es array) l
      ≡ (shlib_entry_find es l || any (streq l) array)
unfolding collect_shlib_array any
collect_shlib_array-find es [] l = ground arith
collect_shlib_array-find es (s ∷ array) l =
    let rest = collect_shlib_array-find (shlib_entry_get es s) array l in
    let first = shlib_entry_get-find es s l in ground (arith, rest, first)

-- What the context holds, as a test of a library and of a name.
record Holds (ctx : ShlibCtx) (lib name : CStr → Bool) : Type 0 where
  pub entries_have : (l : CStr) → shlib_entry_find ctx.entries l ≡ lib l
  pub seen_has : (n : CStr) → any (streq n) ctx.seen ≡ name n

collect_pkg_shlibs-Holds :
    (ctx : ShlibCtx) (p : Pkg)
    → HasNames p
    → (after : ShlibCtx) × (collect_pkg_shlibs ctx p ≡ ok after)
      × Holds after
          (λ l. shlib_entry_find ctx.entries l || joins p && provides_lib l p)
          (λ n. any (streq n) ctx.seen || decides n p)
unfolding collect_pkg_shlibs joins provides_lib decides any
collect_pkg_shlibs-Holds ctx p h = elim (Bool-cases (pkg_type p same_trans hold)) [
  | inl e ↦ (
    ctx,
    ground (arith, e),
    record { entries_have = λ l. ground (arith, e); seen_has = λ n. ground (arith, e) },
  )
  | inr e ↦ elim (Bool-cases (pkg_type p same_trans remove)) [
    | inl r ↦
        let g = h.has_name in
        (
          record ctx { seen = h.name ∷ ctx.seen },
          ground (arith, e, r, g),
          record { entries_have = λ l. ground (arith, e, r); seen_has = λ n. ground (arith, e, g) },
        )
    | inr r ↦
        let g = h.has_name in
        (
          record {
            entries = collect_shlib_array ctx.entries (libs p.shlib_provides);
            seen = h.name ∷ ctx.seen;
          },
          ground (arith, e, r, g),
          record {
            entries_have = λ l.
                let c = collect_shlib_array-find ctx.entries (libs p.shlib_provides) l in
                ground (arith, e, r, c);
            seen_has = λ n. ground (arith, e, g);
          },
        )
  ]
]

collect_pkgs-Holds :
    (ctx : ShlibCtx) (pkgs : List Pkg)
    → All HasNames pkgs
    → (after : ShlibCtx) × (collect_pkgs ctx pkgs ≡ ok after)
      × Holds after
          (λ l. shlib_entry_find ctx.entries l || any (λ p. joins p && provides_lib l p) pkgs)
          (λ n. any (streq n) ctx.seen || any (decides n) pkgs)
unfolding collect_pkgs any
collect_pkgs-Holds ctx [] h =
    (ctx, refl, record { entries_have = λ l. ground arith; seen_has = λ n. ground arith })
collect_pkgs-Holds ctx (p ∷ pkgs) h =
    let (mid, runs, f) = collect_pkg_shlibs-Holds ctx p h.0 in
    let (after, runs', g) = collect_pkgs-Holds mid pkgs h.1 in
    (
      after,
      ground (arith, runs, runs'),
      record {
        entries_have =
            λ l. let a = f.entries_have l in let b = g.entries_have l in ground (arith, a, b);
        seen_has = λ n. let a = f.seen_has n in let b = g.seen_has n in ground (arith, a, b);
      },
    )

-- `seen` has the names that the transaction decides on.
abbrev pub Decided : List CStr → List Pkg → Type 0
Decided seen pkgs = (n : CStr) → any (streq n) seen ≡ any (decides n) pkgs

pub passed_over-stays :
    (seen : List CStr) (pkgs : List Pkg)
    → Decided seen pkgs
    → (obj : Installed) → passed_over seen obj.key ≡ not (stays pkgs obj)
unfolding passed_over stays
passed_over-stays seen pkgs same obj = let e = same obj.key in ground (arith, e)

collect_installed_shlibs-seen :
    (ctx : ShlibCtx) (obj : Installed) → (collect_installed_shlibs ctx obj).seen ≡ ctx.seen
unfolding collect_installed_shlibs
collect_installed_shlibs-seen ctx obj = ground arith

collect_installed_shlibs-find :
    (ctx : ShlibCtx) (pkgs : List Pkg)
    → Decided ctx.seen pkgs
    → (obj : Installed) (l : CStr)
    → shlib_entry_find (collect_installed_shlibs ctx obj).entries l
      ≡ (shlib_entry_find ctx.entries l || stays pkgs obj && provides_lib l obj.pkgd)
unfolding collect_installed_shlibs provides_lib
collect_installed_shlibs-find ctx pkgs same obj l =
    let e = passed_over-stays ctx.seen pkgs same obj in
    let c = collect_shlib_array-find ctx.entries (libs obj.pkgd.shlib_provides) l in
    ground (arith, e, c)

collect_pkgdb-find :
    (ctx : ShlibCtx) (pkgs : List Pkg)
    → Decided ctx.seen pkgs
    → (pkgdb : List Installed)
    → ((collect_pkgdb ctx pkgdb).seen ≡ ctx.seen)
      × ((l : CStr)
          → shlib_entry_find (collect_pkgdb ctx pkgdb).entries l ≡ (
              shlib_entry_find ctx.entries l
              || any (λ obj. stays pkgs obj && provides_lib l obj.pkgd) pkgdb))
unfolding collect_pkgdb any
collect_pkgdb-find ctx pkgs same [] = (refl, λ l. ground arith)
collect_pkgdb-find ctx pkgs same (obj ∷ pkgdb) =
    let e = collect_installed_shlibs-seen ctx obj in
    let mid = collect_installed_shlibs ctx obj in
    let (seen_is, has) = collect_pkgdb-find mid pkgs (λ n. ap (any (streq n)) e ∙ same n) pkgdb in
    (
      seen_is ∙ e,
      λ l.
          let a = has l in
          let b = collect_installed_shlibs-find ctx pkgs same obj l in ground (arith, a, b),
    )

-- collect_shlibs gathers the libraries of the resulting system.
pub collect_shlibs-provided :
    (pkgdb : List Installed) (pkgs : List Pkg)
    → All HasNames pkgs
    → (ctx : ShlibCtx) × (collect_shlibs pkgdb pkgs ≡ ok ctx)
      × (shlib_entry_find ctx.entries ≡ provided pkgdb pkgs)
      × Decided ctx.seen pkgs
unfolding collect_shlibs provided any shlib_entry_find
collect_shlibs-provided pkgdb pkgs h =
    let (ctx, runs, f) = collect_pkgs-Holds (record { entries = []; seen = [] }) pkgs h in
    let (seen_is, has) = collect_pkgdb-find ctx pkgs f.seen_has pkgdb in
    (
      collect_pkgdb ctx pkgdb,
      ground (arith, runs),
      fun_ext (λ l. let a = has l in let b = f.entries_have l in ground (arith, a, b)),
      λ n. ap (any (streq n)) seen_is ∙ f.seen_has n,
    )
