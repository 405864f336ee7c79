-- ===== src/Revdeps/Complete.antt =====
-- Which packages the table lists: exactly those that depend.
use xbps.Common.{
  Option, none, some, List, [], ◌∷◌, ◌≡◌, ◌↔◌, refl, sym, ◌⊎◌, inl, inr, subst, CStr, with_default,
  ret, >>=-ret, In, here, there, arith, Option-cases, find_key,
}
use xbps.Versions.{Versions}
use xbps.Pkg.{Installed}
use xbps.Virtual.{Virtuals}
use xbps.Revdeps.{
  dep_name, RevTable, cached, add_revdep, one_dep, all_deps, one_pkg, all_pkgs,
  generate_full_revdeps_tree,
}
use xbps.Revdeps.Table.{array_of, Asks, Asks-unique, CacheOk, cached-Resolves, add_revdep-In}

module _ (v : Versions) (vpkgd : List Virtuals) where
  -- What a part of the loop adds to the table: `D q o` says that the array of `o` gains `q`.
  record Adds (D : CStr → CStr → Type 0) (t t' : RevTable) : Type 0 where
    pub cache_ok : CacheOk v vpkgd t'.vpkg_cache
    pub holds : (q o : CStr) → In q (array_of t'.revdeps o) ↔ (In q (array_of t.revdeps o) ⊎ D q o)

  Adds-map :
      {D E : CStr → CStr → Type 0} {t t' : RevTable}
      → ((q o : CStr) → D q o ↔ E q o)
      → Adds D t t'
      → Adds E t t'
  Adds-map f a = record {
    cache_ok = a.cache_ok;
    holds = λ q o. (
      (λ i. elim ((a.holds q o).0 i) [ inl x ↦ inl x | inr y ↦ inr ((f q o).0 y) ]),
      (λ d. elim d [
        | inl x ↦ (a.holds q o).1 (inl x)
        | inr y ↦ (a.holds q o).1 (inr ((f q o).1 y))
      ]),
    );
  }

  Adds-trans :
      {D E : CStr → CStr → Type 0} {t t1 t2 : RevTable}
      → Adds D t t1
      → Adds E t1 t2
      → Adds (λ q o. D q o ⊎ E q o) t t2
  Adds-trans a b = record {
    cache_ok = b.cache_ok;
    holds = λ q o. (
      (λ i. elim ((b.holds q o).0 i) [
        | inl x ↦ elim ((a.holds q o).0 x) [ inl y ↦ inl y | inr y ↦ inr (inl y) ]
        | inr y ↦ inr (inr y)
      ]),
      (λ d. elim d [
        | inl x ↦ (b.holds q o).1 (inl ((a.holds q o).1 (inl x)))
        | inr y ↦ elim y [
          | inl z ↦ (b.holds q o).1 (inl ((a.holds q o).1 (inr z)))
          | inr z ↦ (b.holds q o).1 (inr z)
        ]
      ]),
    );
  }

  one_dep-Adds :
      (pkgver dep : CStr) (t : RevTable) {t' : RevTable}
      → CacheOk v vpkgd t.vpkg_cache
      → one_dep v vpkgd pkgver t dep ≡ ret t'
      → Adds (λ q o. (q ≡ pkgver) × Asks v vpkgd dep o) t t'
  unfolding one_dep
  one_dep-Adds pkgver dep t {t'} ok h = elim (Option-cases (dep_name dep)) [
    | inl e ↦ absurd (ground (arith, e))
    | inr (n, e) ↦
        let (r, runs, out) = >>=-ret (cached v vpkgd t.vpkg_cache n) _ (rw (e, one_dep) at h) in
        let (ok', resolves) = cached-Resolves v vpkgd t.vpkg_cache n ok runs in
        let ask : Asks v vpkgd dep r.1 = record { name = n; named = e; resolves = resolves } in
        let gains = λ (o q : CStr). add_revdep-In v vpkgd t.revdeps r.1 pkgver o q in
        let t1 : RevTable = record {
          revdeps = add_revdep v vpkgd t.revdeps r.1 pkgver;
          vpkg_cache = r.0;
        } in
        let same : t1 ≡ t' = ground arith in
        subst (λ t'. Adds (λ q o. (q ≡ pkgver) × Asks v vpkgd dep o) t t') same
          (record {
            cache_ok = ok';
            holds = λ q o. (
              (λ i. elim ((gains o q).0 i) [ inl j ↦ inl j | inr (a, b) ↦ inr (a, rw (← b) ask) ]),
              (λ d. elim d [
                | inl j ↦ (gains o q).1 (inl j)
                | inr (a, k) ↦ (gains o q).1 (inr (a, Asks-unique v vpkgd ask k))
              ]),
            );
          })
  ]

  -- Some dependency of the list asks for the package.
  pub AsksFor : List CStr → CStr → Type 0
  AsksFor deps o = (dep : CStr) × In dep deps × Asks v vpkgd dep o

  AsksFor-cons :
      (dep : CStr) (deps : List CStr) (o : CStr)
      → (Asks v vpkgd dep o ⊎ AsksFor deps o) ↔ AsksFor (dep ∷ deps) o
  unfolding AsksFor
  AsksFor-cons dep deps o = (
    (λ d. elim d [ inl a ↦ (dep, here, a) | inr (e, i, a) ↦ (e, there i, a) ]),
    (λ d. back d.1 d.2),
  )
    where
      back : {e : CStr} → In e (dep ∷ deps) → Asks v vpkgd e o → Asks v vpkgd dep o ⊎ AsksFor deps o
      back here a = inl a
      back {e} (there i) a = inr (e, i, a)

  all_deps-Adds :
      (pkgver : CStr) (deps : List CStr) (t : RevTable) {t' : RevTable}
      → CacheOk v vpkgd t.vpkg_cache
      → all_deps v vpkgd pkgver t deps ≡ ret t'
      → Adds (λ q o. (q ≡ pkgver) × AsksFor deps o) t t'
  unfolding all_deps AsksFor
  all_deps-Adds pkgver [] t {t'} ok h =
      let same : t ≡ t' = ground arith in
      subst (λ t'. Adds (λ q o. (q ≡ pkgver) × AsksFor [] o) t t') same
        (record {
          cache_ok = ok;
          holds = λ q o.
              ((λ i. inl i), (λ d. elim d [ inl i ↦ i | inr (a, b) ↦ absurd (elim (b.1) [ ]) ]));
        })
  all_deps-Adds pkgver (dep ∷ deps) t {t'} ok h =
      let (t1, first, later) = >>=-ret (one_dep v vpkgd pkgver t dep) _ h in
      let a = one_dep-Adds pkgver dep t ok first in
      Adds-map
        (λ q o. (
          (λ d. elim d [
            | inl (e, x) ↦ (e, (AsksFor-cons dep deps o).0 (inl x))
            | inr (e, x) ↦ (e, (AsksFor-cons dep deps o).0 (inr x))
          ]),
          (λ d. elim ((AsksFor-cons dep deps o).1 d.1) [
            | inl x ↦ inl (d.0, x)
            | inr x ↦ inr (d.0, x)
          ]),
        ))
        (Adds-trans a (all_deps-Adds pkgver deps t1 a.cache_ok later))

  -- The package of this pkgver depends on the package of this name.
  pub record Depends (obj : Installed) (pkgver name : CStr) : Type 0 where
    pub has_ver : obj.pkgd.pkgver ≡ some pkgver
    pub asks : AsksFor (with_default [] obj.pkgd.run_depends) name

  Adds-nothing :
      {D : CStr → CStr → Type 0} (t : RevTable) {t' : RevTable}
      → CacheOk v vpkgd t.vpkg_cache
      → t ≡ t'
      → ((q o : CStr) → ¬ D q o)
      → Adds D t t'
  Adds-nothing {D} t {t'} ok same none_added =
      subst (λ t'. Adds D t t') same
        (record {
          cache_ok = ok;
          holds = λ q o.
              ((λ i. inl i), (λ d. elim d [ inl i ↦ i | inr x ↦ absurd (none_added q o x) ]));
        })

  AsksFor-nil : (o : CStr) → ¬ AsksFor [] o
  unfolding AsksFor
  AsksFor-nil o (dep, i, a) = elim i [ ]

  one_pkg-Adds :
      (obj : Installed) (t : RevTable) {t' : RevTable}
      → CacheOk v vpkgd t.vpkg_cache
      → one_pkg v vpkgd t obj ≡ ret t'
      → Adds (λ q o. Depends obj q o) t t'
  unfolding one_pkg
  one_pkg-Adds obj t {t'} ok h =
      go (with_default [] obj.pkgd.run_depends) (obj.pkgd.pkgver) refl refl
    where
      go :
          (deps : List CStr) (ver : Option CStr)
          → with_default [] obj.pkgd.run_depends ≡ deps
          → obj.pkgd.pkgver ≡ ver
          → Adds (λ q o. Depends obj q o) t t'
      go [] ver e f =
          Adds-nothing t ok (ground (arith, e))
            (λ q o d. AsksFor-nil o (subst (λ l. AsksFor l o) e d.asks))
      go (dep ∷ deps) none e f = absurd (ground (arith, e, f))
      go (dep ∷ deps) (some pkgver) e f =
          Adds-map
            (λ q o. (
              (λ d. record {
                has_ver = ground (arith, f, d.0);
                asks = subst (λ l. AsksFor l o) (sym e) d.1;
              }),
              (λ d. let w = d.has_ver in (ground (arith, f, w), subst (λ l. AsksFor l o) e d.asks)),
            ))
            (all_deps-Adds pkgver (dep ∷ deps) t ok (ground (arith, e, f)))

  -- Some package of the list has this pkgver and depends on the package of this name.
  unfoldable pub Dependant : List Installed → CStr → CStr → Type 0
  Dependant pkgdb pkgver name = (obj : Installed) × In obj pkgdb × Depends obj pkgver name

  Dependant-nil : (q o : CStr) → ¬ Dependant [] q o
  unfolding Dependant
  Dependant-nil q o (obj, i, d) = elim i [ ]

  Dependant-cons :
      (obj : Installed) (pkgdb : List Installed) (q o : CStr)
      → (Depends obj q o ⊎ Dependant pkgdb q o) ↔ Dependant (obj ∷ pkgdb) q o
  unfolding Dependant
  Dependant-cons obj pkgdb q o = (
    (λ d. elim d [ inl a ↦ (obj, here, a) | inr (e, i, a) ↦ (e, there i, a) ]),
    (λ d. back d.1 d.2),
  )
    where
      back :
          {e : Installed}
          → In e (obj ∷ pkgdb)
          → Depends e q o
          → Depends obj q o ⊎ Dependant pkgdb q o
      back here a = inl a
      back {e} (there i) a = inr (e, i, a)

  all_pkgs-Adds :
      (pkgdb : List Installed) (t : RevTable) {t' : RevTable}
      → CacheOk v vpkgd t.vpkg_cache
      → all_pkgs v vpkgd t pkgdb ≡ ret t'
      → Adds (λ q o. Dependant pkgdb q o) t t'
  unfolding all_pkgs
  all_pkgs-Adds [] t ok h = Adds-nothing t ok (ground arith) (λ q o d. Dependant-nil q o d)
  all_pkgs-Adds (obj ∷ pkgdb) t ok h =
      let (t1, first, later) = >>=-ret (one_pkg v vpkgd t obj) _ h in
      let a = one_pkg-Adds obj t ok first in
      Adds-map (λ q o. Dependant-cons obj pkgdb q o)
        (Adds-trans a (all_pkgs-Adds pkgdb t1 a.cache_ok later))

  -- When the table of reverse dependencies of a package database is built without an abort, the
  -- array of a name in it has a pkgver exactly if some package of the database has this pkgver and
  -- has a dependency that, through the virtual packages of the configuration, stands for this name.
  pub generate_full_revdeps_tree-Dependant :
      (pkgdb : List Installed) {revs : List (CStr × List CStr)} (pkgver name : CStr)
      → generate_full_revdeps_tree v vpkgd pkgdb ≡ ret revs
      → In pkgver (array_of revs name) ↔ Dependant pkgdb pkgver name
  unfolding generate_full_revdeps_tree find_key
  generate_full_revdeps_tree-Dependant pkgdb {revs} pkgver name h =
      let start : RevTable = record { revdeps = []; vpkg_cache = [] } in
      let (t, runs, out) = >>=-ret (all_pkgs v vpkgd start pkgdb) _ h in
      let same : t.revdeps ≡ revs = ground arith in
      let a = all_pkgs-Adds pkgdb start (λ n x e. absurd (ground (arith, e))) runs in
      let (to, from) = a.holds pkgver name in
      (
        (λ i. elim (to (subst (λ r. In pkgver (array_of r name)) (sym same) i)) [
          | inl j ↦ absurd (elim j [ ])
          | inr d ↦ d
        ]),
        (λ d. subst (λ r. In pkgver (array_of r name)) same (from (inr d))),
      )
