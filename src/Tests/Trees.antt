-- ===== src/Tests/Trees.antt =====
-- Packages that need each other: lib/package_fulldeptree.c.
use xbps.Common.{
  Bool, true, false, Option, none, some, List, [], ◌∷◌, ◌≡◌, ◌≢◌, ◌↔◌, refl, sym, ap, ◌∙◌, map,
  CStr, codes, Run, ret, In, here, there, arith, subst, streq, streq_iff, with_default, pos,
}
use mathlib.Core.Option.{some-injective}
use xbps.Versions.{Versions}
use xbps.Pkg.{Pkg, Installed}
use xbps.Revdeps.{dep_name}
use xbps.Walks.{done, Reaches}
use xbps.Fulldeptree.{find_installed, pkgdb_get_pkg_fulldeptree}
use xbps.Fulldeptree.Needs.{IsAsked, IsSane, IsFull}
use xbps.Fulldeptree.Exact.{pkgdb_get_pkg_fulldeptree-IsFull}
use xbps.Orphans.Recursive.{users_packages}
use xbps.Orphans.Rounds.{find_user_orphans}
use xbps.Orphans.Listed.{IsPkgver, listed}
use xbps.Orphans.Removable.{IsRemovable}
use xbps.Orphans.Removed.{IsConsistent, find_user_orphans-IsRemovable}
use xbps.Revdeps.{generate_full_revdeps_tree}
use xbps.Virtual.{pkgdb_get_pkg}
use xbps.Tests.Orphanage.{entry}

-- Every version satisfies a pattern.
abbrev pub any_version : Versions
any_version = record { fnmatch = streq; dewey_match = λ pattern pkg. pos 1; cmpver = λ a b. pos 0 }

-- `tool` needs `app`, which needs `lib`.
abbrev pub tool : Installed
tool = entry (codes "tool") (codes "tool-3_1") false (codes "app>=0" ∷ []) []

abbrev pub app : Installed
app = entry (codes "app") (codes "app-1_1") true (codes "lib>=0" ∷ []) []

abbrev pub lib : Installed
lib = entry (codes "lib") (codes "lib-2_1") true [] []

abbrev pub chain_db : List Installed
chain_db = tool ∷ app ∷ lib ∷ []

abbrev dictionaries : List Pkg
dictionaries = map (λ o. o.pkgd) chain_db

abbrev find : CStr → Run (Option Pkg)
find = find_installed any_version [] chain_db

tool_found : find (codes "tool") ≡ ret (some tool.pkgd)
unfolding find_installed xbps.Dict.find_pkg_in_dict xbps.Util.Pattern.pkgpattern_version
    xbps.Common.strpbrk xbps.Common.in_set xbps.Util.Pkgver.pkg_version xbps.Common.strrchr streq
tool_found = refl

app_found : find (codes "app>=0") ≡ ret (some app.pkgd)
unfolding find_installed xbps.Dict.find_pkg_in_dict xbps.Util.Pattern.pkgpattern_version
    xbps.Common.strpbrk xbps.Common.in_set xbps.Util.Pattern.pkgpattern_name
    xbps.Util.Pattern.pattern_name_at streq xbps.Util.Pattern.pkgpattern_match
app_found = refl

lib_found : find (codes "lib>=0") ≡ ret (some lib.pkgd)
unfolding find_installed xbps.Dict.find_pkg_in_dict xbps.Util.Pattern.pkgpattern_version
    xbps.Common.strpbrk xbps.Common.in_set xbps.Util.Pattern.pkgpattern_name
    xbps.Util.Pattern.pattern_name_at streq xbps.Util.Pattern.pkgpattern_match
lib_found = refl

app_named : dep_name (codes "app>=0") ≡ some (codes "app")
unfolding dep_name xbps.Util.Pattern.pkgpattern_name xbps.Common.strpbrk xbps.Common.in_set
    xbps.Util.Pattern.pattern_name_at
app_named = refl

lib_named : dep_name (codes "lib>=0") ≡ some (codes "lib")
unfolding dep_name xbps.Util.Pattern.pkgpattern_name xbps.Common.strpbrk xbps.Common.in_set
    xbps.Util.Pattern.pattern_name_at
lib_named = refl

tree :
    pkgdb_get_pkg_fulldeptree any_version [] chain_db (codes "tool")
    ≡ done (some (codes "app-1_1" ∷ codes "lib-2_1" ∷ []))
unfolding pkgdb_get_pkg_fulldeptree xbps.Fulldeptree.get_pkg_fulldeptree find_installed
    xbps.Dict.find_pkg_in_dict xbps.Util.Pattern.pkgpattern_version xbps.Common.strpbrk
    xbps.Common.in_set xbps.Util.Pkgver.pkg_version xbps.Common.strrchr streq
    xbps.Fulldeptree.ordered_depends xbps.Common.find_key xbps.Fulldeptree.for_each
    xbps.Fulldeptree.one_depend xbps.Util.Pattern.pkgpattern_name xbps.Util.Pattern.pattern_name_at
    xbps.Util.Pattern.pkgpattern_match xbps.Common.set_key xbps.Fulldeptree.add_depn
    xbps.Fulldeptree.add_deps_recursive xbps.Fulldeptree.found_depend xbps.Fulldeptree.is_provided
    xbps.Match.match_string_in_array dep_name xbps.Match.probe
tree = refl

not_installed : pkgdb_get_pkg_fulldeptree any_version [] chain_db (codes "foo") ≡ done none
unfolding pkgdb_get_pkg_fulldeptree xbps.Fulldeptree.get_pkg_fulldeptree find_installed
    xbps.Dict.find_pkg_in_dict xbps.Util.Pattern.pkgpattern_version xbps.Common.strpbrk
    xbps.Common.in_set xbps.Util.Pkgver.pkg_version xbps.Common.strrchr streq
    xbps.Virtual.find_virtualpkg_in_dict xbps.Virtual.vpkg_user_conf xbps.Virtual.providers_of
    xbps.Match.match_virtual_pkg_in_dict
not_installed = refl

of_db :
    (P : Pkg → Type 0) → P tool.pkgd → P app.pkgd → P lib.pkgd → (p : Pkg) → In p dictionaries → P p
of_db P t a l _ here = t
of_db P t a l _ (there here) = a
of_db P t a l _ (there (there here)) = l
of_db P t a l p (there (there (there i))) = elim i [ ]

asked :
    (P : CStr → Type 0)
    → P (codes "app>=0")
    → P (codes "lib>=0")
    → (dep : CStr) → IsAsked any_version find dictionaries dep
    → P dep
asked P a l dep (p, i, d) =
    of_db (λ p. In dep (with_default [] p.run_depends) → P dep) (only a) (only l) (λ d. elim d [ ])
      p i d
  where
    only : {s : CStr} → P s → In dep (s ∷ []) → P dep
    only x here = x
    only x (there i) = elim i [ ]

apart : {p q : Pkg} {a b n : CStr} → streq a b ≡ false → some a ≡ some n → some b ≡ some n → p ≡ q
apart {a = a} {b = b} d e f = absurd (
    let x = some-injective _ _ e in
    let y = some-injective _ _ f in let z = (streq_iff a b).1 (x ∙ sym y) in cc)

chain_db-IsSane : IsSane any_version find dictionaries
unfolding streq
chain_db-IsSane = record {
  whole =
      of_db (λ p. (n ver : CStr) × (p.pkgname ≡ some n) × (p.pkgver ≡ some ver)) (_, _, refl, refl)
        (_, _, refl, refl) (_, _, refl, refl);
  unique = λ p q n i j.
      of_db (λ p. p.pkgname ≡ some n → q.pkgname ≡ some n → p ≡ q)
        (of_db (λ q. some (codes "tool") ≡ some n → q.pkgname ≡ some n → tool.pkgd ≡ q)
          (λ e f. refl) (apart refl) (apart refl) q j)
        (of_db (λ q. some (codes "app") ≡ some n → q.pkgname ≡ some n → app.pkgd ≡ q) (apart refl)
          (λ e f. refl) (apart refl) q j)
        (of_db (λ q. some (codes "lib") ≡ some n → q.pkgname ≡ some n → lib.pkgd ≡ q) (apart refl)
          (apart refl) (λ e f. refl) q j)
        p i;
  named = asked (λ dep. (n : CStr) × (dep_name dep ≡ some n)) (_, app_named) (_, lib_named);
  searched = asked (λ dep. (o : Option Pkg) × (find dep ≡ ret o)) (_, app_found) (_, lib_found);
  in_db = λ dep q a.
      asked (λ dep. find dep ≡ ret (some q) → In q dictionaries)
        (λ e. subst (λ q. In q dictionaries) (ground (arith, app_found, e)) (there here))
        (λ e. subst (λ q. In q dictionaries) (ground (arith, lib_found, e)) (there (there here)))
        dep a;
  by_name = λ dep n p q a.
      asked
        (λ dep.
          find dep ≡ ret (some q)
          → dep_name dep ≡ some n
          → In p dictionaries
          → p.pkgname ≡ some n
          → p ≡ q)
        (λ e f i.
          let same : app.pkgd ≡ q = ground (arith, app_found, e) in
          let m = sym app_named ∙ f in
          of_db (λ p. p.pkgname ≡ some n → p ≡ q) (λ g. apart refl g m) (λ g. same)
            (λ g. apart refl g m) p i)
        (λ e f i.
          let same : lib.pkgd ≡ q = ground (arith, lib_found, e) in
          let m = sym lib_named ∙ f in
          of_db (λ p. p.pkgname ≡ some n → p ≡ q) (λ g. apart refl g m) (λ g. apart refl g m)
            (λ g. same) p i)
        dep a;
}

pkgdb_get_pkg_fulldeptree-IsFull_example :
    Reaches
      (λ o. (l : List CStr) × (o ≡ some l) × IsFull any_version find tool.pkgd l)
      (pkgdb_get_pkg_fulldeptree any_version [] chain_db (codes "tool"))
pkgdb_get_pkg_fulldeptree-IsFull_example =
    pkgdb_get_pkg_fulldeptree-IsFull any_version [] chain_db (codes "tool") tool.pkgd
      chain_db-IsSane tool_found here

abbrev pub table : List (CStr × List CStr)
table = (codes "app", codes "tool-3_1" ∷ []) ∷ (codes "lib", codes "app-1_1" ∷ []) ∷ []

built : generate_full_revdeps_tree any_version [] chain_db ≡ ret table
unfolding generate_full_revdeps_tree xbps.Util.Pattern.pkgpattern_name xbps.Common.strpbrk
    xbps.Common.in_set xbps.Util.Pattern.pattern_name_at xbps.Virtual.vpkg_user_conf
    xbps.Virtual.providers_of streq xbps.Util.Pkgver.pkg_name xbps.Common.strrchr
    xbps.Virtual.first_provider xbps.Util.Pkgver.pkg_version xbps.Match.match_string_in_array
    dep_name
built = refl

tool_ver : IsPkgver (codes "tool-3_1")
unfolding xbps.Util.Pattern.pkgpattern_version xbps.Common.strpbrk xbps.Common.in_set
    xbps.Util.Pkgver.pkg_version xbps.Common.strrchr xbps.Util.Pkgver.version_loop
    xbps.Common.is_digit xbps.Common.strchr xbps.Util.Pkgver.is_revision
    xbps.Util.Pkgver.is_revision_rest
tool_ver = record { no_pattern = refl; version = codes "3_1"; has_version = refl }

app_ver : IsPkgver (codes "app-1_1")
unfolding xbps.Util.Pattern.pkgpattern_version xbps.Common.strpbrk xbps.Common.in_set
    xbps.Util.Pkgver.pkg_version xbps.Common.strrchr xbps.Util.Pkgver.version_loop
    xbps.Common.is_digit xbps.Common.strchr xbps.Util.Pkgver.is_revision
    xbps.Util.Pkgver.is_revision_rest
app_ver = record { no_pattern = refl; version = codes "1_1"; has_version = refl }

lib_ver : IsPkgver (codes "lib-2_1")
unfolding xbps.Util.Pattern.pkgpattern_version xbps.Common.strpbrk xbps.Common.in_set
    xbps.Util.Pkgver.pkg_version xbps.Common.strrchr xbps.Util.Pkgver.version_loop
    xbps.Common.is_digit xbps.Common.strchr xbps.Util.Pkgver.is_revision
    xbps.Util.Pkgver.is_revision_rest
lib_ver = record { no_pattern = refl; version = codes "2_1"; has_version = refl }

tool_by_ver : pkgdb_get_pkg any_version chain_db (codes "tool-3_1") ≡ some tool
unfolding xbps.Dict.find_pkg_in_dict xbps.Util.Pattern.pkgpattern_version xbps.Common.strpbrk
    xbps.Common.in_set xbps.Util.Pkgver.pkg_version xbps.Common.strrchr
    xbps.Util.Pkgver.version_loop xbps.Common.is_digit xbps.Common.strchr
    xbps.Util.Pkgver.is_revision xbps.Util.Pkgver.is_revision_rest xbps.Dict.match_pkg_by_pkgver
    xbps.Util.Pkgver.pkg_name xbps.Util.Pkgver.name_loop xbps.Dict.dict_get streq
tool_by_ver = refl

app_by_ver : pkgdb_get_pkg any_version chain_db (codes "app-1_1") ≡ some app
unfolding xbps.Dict.find_pkg_in_dict xbps.Util.Pattern.pkgpattern_version xbps.Common.strpbrk
    xbps.Common.in_set xbps.Util.Pkgver.pkg_version xbps.Common.strrchr
    xbps.Util.Pkgver.version_loop xbps.Common.is_digit xbps.Common.strchr
    xbps.Util.Pkgver.is_revision xbps.Util.Pkgver.is_revision_rest xbps.Dict.match_pkg_by_pkgver
    xbps.Util.Pkgver.pkg_name xbps.Util.Pkgver.name_loop xbps.Dict.dict_get streq
app_by_ver = refl

lib_by_ver : pkgdb_get_pkg any_version chain_db (codes "lib-2_1") ≡ some lib
unfolding xbps.Dict.find_pkg_in_dict xbps.Util.Pattern.pkgpattern_version xbps.Common.strpbrk
    xbps.Common.in_set xbps.Util.Pkgver.pkg_version xbps.Common.strrchr
    xbps.Util.Pkgver.version_loop xbps.Common.is_digit xbps.Common.strchr
    xbps.Util.Pkgver.is_revision xbps.Util.Pkgver.is_revision_rest xbps.Dict.match_pkg_by_pkgver
    xbps.Util.Pkgver.pkg_name xbps.Util.Pkgver.name_loop xbps.Dict.dict_get streq
lib_by_ver = refl

of_entries :
    (P : Installed → CStr → Type 0)
    → P tool (codes "tool-3_1")
    → P app (codes "app-1_1")
    → P lib (codes "lib-2_1")
    → (obj : Installed) (ver : CStr) → In obj chain_db
    → obj.pkgd.pkgver ≡ some ver
    → P obj ver
of_entries P t a l _ ver here e = subst (P tool) (some-injective _ _ e) t
of_entries P t a l _ ver (there here) e = subst (P app) (some-injective _ _ e) a
of_entries P t a l _ ver (there (there here)) e = subst (P lib) (some-injective _ _ e) l
of_entries P t a l obj ver (there (there (there i))) e = elim i [ ]

chain_db-IsConsistent : IsConsistent any_version [] chain_db
chain_db-IsConsistent = record {
  sane = chain_db-IsSane;
  versions = record {
    of_db =
        λ obj i ver e. of_entries (λ obj ver. IsPkgver ver) tool_ver app_ver lib_ver obj ver i e;
  };
  by_pkgver =
      of_entries (λ obj ver. pkgdb_get_pkg any_version chain_db ver ≡ some obj) tool_by_ver
        app_by_ver lib_by_ver;
}

find_user_orphans-IsRemovable_example :
    Reaches
      (λ array.
        ((p : Pkg) → In p (users_packages any_version chain_db (codes "tool" ∷ [])) → In p array)
        × ((s : CStr)
            → listed array s ≡ true
            → IsRemovable any_version [] chain_db table (codes "tool" ∷ []) s))
      (find_user_orphans any_version [] chain_db table (codes "tool" ∷ []))
find_user_orphans-IsRemovable_example =
    find_user_orphans-IsRemovable any_version [] chain_db table (codes "tool" ∷ [])
      chain_db-IsConsistent built
