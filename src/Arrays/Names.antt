-- ===== src/Arrays/Names.antt =====
-- Arrays of packages in which no name stands twice, and searches by a plain name.
use xbps.Common.{
  false, Option, none, some, List, [], ◌∷◌, ◌≡◌, refl, inl, inr, CStr, streq, streq_iff, streq_refl,
  ret, All, In, here, there, with_default, arith, Bool-cases,
}
use xbps.Util.Pkgver.{pkg_name, pkg_version, name_size}
use xbps.Util.Pattern.{pkgpattern_version}
use xbps.Versions.{Versions}
use xbps.Pkg.{Pkg, unknown}
use xbps.Arrays.{is_wanted, first_wanted, of_type, get_pkg_in_array, find_pkg_in_array}

-- A package with a pkgver, whose name it also has.
pub record IsNamed (p : Pkg) : Type 0 where
  pub ver : CStr
  pub name : CStr
  pub has_ver : p.pkgver ≡ some ver
  pub has_name : p.pkgname ≡ some name
  pub agrees : pkg_name name_size ver ≡ some name

-- A name that is neither a pattern nor a pkgver.
pub record IsPlain (name : CStr) : Type 0 where
  pub no_pattern : pkgpattern_version name ≡ none
  pub no_version : pkg_version name ≡ none

abbrev pub name_of : Pkg → CStr
name_of p = with_default [] p.pkgname

abbrev pub Lacks : CStr → List Pkg → Type 0
Lacks name = All (λ q. streq name (name_of q) ≡ false)

abbrev pub UniqueNames : List Pkg → Type 0
UniqueNames [] = Unit
UniqueNames (p ∷ pkgs) = Lacks (name_of p) pkgs × UniqueNames pkgs

pub record IsQueue (pkgs : List Pkg) : Type 0 where
  pub named : All IsNamed pkgs
  pub unique : UniqueNames pkgs

-- What a search by a plain name finds.
pub data Found (name : CStr) (pkgs : List Pkg) : Option Pkg → Type 0 where
  absent : Lacks name pkgs → Found name pkgs none
  present : {p : Pkg} → In p pkgs → name_of p ≡ name → Found name pkgs (some p)

pub streq_flip : (a b : CStr) → streq b a ≡ false → streq a b ≡ false
streq_flip a b e = elim (Bool-cases (streq a b)) [
  | inl t ↦ absurd (let h = (streq_iff a b).0 t in let r = streq_refl b in ground (arith))
  | inr f ↦ f
]

module _ (v : Versions) {name : CStr} (plain : IsPlain name) where
  is_wanted-name : (p : Pkg) → IsNamed p → is_wanted v name false p ≡ ret (streq (name_of p) name)
  unfolding is_wanted
  is_wanted-name p h = rw (h.has_ver, plain.no_pattern, plain.no_version, h.agrees, h.has_name) refl

  later :
      (p : Pkg) (pkgs : List Pkg) {r : Option Pkg}
      → streq (name_of p) name ≡ false
      → Found name pkgs r
      → Found name (p ∷ pkgs) r
  later p pkgs e (absent l) = absent (streq_flip name (name_of p) e, l)
  later p pkgs e (present i q) = present (there i) q

  first_wanted-Found :
      (pkgs : List Pkg)
      → All IsNamed pkgs
      → (r : Option Pkg) × (first_wanted v pkgs name false ≡ ret r) × Found name pkgs r
  unfolding first_wanted
  first_wanted-Found [] h = (none, refl, absent tt)
  first_wanted-Found (p ∷ pkgs) h = elim (Bool-cases (streq (name_of p) name)) [
    | inl e ↦
        (some p, rw (is_wanted-name p h.0, e) refl, present here ((streq_iff (name_of p) name).0 e))
    | inr e ↦
        let (r, runs, f) = first_wanted-Found pkgs h.1 in
        (r, rw (is_wanted-name p h.0, e) runs, later p pkgs e f)
  ]

  of_type-unknown : (r : Option Pkg) → of_type v unknown r ≡ r
  unfolding of_type
  of_type-unknown none = refl
  of_type-unknown (some p) = refl

  -- A search for a plain name, of any transaction type, in an array of packages with a name that
  -- their pkgver has too never aborts, and finds a package of that name exactly when there is one.
  pub find_pkg_in_array-Found :
      (pkgs : List Pkg)
      → All IsNamed pkgs
      → (r : Option Pkg) × (find_pkg_in_array v pkgs name unknown ≡ ret r) × Found name pkgs r
  unfolding find_pkg_in_array get_pkg_in_array
  find_pkg_in_array-Found pkgs h =
      let (r, runs, f) = first_wanted-Found pkgs h in (r, rw (runs, of_type-unknown r) refl, f)
