-- ===== src/Config/Keys.antt =====
-- The keys of lib/conf.c are told apart by any beginning that is a whole key.
use xbps.Common.{
  ℕ, zero, suc, Bool, true, false, not, ◌&&◌, Option, none, some, List, [], ◌∷◌, ◌≡◌, refl, ap, inl,
  inr, ◌==◌, ==_iff, CStr, has_prefix, any, In, here, there, arith, Bool-cases,
}
use xbps.Match.FirstHit.{In-any}
use xbps.Config.{
  Key, key_architecture, key_bestmatching, key_cachedir, key_ignorepkg, key_include, key_keepconf,
  key_noextract, key_preserve, key_repository, key_rootdir, key_staging, key_syslog, key_virtualpkg,
  key_text, is_blank, is_delimiter,
}

-- No key is the beginning of another one.
abbrev pub all_keys : List Key
all_keys =
    key_architecture ∷ key_bestmatching ∷ key_cachedir ∷ key_ignorepkg ∷ key_include ∷ key_keepconf
    ∷ key_noextract ∷ key_preserve ∷ key_repository ∷ key_rootdir ∷ key_staging ∷ key_syslog
    ∷ key_virtualpkg ∷ []

abbrev number : Key → ℕ
number key_architecture = 0
number key_bestmatching = 1
number key_cachedir = 2
number key_ignorepkg = 3
number key_include = 4
number key_keepconf = 5
number key_noextract = 6
number key_preserve = 7
number key_repository = 8
number key_rootdir = 9
number key_staging = 10
number key_syslog = 11
number key_virtualpkg = 12

abbrev key_at : ℕ → List Key → Option Key
key_at zero (k ∷ ks) = some k
key_at (suc n) (k ∷ ks) = key_at n ks
key_at n [] = none

key_at-number : (k : Key) → key_at (number k) all_keys ≡ some k
key_at-number key_architecture = refl
key_at-number key_bestmatching = refl
key_at-number key_cachedir = refl
key_at-number key_ignorepkg = refl
key_at-number key_include = refl
key_at-number key_keepconf = refl
key_at-number key_noextract = refl
key_at-number key_preserve = refl
key_at-number key_repository = refl
key_at-number key_rootdir = refl
key_at-number key_staging = refl
key_at-number key_syslog = refl
key_at-number key_virtualpkg = refl

pub In-all_keys : (k : Key) → In k all_keys
In-all_keys key_architecture = here
In-all_keys key_bestmatching = there (here)
In-all_keys key_cachedir = there (there (here))
In-all_keys key_ignorepkg = there (there (there (here)))
In-all_keys key_include = there (there (there (there (here))))
In-all_keys key_keepconf = there (there (there (there (there (here)))))
In-all_keys key_noextract = there (there (there (there (there (there (here))))))
In-all_keys key_preserve = there (there (there (there (there (there (there (here)))))))
In-all_keys key_repository = there (there (there (there (there (there (there (there (here))))))))
In-all_keys key_rootdir =
    there (there (there (there (there (there (there (there (there (here)))))))))
In-all_keys key_staging =
    there (there (there (there (there (there (there (there (there (there (here))))))))))
In-all_keys key_syslog =
    there (there (there (there (there (there (there (there (there (there (there (here)))))))))))
In-all_keys key_virtualpkg =
    there
      (there (there (there (there (there (there (there (there (there (there (there (here))))))))))))

pub clean_key : (k : Key) → any is_delimiter (key_text k) ≡ false
unfolding any is_delimiter is_blank key_text
clean_key key_architecture = refl
clean_key key_bestmatching = refl
clean_key key_cachedir = refl
clean_key key_ignorepkg = refl
clean_key key_include = refl
clean_key key_keepconf = refl
clean_key key_noextract = refl
clean_key key_preserve = refl
clean_key key_repository = refl
clean_key key_rootdir = refl
clean_key key_staging = refl
clean_key key_syslog = refl
clean_key key_virtualpkg = refl

abbrev overlaps : Key → Key → Bool
overlaps k k' = has_prefix (key_text k) (key_text k') && not (number k == number k')

no_overlap : any (λ k. any (overlaps k) all_keys) all_keys ≡ false
unfolding any has_prefix key_text
no_overlap = refl

pub prefix_key : (k k' : Key) → has_prefix (key_text k) (key_text k') ≡ true → k' ≡ k
prefix_key k k' h = elim (Bool-cases (number k == number k')) [
  | inl t ↦
      let same = (==_iff (number k) (number k')).0 t in
      let a = key_at-number k in
      let b = key_at-number k' in ground (arith, a, b, ap (λ n. key_at n all_keys) same)
  | inr f ↦
      let one = In-any (overlaps k) (In-all_keys k') (ground (arith, h, f)) in
      let all = In-any (λ k. any (overlaps k) all_keys) (In-all_keys k) one in
      absurd (ground (arith, all, no_overlap))
]

pub own_prefix : (s : CStr) → has_prefix s s ≡ true
unfolding has_prefix
own_prefix [] = refl
own_prefix (c ∷ s) =
    let again = own_prefix s in let same = (==_iff c c).1 refl in ground (arith, again, same)
