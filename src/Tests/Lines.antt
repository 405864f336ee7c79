-- ===== src/Tests/Lines.antt =====
-- Lines of a configuration file: lib/conf.c.
use xbps.Common.{
  ℕ, Bool, true, false, Option, none, some, List, [], ◌∷◌, ◌++◌, ◌≡◌, refl, ap, subst, CStr, codes,
  length, has_prefix, In, here, there, nil, cons, arith, inl, inr, Bool-cases, if◌then◌else◌,
}
use xbps.Config.{Key, key_cachedir, key_architecture, key_repository, key_text, parse_option}
use xbps.Config.Keys.{all_keys, In-all_keys}
use xbps.Config.Written.{IsSearch, IsValue, written, parse_option-written}

-- A search that finds the first of the keys.
unfoldable first_of : List Key → CStr → Option Key
first_of [] word = none
first_of (k ∷ ks) word = if has_prefix word (key_text k) then some k else first_of ks word

abbrev first_key : CStr → Option Key
first_key word = first_of all_keys word

first_of-found :
    (ks : List Key) (word : CStr) (key : Key)
    → first_of ks word ≡ some key
    → has_prefix word (key_text key) ≡ true
unfolding first_of
first_of-found [] word key h = absurd (cc)
first_of-found (k ∷ ks) word key h = elim (Bool-cases (has_prefix word (key_text k))) [
  | inl t ↦
      let same : k ≡ key = ground (arith, h, t) in
      subst (λ k. has_prefix word (key_text k) ≡ true) same t
  | inr f ↦ first_of-found ks word key (ground (arith, h, f))
]

first_of-missing :
    (ks : List Key) (word : CStr) (key : Key)
    → In key ks
    → first_of ks word ≡ none
    → has_prefix word (key_text key) ≡ false
unfolding first_of
first_of-missing [] word key i h = elim i [ ]
first_of-missing (_ ∷ ks) word key here h = elim (Bool-cases (has_prefix word (key_text key))) [
  | inl t ↦ absurd (ground (arith, h, t))
  | inr f ↦ f
]
first_of-missing (k ∷ ks) word key (there i) h = elim (Bool-cases (has_prefix word (key_text k))) [
  | inl t ↦ absurd (ground (arith, h, t))
  | inr f ↦ first_of-missing ks word key i (ground (arith, h, f))
]

first_key-IsSearch : IsSearch first_key
first_key-IsSearch = record {
  found = λ word key h. first_of-found all_keys word key h;
  missing = λ word key h. first_of-missing all_keys word key (In-all_keys key) h;
}

-- The beginning of a key is taken for the key.
short_key :
    parse_option first_key (codes "arch=x86_64") [] 11 ≡ some (key_architecture, codes "x86_64")
unfolding parse_option xbps.Config.split_key xbps.Config.is_delimiter xbps.Config.is_blank
    xbps.Config.eat_blanks xbps.Config.eat_trailing xbps.Config.until_nul first_of has_prefix
    key_text
short_key = refl

shorter_key :
    parse_option first_key (codes "cache=/tmp dir") [] 14 ≡ some (key_cachedir, codes "/tmp dir")
unfolding parse_option xbps.Config.split_key xbps.Config.is_delimiter xbps.Config.is_blank
    xbps.Config.eat_blanks xbps.Config.eat_trailing xbps.Config.until_nul first_of has_prefix
    key_text
shorter_key = refl

-- The line ` cachedir=/x `: its length counts the blank in front, and the one behind stays.
indented : parse_option first_key (codes "cachedir=/x ") [] 13 ≡ some (key_cachedir, codes "/x ")
unfolding parse_option xbps.Config.split_key xbps.Config.is_delimiter xbps.Config.is_blank
    xbps.Config.eat_blanks xbps.Config.eat_trailing xbps.Config.until_nul first_of has_prefix
    key_text
indented = refl

abbrev sample : CStr
sample = codes "/x y"

sample-IsValue : IsValue sample
unfolding xbps.Config.is_blank xbps.Config.Trim.blank_last
sample-IsValue = record {
  first = refl;
  last = refl;
  no_nul =
      cons (λ e. absurd (omega arith))
        (cons (λ e. absurd (omega arith))
          (cons (λ e. absurd (omega arith)) (cons (λ e. absurd (omega arith)) nil)));
}

parse_option-written_example :
    parse_option first_key
      (written key_repository (codes " ") (codes " ") sample (codes " "))
      []
      (length (written key_repository (codes " ") (codes " ") sample (codes " ")))
    ≡ some (key_repository, sample)
unfolding xbps.Config.is_blank xbps.Common.any
parse_option-written_example =
    parse_option-written first_key first_key-IsSearch key_repository (codes " ") (codes " ") sample
      (codes " ") [] refl refl refl sample-IsValue
