-- ===== src/Config/Trim.antt =====
-- What the loops of parse_option in lib/conf.c leave of a line.
use xbps.Common.{
  ℕ, ◌-◌, ◌≤◌, Bool, true, false, not, some, [], ◌∷◌, ◌++◌, ◌≡◌, refl, sym, subst, inl, inr, CStr,
  length, take, take-append, any, Free, cons, arith, Bool-cases,
}
use xbps.Config.{is_blank, is_delimiter, split_key, eat_blanks, eat_trailing, until_nul}

abbrev pub all_blank : CStr → Bool
all_blank s = not (any (λ c. not (is_blank c)) s)

abbrev pub blank_first : CStr → Bool
blank_first [] = false
blank_first (c ∷ s) = is_blank c

unfoldable pub blank_last : CStr → Bool
blank_last [] = false
blank_last (c ∷ s) = let rest = blank_last s in elim s [ [] ↦ is_blank c | d ∷ r ↦ rest ]

split_key-append :
    (key : CStr) (d : ℕ) (rest : CStr)
    → any is_delimiter key ≡ false
    → is_delimiter d ≡ true
    → split_key (key ++ d ∷ rest) ≡ some (key, d ∷ rest)
unfolding split_key any
split_key-append [] d rest clean e = ground (arith, e)
split_key-append (c ∷ key) d rest clean e =
    let f : is_delimiter c ≡ false = ground (arith, clean) in
    let again = split_key-append key d rest (ground (arith, clean, f)) e in ground (arith, f, again)

pub eat_blanks-append : (b s : CStr) → all_blank b ≡ true → eat_blanks (b ++ s) ≡ eat_blanks s
unfolding eat_blanks any
eat_blanks-append [] s h = refl
eat_blanks-append (c ∷ b) s h = elim (Bool-cases (is_blank c)) [
  | inl t ↦ let again = eat_blanks-append b s (ground (arith, h, t)) in ground (arith, t, again)
  | inr f ↦ absurd (ground (arith, h, f))
]

pub eat_blanks-length : (s : CStr) → length (eat_blanks s) ≤ length s
unfolding eat_blanks
eat_blanks-length [] = omega arith
eat_blanks-length (c ∷ s) = ground (arith, eat_blanks-length s)

eat_trailing-blank : (b : CStr) → all_blank b ≡ true → eat_trailing b ≡ []
unfolding eat_trailing any
eat_trailing-blank [] h = refl
eat_trailing-blank (c ∷ b) h = elim (Bool-cases (is_blank c)) [
  | inl t ↦ let again = eat_trailing-blank b (ground (arith, h, t)) in ground (arith, t, again)
  | inr f ↦ absurd (ground (arith, h, f))
]

pub eat_trailing-append : (s b : CStr) → all_blank b ≡ true → eat_trailing (s ++ b) ≡ eat_trailing s
unfolding eat_trailing
eat_trailing-append [] b h = eat_trailing-blank b h
eat_trailing-append (c ∷ s) b h = rw (eat_trailing-append s b h) refl

pub eat_trailing-value : (s : CStr) → blank_last s ≡ false → eat_trailing s ≡ s
unfolding eat_trailing blank_last
eat_trailing-value [] h = refl
eat_trailing-value (c ∷ []) h = ground (arith, h)
eat_trailing-value (c ∷ d ∷ s) h = let again = eat_trailing-value (d ∷ s) h in ground (arith, again)

pub until_nul-Free : (s : CStr) → Free 0 s → until_nul s ≡ s
unfolding until_nul
until_nul-Free [] f = refl
until_nul-Free (c ∷ s) (cons h f) = let again = until_nul-Free s f in ground (arith, h, again)

pub split_key-written :
    (key b1 q : CStr)
    → any is_delimiter key ≡ false
    → all_blank b1 ≡ true
    → split_key (key ++ (b1 ++ 61 ∷ q)) ≡ some (key, b1 ++ 61 ∷ q)
unfolding is_delimiter is_blank any
split_key-written key [] q clean h = split_key-append key 61 q clean refl
split_key-written key (c ∷ b1) q clean h =
    split_key-append key c (b1 ++ 61 ∷ q) clean (elim (Bool-cases (is_blank c)) [
      | inl t ↦ ground (arith, t)
      | inr f ↦ absurd (ground (arith, h, f))
    ])

pub eat_blanks-equals : (b1 q : CStr) → all_blank b1 ≡ true → eat_blanks (b1 ++ 61 ∷ q) ≡ 61 ∷ q
unfolding eat_blanks is_blank
eat_blanks-equals b1 q h = eat_blanks-append b1 (61 ∷ q) h

-- The value and the blanks behind it, from its first byte on.
pub eat_blanks-value :
    (value b3 : CStr)
    → blank_first value ≡ false
    → all_blank b3 ≡ true
    → (b : CStr) × (eat_blanks (value ++ b3) ≡ value ++ b) × (all_blank b ≡ true)
unfolding eat_blanks any
eat_blanks-value [] b3 f h = ([], all_gone b3 h, refl)
  where
    all_gone : (b : CStr) → all_blank b ≡ true → eat_blanks b ≡ []
    all_gone [] h = refl
    all_gone (c ∷ b) h = elim (Bool-cases (is_blank c)) [
      | inl t ↦ let again = all_gone b (ground (arith, h, t)) in ground (arith, t, again)
      | inr f ↦ absurd (ground (arith, h, f))
    ]
eat_blanks-value (c ∷ value) b3 f h = (b3, ground (arith, f), h)

pub take-whole :
    (n : ℕ) (p behind : CStr) → length p ≤ n → take (n - (n - length p)) (p ++ behind) ≡ p
take-whole n p behind h =
    let same : n - (n - length p) ≡ length p = omega arith in
    subst (λ m. take m (p ++ behind) ≡ p) (sym same) (take-append p behind)
