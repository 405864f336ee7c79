-- ===== src/Config/Written.antt =====
-- A line that is written with a key, blanks and a value is read back.
use xbps.Common.{
  ℕ, ◌-◌, ◌≤◌, true, false, Option, none, some, ◌∷◌, ◌++◌, ◌≡◌, ap, ◌∙◌, inl, inr, CStr, length,
  length-append, take, has_prefix, Free, arith, Option-cases,
}
use xbps.Config.{Key, key_text, eat_blanks, eat_trailing, until_nul, parse_option}
use xbps.Config.Keys.{clean_key, prefix_key, own_prefix}
use xbps.Config.Trim.{
  all_blank, blank_first, blank_last, split_key-written, eat_blanks-append, eat_blanks-length,
  eat_trailing-append, eat_trailing-value, until_nul-Free, eat_blanks-equals, eat_blanks-value,
  take-whole,
}

-- What bsearch promises: it finds a key that starts with the word, if there is one.
pub record IsSearch (bsearch : CStr → Option Key) : Type 0 where
  pub found :
      (word : CStr) (key : Key) → bsearch word ≡ some key → has_prefix word (key_text key) ≡ true
  pub missing :
      (word : CStr) (key : Key) → bsearch word ≡ none → has_prefix word (key_text key) ≡ false

-- A value that is written as it is.
pub record IsValue (value : CStr) : Type 0 where
  pub first : blank_first value ≡ false
  pub last : blank_last value ≡ false
  pub no_nul : Free 0 value

abbrev pub written : Key → CStr → CStr → CStr → CStr → CStr
written k b1 b2 value b3 = key_text k ++ (b1 ++ 61 ∷ (b2 ++ (value ++ b3)))

value_read :
    (n : ℕ) (b2 value b3 behind : CStr)
    → all_blank b2 ≡ true
    → all_blank b3 ≡ true
    → IsValue value
    → length (eat_blanks (b2 ++ (value ++ b3))) ≤ n
    → until_nul (
        eat_trailing (
          take
            (n - (n - length (eat_blanks (b2 ++ (value ++ b3)))))
            (eat_blanks (b2 ++ (value ++ b3)) ++ 0 ∷ behind)))
      ≡ value
value_read n b2 value b3 behind h2 h3 ok short =
    let (b, e, h) = eat_blanks-value value b3 ok.first h3 in
    let p = eat_blanks-append b2 (value ++ b3) h2 ∙ e in
    ap (λ s. until_nul (eat_trailing s))
      (take-whole n (eat_blanks (b2 ++ (value ++ b3))) (0 ∷ behind) short ∙ p)
    ∙ ap until_nul (eat_trailing-append value b h ∙ eat_trailing-value value ok.last)
    ∙ until_nul-Free value ok.no_nul

-- A line that has a key, blanks, `=`, blanks, a value without NUL that neither starts nor ends with
-- a blank, and blanks, is read as this key with this value, by any search that keeps the promise of
-- bsearch.
pub parse_option-written :
    (bsearch : CStr → Option Key)
    → IsSearch bsearch
    → (k : Key) (b1 b2 value b3 behind : CStr) → all_blank b1 ≡ true
    → all_blank b2 ≡ true
    → all_blank b3 ≡ true
    → IsValue value
    → parse_option bsearch (written k b1 b2 value b3) behind (length (written k b1 b2 value b3))
      ≡ some (k, value)
unfolding parse_option
parse_option-written bsearch promise k b1 b2 value b3 behind h1 h2 h3 ok =
    let q = b2 ++ (value ++ b3) in
    let n = length (written k b1 b2 value b3) in
    let opens = split_key-written (key_text k) b1 q (clean_key k) h1 in
    let equals = eat_blanks-equals b1 q h1 in
    let a = length-append (key_text k) (b1 ++ 61 ∷ q) in
    let b = length-append b1 (61 ∷ q) in
    let c = eat_blanks-length q in
    let reads = value_read n b2 value b3 behind h2 h3 ok (omega arith) in
    elim (Option-cases (bsearch (key_text k))) [
      | inl e ↦
          absurd
            (let no = promise.missing (key_text k) k e in let self = own_prefix (key_text k) in cc)
      | inr (k', e) ↦
          let same = prefix_key k k' (promise.found (key_text k) k' e) in
          let it : bsearch (key_text k) ≡ some k = e ∙ ap some same in
          rw (opens, parse_option) (rw equals (rw it (ap (λ s. some (k, s)) reads)))
    ]
