-- ===== src/Formatting/Tokens.antt =====
-- A format as a list of tokens, and what to_string makes of it.
use time_shield_cpp.Base.{
  ℕ, zero, suc, ◌+◌, ◌≡◌, refl, ap, ◌∙◌, true, false, List, [], ◌∷◌, ◌++◌, ◌==◌, arith,
}
use time_shield_cpp.Base.Int.{ℤ, ◌+ℤ◌}
use time_shield_cpp.DateTime.{to_date_time}
use time_shield_cpp.Formatting.Directives.{percent_char}
use time_shield_cpp.Formatting.Format.{
  process_format_impl, in_text, in_command, format_loop, format_text, to_string,
}

-- A character that stands for itself, a percent sign, or a directive, whose character stands in the
-- format once more than it says.
pub data Token : Type 0 where
  literal : ℕ → Token
  percent : Token
  directive : ℕ → ℕ → Token

unfoldable pub repeated : ℕ → ℕ → List ℕ → List ℕ
repeated zero c tail = tail
repeated (suc n) c tail = c ∷ repeated n c tail

unfoldable pub format_of : List Token → List ℕ
unfolding repeated
format_of [] = []
format_of (literal c ∷ tokens) = c ∷ format_of tokens
format_of (percent ∷ tokens) = percent_char ∷ percent_char ∷ format_of tokens
format_of (directive c n ∷ tokens) = percent_char ∷ c ∷ repeated n c (format_of tokens)

unfoldable pub meaning : (ℕ → ℕ → List ℕ) → List Token → List ℕ
meaning process [] = []
meaning process (literal c ∷ tokens) = c ∷ meaning process tokens
meaning process (percent ∷ tokens) = percent_char ∷ meaning process tokens
meaning process (directive c n ∷ tokens) = process c (suc n) ++ meaning process tokens

abbrev pub StartsOther : ℕ → List ℕ → Type 0
StartsOther c [] = Unit {0}
StartsOther c (d ∷ p) = (c == d) ≡ false

-- No literal or directive has the percent sign, and what follows a directive does not start with its
-- character.
abbrev pub IsFormat : List Token → Type 0
IsFormat [] = Unit {0}
IsFormat (literal c ∷ tokens) = ((c == percent_char) ≡ false) × IsFormat tokens
IsFormat (percent ∷ tokens) = IsFormat tokens
IsFormat (directive c n ∷ tokens) =
    ((c == percent_char) ≡ false) × StartsOther c (format_of tokens) × IsFormat tokens

append_nil : (p : List ℕ) → p ≡ p ++ []
append_nil [] = refl
append_nil (c ∷ p) = ap (λ t. c ∷ t) (append_nil p)

module _ (process : ℕ → ℕ → List ℕ) where
  command_end :
      (c k : ℕ) (tail : List ℕ)
      → StartsOther c tail
      → format_loop process (in_command c k) tail ≡ process c k ++ format_loop process in_text tail
  unfolding format_loop
  command_end c k [] h = append_nil (process c k)
  command_end c k (d ∷ p) h = rw h refl

  command_repeated :
      (n c k : ℕ) (tail : List ℕ)
      → StartsOther c tail
      → format_loop process (in_command c k) (repeated n c tail)
        ≡ process c (k + n) ++ format_loop process in_text tail
  unfolding format_loop repeated
  command_repeated zero c k tail h =
      command_end c k tail h
      ∙ ap (λ m. process c m ++ format_loop process in_text tail) (omega arith)
  command_repeated (suc n) c k tail h =
      let same : ((c == c) ≡ true) = ground arith in
      rw same (
        command_repeated n c (suc k) tail h
        ∙ ap (λ m. process c m ++ format_loop process in_text tail) (omega arith))

  format_loop-meaning :
      (tokens : List Token)
      → IsFormat tokens
      → format_loop process in_text (format_of tokens) ≡ meaning process tokens
  unfolding format_loop format_of meaning
  format_loop-meaning [] h = refl
  format_loop-meaning (literal c ∷ tokens) (h, hs) =
      rw h (ap (λ t. c ∷ t) (format_loop-meaning tokens hs))
  format_loop-meaning (percent ∷ tokens) h =
      ap (λ t. percent_char ∷ t) (format_loop-meaning tokens h)
  format_loop-meaning (directive c n ∷ tokens) (h, other, hs) = rw h (
      command_repeated n c 1 (format_of tokens) other
      ∙ ap (λ m. process c m ++ format_loop process in_text (format_of tokens)) {x = 1 + n}
          {y = suc n} (omega arith)
      ∙ ap (λ t. process c (suc n) ++ t) (format_loop-meaning tokens hs))

-- A literal at the start of a format is printed once more.
abbrev pub again : List Token → List ℕ
again [] = []
again (literal c ∷ tokens) = c ∷ []
again (percent ∷ tokens) = []
again (directive c n ∷ tokens) = []

format_text-meaning :
    (process : ℕ → ℕ → List ℕ) (tokens : List Token)
    → IsFormat tokens
    → format_text process (format_of tokens) ≡ again tokens ++ meaning process tokens
unfolding format_text format_of format_loop meaning
format_text-meaning process [] h = format_loop-meaning process [] h
format_text-meaning process (literal c ∷ tokens) h =
    rw (h.0) (ap (λ t. c ∷ c ∷ t) (format_loop-meaning process tokens h.1))
format_text-meaning process (percent ∷ tokens) h = format_loop-meaning process (percent ∷ tokens) h
format_text-meaning process (directive c n ∷ tokens) h =
    format_loop-meaning process (directive c n ∷ tokens) h

-- For a format that is written by tokens, where a literal is not a percent sign and a directive's
-- character neither is one nor starts the next token, to_string prints each literal, a percent
-- sign for a doubled one, and the text of each directive for as often as its character stands
-- there; a literal at the start of the format is printed twice.
pub to_string-meaning :
    (tokens : List Token) (timestamp utc_offset : ℤ)
    → IsFormat tokens
    → to_string (format_of tokens) timestamp utc_offset
      ≡ again tokens
        ++ meaning
            (λ c n.
              process_format_impl c n timestamp utc_offset (to_date_time (timestamp +ℤ utc_offset)))
            tokens
unfolding to_string
to_string-meaning tokens timestamp utc_offset h =
    format_text-meaning
      (λ c n. process_format_impl c n timestamp utc_offset (to_date_time (timestamp +ℤ utc_offset)))
      tokens h
