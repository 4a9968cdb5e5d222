-- ===== src/Parser.antt =====
-- include/time_shield/time_parser.hpp: the character tests and the scanners of numbers. A pointer
-- into the text with its end is the list of the characters from there on, and a scanner returns
-- what it read with the characters that are left; what a failing one writes to its outputs is not
-- modelled.
pub mod Iso8601
pub mod Timestamps
pub mod Valid
pub mod Clock
pub mod Timeframe
pub mod Names
use time_shield_cpp.Base.{
  ℕ, zero, suc, ◌+◌, ◌-◌, ◌*◌, Bool, true, false, not, ◌&&◌, ◌||◌, List, [], ◌∷◌, ltb, leb, ◌==◌,
  if◌then◌else◌, Option, some, none, ◌>>=◌, ◌>>◌, guard,
}
use time_shield_cpp.Text.{zero_char, is_digit, starts_with_digit}

unfoldable pub is_ascii_space : ℕ → Bool
is_ascii_space c = (c == 32) || (c == 9) || (c == 10) || (c == 13) || (c == 12) || (c == 11)

abbrev pub is_ascii_digit : ℕ → Bool
is_ascii_digit c = leb 48 c && leb c 57

unfoldable pub skip_spaces : List ℕ → List ℕ
unfolding is_ascii_space
skip_spaces [] = []
skip_spaces (c ∷ p) = if is_ascii_space c then skip_spaces p else c ∷ p

unfoldable pub parse_2digits : List ℕ → Option (ℕ × List ℕ)
parse_2digits [] = none
parse_2digits (a ∷ []) = none
parse_2digits (a ∷ b ∷ p) =
    if not (is_ascii_digit a) || not (is_ascii_digit b)
    then none
    else some ((a - zero_char) * 10 + (b - zero_char), p)

unfoldable pub parse_4digits_year : List ℕ → Option (ℕ × List ℕ)
parse_4digits_year [] = none
parse_4digits_year (a ∷ []) = none
parse_4digits_year (a ∷ b ∷ []) = none
parse_4digits_year (a ∷ b ∷ c ∷ []) = none
parse_4digits_year (a ∷ b ∷ c ∷ d ∷ p) =
    if not (is_ascii_digit a)
      || not (is_ascii_digit b)
      || not (is_ascii_digit c)
      || not (is_ascii_digit d)
    then none
    else some
        ((a - zero_char) * 1000 + (b - zero_char) * 100 + (c - zero_char) * 10 + (d - zero_char), p)

-- The loop of parse_fraction_to_ms: the value, the count of its digits and the rest.
unfoldable pub fraction_loop : ℕ → ℕ → List ℕ → Option (ℕ × ℕ × List ℕ)
fraction_loop ms digits [] = some (ms, digits, [])
fraction_loop ms digits (c ∷ p) =
    let rest = fraction_loop (ms * 10 + (c - zero_char)) (digits + 1) p in
    if not (is_ascii_digit c) then some (ms, digits, c ∷ p) else if leb 3 digits then none else rest

unfoldable pub parse_fraction_to_ms : List ℕ → Option (ℕ × List ℕ)
unfolding fraction_loop
parse_fraction_to_ms p = do
  guard (starts_with_digit p)
  (ms, digits, rest) ← fraction_loop 0 0 p
  some (if digits == 1 then ms * 100 else if digits == 2 then ms * 10 else ms, rest)
