-- ===== src/IsoWeek/Text.antt =====
-- include/time_shield/iso_week_conversions.hpp: ISO week dates as text. A string is the list of its
-- characters; the buffer of 32 characters holds every result, since a year has at most 14.
pub mod Pieces
pub mod Parsed
use time_shield_cpp.Base.{
  ℕ, zero, suc, ◌+◌, ◌-◌, ◌*◌, ◌≡◌, Bool, true, false, not, ◌&&◌, ◌||◌, List, [], ◌∷◌, ◌==◌,
  if◌then◌else◌, Option, some, none, ◌>>=◌, ◌>>◌, guard,
}
use time_shield_cpp.Base.Int.{ℤ, pos, pos_part, ◌-ℤ◌, leb_ℤ}
use time_shield_cpp.Constants.{min_year, max_year}
use time_shield_cpp.Text.{
  plus_char, minus_char, zero_char, is_digit, print_int, print_two, read_digits, starts_with_digit,
  is_end,
}
use time_shield_cpp.IsoWeek.{IsoWeekDateStruct, iso_weeks_in_year, is_valid_iso_week_date}

abbrev pub upper_w : ℕ
upper_w = 87

abbrev pub lower_w : ℕ
lower_w = 119

-- A character of the extended format only.
abbrev pub separator : Bool → List ℕ → List ℕ
separator extended tail = if extended then minus_char ∷ tail else tail

unfoldable pub has_valid_fields : IsoWeekDateStruct → Bool → Bool
has_valid_fields iso_date include_weekday =
    let has_valid_year = leb_ℤ min_year iso_date.year && leb_ℤ iso_date.year max_year in
    let has_valid_week =
      has_valid_year
      && leb_ℤ (pos 1) iso_date.week
      && leb_ℤ iso_date.week (iso_weeks_in_year iso_date.year) in
    let has_valid_weekday = leb_ℤ (pos 1) iso_date.weekday && leb_ℤ iso_date.weekday (pos 7) in
    not (not has_valid_year || not has_valid_week || (include_weekday && not has_valid_weekday))

unfoldable pub format_iso_week_date : IsoWeekDateStruct → Bool → Bool → Option (List ℕ)
unfolding has_valid_fields print_int print_two
format_iso_week_date iso_date extended include_weekday =
    if not (has_valid_fields iso_date include_weekday)
    then none
    else let day =
        if include_weekday then separator extended (print_int iso_date.weekday []) else [] in
      some (
        print_int iso_date.year
          (separator extended (upper_w ∷ print_two (pos_part iso_date.week) day)))

unfoldable pub read_sign : List ℕ → Bool × List ℕ
read_sign [] = (false, [])
read_sign (c ∷ p) =
    if (c == plus_char) || (c == minus_char) then (c == minus_char, p) else (false, c ∷ p)

unfoldable pub read_dash : List ℕ → Bool × List ℕ
read_dash [] = (false, [])
read_dash (c ∷ p) = if c == minus_char then (true, p) else (false, c ∷ p)

unfoldable pub read_w : List ℕ → Option (List ℕ)
read_w [] = none
read_w (c ∷ p) = if (c == upper_w) || (c == lower_w) then some p else none

-- The loop over two digits.
unfoldable pub read_week : List ℕ → Option (ℕ × List ℕ)
read_week [] = none
read_week (c ∷ []) = none
read_week (c ∷ d ∷ p) =
    if is_digit c && is_digit d then some ((c - zero_char) * 10 + (d - zero_char), p) else none

unfoldable pub read_digit : List ℕ → Option (ℕ × List ℕ)
read_digit [] = none
read_digit (c ∷ p) = if is_digit c then some (c - zero_char, p) else none

-- The weekday, Monday where there is none.
unfoldable pub read_weekday : Bool → List ℕ → Option (ℕ × List ℕ)
unfolding read_digit
read_weekday has_dash_after_year [] = some (1, [])
read_weekday has_dash_after_year (c ∷ p) =
    if ((c == minus_char) && has_dash_after_year) || (not has_dash_after_year && not (is_digit c))
    then read_digit (if c == minus_char then p else c ∷ p)
    else if is_digit c
    then some (c - zero_char, p)
    else some (1, c ∷ p)

-- parse_iso_week_date from the end of the year on.
unfoldable pub parse_after_year : ℤ → List ℕ → Option IsoWeekDateStruct
unfolding read_dash read_w read_week read_weekday is_end
parse_after_year year q = do
  let (has_dash_after_year, r) = read_dash q
  s ← read_w r
  (week, t) ← read_week s
  guard (not (week == 0))
  (weekday, rest) ← read_weekday has_dash_after_year t
  guard (is_end rest)
  guard (is_valid_iso_week_date year (pos week) (pos weekday))
  some (record { year = year; week = pos week; weekday = pos weekday })

-- The date that is left in the output where the result is true.
unfoldable pub parse_iso_week_date : List ℕ → Option IsoWeekDateStruct
unfolding read_sign parse_after_year
parse_iso_week_date input = do
  let (negative, p) = read_sign input
  guard (starts_with_digit p)
  let (value, q) = read_digits 0 p
  parse_after_year (if negative then pos 0 -ℤ pos value else pos value) q
