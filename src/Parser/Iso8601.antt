-- ===== src/Parser/Iso8601.antt =====
-- include/time_shield/time_parser.hpp: parse_time_zone and parse_iso8601.
use time_shield_cpp.Base.{
  ℕ, ◌+◌, ◌-◌, ◌*◌, Bool, true, false, not, ◌&&◌, ◌||◌, List, [], ◌∷◌, ltb, ◌==◌, if◌then◌else◌,
  Option, some, none, ◌>>=◌, ◌>>◌, guard,
}
use time_shield_cpp.Base.Int.{pos}
use time_shield_cpp.Text.{plus_char, minus_char, zero_char, length, take, drop, is_end}
use time_shield_cpp.IsoWeek.{DateStruct, IsoWeekDateStruct, iso_week_date_to_date}
use time_shield_cpp.IsoWeek.Text.{parse_iso_week_date}
use time_shield_cpp.Validation.{is_valid_date, is_valid_date_time, is_valid_time_zone}
use time_shield_cpp.DateTime.{DateTimeStruct}
use time_shield_cpp.TimeZones.{TimeZoneStruct}
use time_shield_cpp.Parser.{
  is_ascii_space, is_ascii_digit, skip_spaces, parse_2digits, parse_4digits_year,
  parse_fraction_to_ms,
}

abbrev pub colon_char : ℕ
colon_char = 58

abbrev pub dot_char : ℕ
dot_char = 46

abbrev pub slash_char : ℕ
slash_char = 47

abbrev pub upper_t : ℕ
upper_t = 84

abbrev is_t : ℕ → Bool
is_t c = (c == upper_t) || (c == 116)

abbrev pub upper_z : ℕ
upper_z = 90

abbrev pub is_z : ℕ → Bool
is_z c = (c == upper_z) || (c == 122)

abbrev pub zero_zone : TimeZoneStruct
zero_zone = record { hour = pos 0; min = pos 0; is_positive = true }

abbrev pub two_digits : ℕ → ℕ → ℕ
two_digits a b = (a - zero_char) * 10 + (b - zero_char)

unfoldable pub parse_time_zone : List ℕ → Option TimeZoneStruct
parse_time_zone [] = some zero_zone
parse_time_zone (c ∷ []) = if is_z c then some zero_zone else none
parse_time_zone (sign ∷ a ∷ b ∷ colon ∷ c ∷ d ∷ []) = do
  guard ((sign == plus_char) || (sign == minus_char))
  guard (colon == colon_char)
  guard (is_ascii_digit a && is_ascii_digit b && is_ascii_digit c && is_ascii_digit d)
  guard (is_valid_time_zone (pos (two_digits a b)) (pos (two_digits c d)))
  some (record {
    hour = pos (two_digits a b);
    min = pos (two_digits c d);
    is_positive = sign == plus_char;
  })
parse_time_zone _ = none

-- The loop to the end of the date: the characters before it, and from it on.
unfoldable pub date_token : List ℕ → List ℕ × List ℕ
date_token [] = ([], [])
date_token (c ∷ p) =
    let (token, rest) = date_token p in
    if is_t c || is_ascii_space c then ([], c ∷ p) else (c ∷ token, rest)

unfoldable pub read_separator : List ℕ → Option (List ℕ)
read_separator [] = none
read_separator (c ∷ p) =
    if (c == minus_char) || (c == slash_char) || (c == dot_char) then some p else none

unfoldable pub calendar_date : List ℕ → Option (DateStruct × List ℕ)
unfolding parse_4digits_year parse_2digits read_separator
calendar_date p = do
  (year, p1) ← parse_4digits_year p
  p2 ← read_separator p1
  (mon, p3) ← parse_2digits p2
  p4 ← read_separator p3
  (day, p5) ← parse_2digits p4
  some (record { year = pos year; mon = pos mon; day = pos day }, p5)

-- The date of an ISO week date with what follows it, or else year, month, day.
unfoldable pub week_or_calendar_date :
    Option IsoWeekDateStruct → List ℕ → List ℕ → Option (DateStruct × List ℕ)
unfolding calendar_date
week_or_calendar_date (some iso_date) rest p =
    iso_week_date_to_date iso_date >>= λ date. some (date, rest)
week_or_calendar_date none rest p = calendar_date p

unfoldable pub parse_date : List ℕ → Option (DateStruct × List ℕ)
unfolding date_token week_or_calendar_date is_end
parse_date p =
    let (token, rest) = date_token p in
    week_or_calendar_date (if is_end token then none else parse_iso_week_date token) rest p

-- T, or white space.
unfoldable pub read_t : List ℕ → Option (List ℕ)
unfolding skip_spaces
read_t [] = none
read_t (c ∷ p) =
    if is_t c then some p else if is_ascii_space c then some (skip_spaces (c ∷ p)) else none

unfoldable pub read_colon : List ℕ → Option (List ℕ)
read_colon [] = none
read_colon (c ∷ p) = if c == colon_char then some p else none

-- The optional seconds, and whether there are any.
unfoldable pub read_seconds : List ℕ → Option (ℕ × Bool × List ℕ)
unfolding parse_2digits
read_seconds [] = some (0, false, [])
read_seconds (c ∷ p) =
    if c == colon_char
    then (parse_2digits p >>= λ (sec, rest). some (sec, true, rest))
    else some (0, false, c ∷ p)

-- The optional fraction, which wants seconds before it.
unfoldable pub read_fraction : Bool → List ℕ → Option (ℕ × List ℕ)
unfolding parse_fraction_to_ms
read_fraction has_seconds [] = some (0, [])
read_fraction has_seconds (c ∷ p) =
    if c == dot_char
    then (if not has_seconds then none else parse_fraction_to_ms p)
    else some (0, c ∷ p)

-- The optional time zone.
unfoldable pub read_zone : List ℕ → Option (TimeZoneStruct × List ℕ)
unfolding parse_time_zone take drop length
read_zone [] = some (zero_zone, [])
read_zone (c ∷ p) =
    if is_z c
    then some (zero_zone, p)
    else if (c == plus_char) || (c == minus_char)
    then (if ltb (length (c ∷ p)) 6
        then none
        else parse_time_zone (take 6 (c ∷ p)) >>= λ tz. some (tz, drop 6 (c ∷ p)))
    else some (zero_zone, c ∷ p)

-- parse_iso8601 from the separator of date and time on.
unfoldable pub parse_time : DateStruct → List ℕ → Option (DateTimeStruct × TimeZoneStruct)
unfolding read_t parse_2digits read_colon read_seconds read_fraction read_zone skip_spaces is_end
parse_time date p = do
  p1 ← read_t p
  (hour, p2) ← parse_2digits p1
  p3 ← read_colon p2
  (min, p4) ← parse_2digits p3
  (sec, has_seconds, p5) ← read_seconds p4
  (ms, p6) ← read_fraction has_seconds p5
  (tz, p7) ← read_zone (skip_spaces p6)
  guard (is_end (skip_spaces p7))
  guard (is_valid_date_time date.year date.mon date.day (pos hour) (pos min) (pos sec) (pos ms))
  some (
    record {
      year = date.year;
      mon = date.mon;
      day = date.day;
      hour = pos hour;
      min = pos min;
      sec = pos sec;
      ms = pos ms;
    },
    tz,
  )

-- parse_iso8601 after the date, where nothing but white space may follow.
unfoldable pub date_only : DateStruct → Option (DateTimeStruct × TimeZoneStruct)
date_only date = do
  guard (is_valid_date_time date.year date.mon date.day (pos 0) (pos 0) (pos 0) (pos 0))
  some (
    record {
      year = date.year;
      mon = date.mon;
      day = date.day;
      hour = pos 0;
      min = pos 0;
      sec = pos 0;
      ms = pos 0;
    },
    zero_zone,
  )

unfoldable pub parse_iso8601 : List ℕ → Option (DateTimeStruct × TimeZoneStruct)
unfolding skip_spaces parse_date date_only parse_time is_end
parse_iso8601 input = do
  (date, p) ← parse_date (skip_spaces input)
  guard (is_valid_date date.year date.mon date.day)
  if is_end (skip_spaces p) then date_only date else parse_time date p
