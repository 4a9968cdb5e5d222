-- ===== src/Formatting/Directives.antt =====
-- include/time_shield/time_formatting.hpp: the longer cases of process_format_impl, one directive of
-- a format each; with to_str of weekdays and months in include/time_shield/enums.hpp. A text
-- that is appended to the result is what a function returns.
use time_shield_cpp.Base.{
  ℕ, suc, ◌+◌, ◌-◌, not, ◌&&◌, List, [], ◌∷◌, ◌++◌, ltb, leb, ◌==◌, get_or, if◌then◌else◌,
}
use time_shield_cpp.Base.Int.{
  ℤ, pos, negsuc, pos_part, neg_part, ◌-ℤ◌, ◌*ℤ◌, ◌/ℤ◌, ◌%ℤ◌, ltb_ℤ, leb_ℤ, ◌==ℤ◌,
}
use time_shield_cpp.Text.{
  plus_char, minus_char, zero_char, print_digits, print_int, print_two, print_three, take,
}
use time_shield_cpp.Units.{hour24_to_12}
use time_shield_cpp.UnixTime.{day_of_week_date}
use time_shield_cpp.DateTime.{DateTimeStruct}
use time_shield_cpp.TimeZones.{to_time_zone_struct}
use time_shield_cpp.Parser.Iso8601.{colon_char, slash_char}
use time_shield_cpp.Parser.Timeframe.{codes}
use time_shield_cpp.Formatting.{space_char, time_text}

abbrev pub percent_char : ℕ
percent_char = b'%'

abbrev pub weekday_short_names : List (List ℕ)
weekday_short_names =
    codes "Sun"
    ∷ codes "Mon"
    ∷ codes "Tue"
    ∷ codes "Wed"
    ∷ codes "Thu"
    ∷ codes "Fri"
    ∷ codes "Sat"
    ∷ []

abbrev pub weekday_full_names : List (List ℕ)
weekday_full_names =
    codes "Sunday"
    ∷ codes "Monday"
    ∷ codes "Tuesday"
    ∷ codes "Wednesday"
    ∷ codes "Thursday"
    ∷ codes "Friday"
    ∷ codes "Saturday"
    ∷ []

abbrev pub weekday_uppercase_names : List (List ℕ)
weekday_uppercase_names =
    codes "SUN"
    ∷ codes "MON"
    ∷ codes "TUE"
    ∷ codes "WED"
    ∷ codes "THU"
    ∷ codes "FRI"
    ∷ codes "SAT"
    ∷ []

abbrev pub month_short_names : List (List ℕ)
month_short_names =
    []
    ∷ codes "Jan"
    ∷ codes "Feb"
    ∷ codes "Mar"
    ∷ codes "Apr"
    ∷ codes "May"
    ∷ codes "Jun"
    ∷ codes "Jul"
    ∷ codes "Aug"
    ∷ codes "Sep"
    ∷ codes "Oct"
    ∷ codes "Nov"
    ∷ codes "Dec"
    ∷ []

abbrev pub month_full_names : List (List ℕ)
month_full_names =
    []
    ∷ codes "January"
    ∷ codes "February"
    ∷ codes "March"
    ∷ codes "April"
    ∷ codes "May"
    ∷ codes "June"
    ∷ codes "July"
    ∷ codes "August"
    ∷ codes "September"
    ∷ codes "October"
    ∷ codes "November"
    ∷ codes "December"
    ∷ []

abbrev pub month_uppercase_names : List (List ℕ)
month_uppercase_names =
    []
    ∷ codes "JAN"
    ∷ codes "FEB"
    ∷ codes "MAR"
    ∷ codes "APR"
    ∷ codes "MAY"
    ∷ codes "JUN"
    ∷ codes "JUL"
    ∷ codes "AUG"
    ∷ codes "SEP"
    ∷ codes "OCT"
    ∷ codes "NOV"
    ∷ codes "DEC"
    ∷ []

-- to_str of the weekday and of the month of a date.
abbrev pub weekday_text : List (List ℕ) → DateTimeStruct → List ℕ
weekday_text names dt = get_or names (pos_part (day_of_week_date dt.year dt.mon dt.day)) []

abbrev pub month_text : List (List ℕ) → DateTimeStruct → List ℕ
month_text names dt = get_or names (pos_part dt.mon) []

-- What snprintf leaves in a buffer of some size.
abbrev pub cut : ℕ → List ℕ → List ℕ
cut buffer_size text = take (buffer_size - 1) text

-- %2d
abbrev pub print_padded : ℕ → List ℕ → List ℕ
print_padded n tail =
    if ltb n 10 then space_char ∷ (zero_char + n) ∷ tail else print_digits 20 n tail

-- %.4d of a number that is not negative.
abbrev print_four : ℕ → List ℕ → List ℕ
print_four n tail = if ltb n 1_000 then zero_char ∷ print_three n tail else print_digits 20 n tail

-- A format of numbers, for a number of any sign.
abbrev pub signed : (ℕ → List ℕ → List ℕ) → ℤ → List ℕ → List ℕ
signed print (pos n) tail = print n tail
signed print (negsuc n) tail = minus_char ∷ print (suc n) tail

-- A buffer of 4 characters with "%.2d".
abbrev pub two : ℤ → List ℕ
two x = cut 4 (signed print_two x [])

-- %D
unfoldable pub american_date : DateTimeStruct → List ℕ
american_date dt = cut 16 (
    signed print_two dt.mon (
      slash_char ∷ signed print_two dt.day (slash_char ∷ signed print_two (dt.year %ℤ pos 100) [])))

-- %c
unfoldable pub date_and_time : DateTimeStruct → List ℕ
unfolding time_text
date_and_time dt =
    weekday_text weekday_short_names dt
    ++ space_char ∷ month_text month_short_names dt
    ++ space_char ∷ cut 16 (print_padded (pos_part dt.day) (space_char ∷ []))
    ++ cut 16 (time_text colon_char dt (space_char ∷ []))
    ++ print_int dt.year []

-- %F
unfoldable pub iso_date_directive : DateTimeStruct → List ℕ
iso_date_directive dt =
    let month_and_day =
      minus_char ∷ signed print_two dt.mon (minus_char ∷ signed print_two dt.day []) in
    cut 32 (
      if leb_ℤ dt.year (pos 9_999) && leb_ℤ (pos 0) dt.year
      then print_four (pos_part dt.year) month_and_day
      else if ltb_ℤ dt.year (pos 0)
      then minus_char ∷ print_int dt.year month_and_day
      else plus_char ∷ print_int dt.year month_and_day)

abbrev abs : ℤ → ℕ
abs x = pos_part x + neg_part x

-- %YYYYYY
unfoldable pub reduced_year : ℤ → List ℕ
reduced_year year =
    let mega_years = year /ℤ pos 1_000_000 in
    let millennia = (year -ℤ mega_years *ℤ pos 1_000_000) /ℤ pos 1_000 in
    let centuries = year -ℤ mega_years *ℤ pos 1_000_000 -ℤ millennia *ℤ pos 1_000 in
    cut 32 (
      if not (mega_years ==ℤ pos 0)
      then (if not (millennia ==ℤ pos 0)
          then print_int mega_years
              (b'M' ∷ print_digits 20 (abs millennia) (b'K' ∷ print_three (abs centuries) []))
          else print_int mega_years (b'M' ∷ print_three (abs centuries) []))
      else if not (millennia ==ℤ pos 0)
      then print_int millennia (b'K' ∷ print_three (abs centuries) [])
      else signed print_four year [])

-- %z
unfoldable pub offset_directive : ℤ → List ℕ
offset_directive utc_offset =
    let tz = to_time_zone_struct utc_offset in
    cut 16 (
      (if tz.is_positive then plus_char else minus_char)
      ∷ signed print_two tz.hour (signed print_two tz.min []))

-- %r
unfoldable pub clock_directive : DateTimeStruct → List ℕ
clock_directive dt = cut 16 (
    signed print_two (hour24_to_12 dt.hour) (
      colon_char
      ∷ signed print_two dt.min (
          colon_char
          ∷ signed print_two dt.sec (if ltb_ℤ dt.hour (pos 12) then codes " AM" else codes " PM"))))

abbrev pub once : ℕ → List ℕ → List ℕ
once repeat_count text = if repeat_count == 1 then text else []

abbrev pub unless_repeated : ℕ → List ℕ → List ℕ
unless_repeated repeat_count text = if ltb 1 repeat_count then [] else text

-- The cases b and S, into which others fall through.
unfoldable pub case_b : ℕ → DateTimeStruct → List ℕ
case_b repeat_count dt = unless_repeated repeat_count (month_text month_short_names dt)

unfoldable pub case_seconds : ℕ → DateTimeStruct → List ℕ
case_seconds repeat_count dt =
    if leb repeat_count 2 then two dt.sec else if repeat_count == 3 then print_int dt.ms [] else []

-- The case Y.
unfoldable pub case_year : ℕ → DateTimeStruct → List ℕ
unfolding reduced_year
case_year repeat_count dt =
    if repeat_count == 1
    then print_int dt.year []
    else if repeat_count == 6
    then reduced_year dt.year
    else if repeat_count == 4
    then cut 8 (signed print_four (dt.year %ℤ pos 10_000) [])
    else if repeat_count == 2
    then cut 8 (signed print_two (dt.year %ℤ pos 100) [])
    else []
