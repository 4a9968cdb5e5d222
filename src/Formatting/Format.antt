-- ===== src/Formatting/Format.antt =====
-- include/time_shield/time_formatting.hpp: process_format_impl, and to_string and to_string_ms, which
-- print by a format. The loop over the format has the place in its text as a state.
use time_shield_cpp.Base.{ℕ, suc, ◌+◌, not, List, [], ◌∷◌, ◌++◌, ltb, leb, ◌==◌, if◌then◌else◌}
use time_shield_cpp.Base.Int.{ℤ, pos, pos_part, neg_part, ◌+ℤ◌, ◌/ℤ◌, ◌%ℤ◌, ltb_ℤ, ◌==ℤ◌}
use time_shield_cpp.Text.{print_int, print_two, print_three}
use time_shield_cpp.Units.{hour24_to_12, sec_to_ms}
use time_shield_cpp.UnixTime.{day_of_week_date}
use time_shield_cpp.DateTime.{DateTimeStruct, to_date_time, to_date_time_ms}
use time_shield_cpp.CalendarPeriods.{day_of_year}
use time_shield_cpp.IsoWeek.{to_iso_week_date}
use time_shield_cpp.Parser.Iso8601.{colon_char}
use time_shield_cpp.Parser.Timeframe.{codes}
use time_shield_cpp.Formatting.{time_text}
use time_shield_cpp.Formatting.Directives.{
  percent_char, weekday_short_names, weekday_full_names, weekday_uppercase_names, month_full_names,
  month_uppercase_names, weekday_text, month_text, cut, print_padded, signed, two, american_date,
  date_and_time, iso_date_directive, offset_directive, clock_directive, once, unless_repeated,
  case_b, case_seconds, case_year,
}

-- The switch, by the character and how often it is repeated.
unfoldable pub process_format_impl : ℕ → ℕ → ℤ → ℤ → DateTimeStruct → List ℕ
unfolding case_b case_seconds case_year american_date date_and_time iso_date_directive
    offset_directive clock_directive
process_format_impl last_char repeat_count ts utc_offset dt =
    let week_day = day_of_week_date dt.year dt.mon dt.day in
    let iso_week = to_iso_week_date dt.year dt.mon dt.day in
    if last_char == b'a'
    then unless_repeated repeat_count (weekday_text weekday_short_names dt)
    else if last_char == b'A'
    then unless_repeated repeat_count (weekday_text weekday_full_names dt)
    else if last_char == b'I'
    then once repeat_count (two (hour24_to_12 dt.hour))
    else if last_char == b'H'
    then (if leb repeat_count 2 then two dt.hour else [])
    else if last_char == b'h'
    then (if repeat_count == 2 then two dt.hour else case_b repeat_count dt)
    else if last_char == b'b'
    then case_b repeat_count dt
    else if last_char == b'B'
    then unless_repeated repeat_count (month_text month_full_names dt)
    else if last_char == b'c'
    then unless_repeated repeat_count (date_and_time dt)
    else if last_char == b'C'
    then unless_repeated repeat_count (print_int (dt.year /ℤ pos 100) [])
    else if last_char == b'd'
    then (if ltb repeat_count 2 then two dt.day else [])
    else if last_char == b'D'
    then (if repeat_count == 1
        then american_date dt
        else if repeat_count == 2
        then two dt.day
        else [])
    else if last_char == b'e'
    then once repeat_count (cut 4 (print_padded (pos_part dt.day) []))
    else if last_char == b'F'
    then once repeat_count (iso_date_directive dt)
    else if last_char == b'g'
    then once repeat_count (
        let two_digit_year = iso_week.year %ℤ pos 100 in
        cut 4 (print_two (pos_part two_digit_year + neg_part two_digit_year) []))
    else if last_char == b'G'
    then once repeat_count (print_int iso_week.year [])
    else if last_char == b'j'
    then once repeat_count (cut 4 (signed print_three (day_of_year ts) []))
    else if last_char == b'k'
    then once repeat_count (cut 4 (print_padded (pos_part dt.hour) []))
    else if last_char == b'l'
    then once repeat_count (cut 4 (print_padded (pos_part (hour24_to_12 dt.hour)) []))
    else if last_char == b'm'
    then (if repeat_count == 1 then two dt.mon else if repeat_count == 2 then two dt.min else [])
    else if last_char == b'M'
    then (if repeat_count == 1
        then two dt.min
        else if repeat_count == 2
        then two dt.mon
        else if repeat_count == 3
        then month_text month_uppercase_names dt
        else [])
    else if last_char == b'n'
    then 10 ∷ []
    else if last_char == b'p'
    then (if ltb_ℤ dt.hour (pos 12) then codes "AM" else codes "PM")
    else if last_char == b'P'
    then (if ltb_ℤ dt.hour (pos 12) then codes "am" else codes "pm")
    else if last_char == b'r'
    then once repeat_count (clock_directive dt)
    else if last_char == b'R'
    then once repeat_count
        (cut 8 (signed print_two dt.hour (colon_char ∷ signed print_two dt.min [])))
    else if last_char == b's'
    then (if repeat_count == 1
        then print_int ts []
        else if repeat_count == 3
        then print_int dt.ms []
        else case_seconds repeat_count dt)
    else if last_char == b'S'
    then case_seconds repeat_count dt
    else if last_char == b't'
    then unless_repeated repeat_count (9 ∷ [])
    else if last_char == b'T'
    then once repeat_count (cut 16 (time_text colon_char dt []))
    else if last_char == b'u'
    then once repeat_count (print_int (if week_day ==ℤ pos 0 then pos 7 else week_day) [])
    else if last_char == b'V'
    then once repeat_count (two iso_week.week)
    else if last_char == b'w'
    then (if repeat_count == 1
        then print_int week_day []
        else if repeat_count == 3
        then weekday_text weekday_short_names dt
        else [])
    else if last_char == b'W'
    then (if repeat_count == 3 then weekday_text weekday_uppercase_names dt else [])
    else if last_char == b'y'
    then once repeat_count (print_int (dt.year %ℤ pos 100) [])
    else if last_char == b'Y'
    then case_year repeat_count dt
    else if last_char == b'z'
    then once repeat_count (offset_directive utc_offset)
    else if last_char == b'Z'
    then codes "UTC"
    else []

-- Where the loop stands: in plain text, after a percent sign, or in a directive, whose character it
-- has read so many times.
pub data Place : Type 0 where
  in_text : Place
  after_percent : Place
  in_command : ℕ → ℕ → Place

module _ (process : ℕ → ℕ → List ℕ) where
  -- The loop over the rest of the format and the directive at its end. Where a directive ends, the
  -- loop steps back, so that its next character is read as in plain text.
  unfoldable pub format_loop : Place → List ℕ → List ℕ
  format_loop (in_command last_char repeat_count) [] = process last_char repeat_count
  format_loop in_text [] = []
  format_loop after_percent [] = []
  format_loop in_text (c ∷ format) =
      let next = format_loop after_percent format in
      let rest = format_loop in_text format in if c == percent_char then next else c ∷ rest
  format_loop after_percent (c ∷ format) =
      let command = format_loop (in_command c 1) format in
      let rest = format_loop in_text format in if c == percent_char then c ∷ rest else command
  format_loop (in_command last_char repeat_count) (c ∷ format) =
      let same = format_loop (in_command last_char (suc repeat_count)) format in
      let next = format_loop after_percent format in
      let rest = format_loop in_text format in
      if last_char == c
      then same
      else process last_char repeat_count ++ (if c == percent_char then next else c ∷ rest)

  -- The body of both functions. The first character is appended before the loop starts with it.
  unfoldable pub format_text : List ℕ → List ℕ
  unfolding format_loop
  format_text [] = []
  format_text (c ∷ format) =
      let text = format_loop in_text (c ∷ format) in
      if not (c == percent_char) then c ∷ text else text

unfoldable pub to_string : List ℕ → ℤ → ℤ → List ℕ
unfolding format_text process_format_impl
to_string format_str timestamp utc_offset =
    let dt = to_date_time (timestamp +ℤ utc_offset) in
    format_text (λ c n. process_format_impl c n timestamp utc_offset dt) format_str

unfoldable pub to_string_ms : List ℕ → ℤ → ℤ → List ℕ
unfolding format_text process_format_impl
to_string_ms format_str timestamp utc_offset =
    let dt = to_date_time_ms (timestamp +ℤ sec_to_ms utc_offset) in
    format_text (λ c n. process_format_impl c n timestamp utc_offset dt) format_str
