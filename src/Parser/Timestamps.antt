-- ===== src/Parser/Timestamps.antt =====
-- include/time_shield/time_parser.hpp: timestamps and predicates on workdays of ISO 8601 texts. A
-- null pointer is no text, and an exception that is caught is `none`.
use time_shield_cpp.Base.{ℕ, ◌≡◌, ap, Bool, true, false, List, Option, some, none, ◌>>=◌, arith}
use time_shield_cpp.Base.Int.{
  ℤ, negsuc, pos, ◌+ℤ◌, ◌-ℤ◌, ◌≤ℤ◌, int_laws, eq_of_parts, parts_disjoint,
}
use time_shield_cpp.Units.{sec_to_ms}
use time_shield_cpp.Validation.{is_workday_ts, is_workday_ms}
use time_shield_cpp.DateTime.{
  to_date_time, to_date_time_ms, dt_to_timestamp, dt_to_timestamp_ms, int64_max, map_some,
}
use time_shield_cpp.DateTime.Split.{IsInt64}
use time_shield_cpp.DateTime.RoundTrip.{dt_to_timestamp-to_date_time}
use time_shield_cpp.DateTime.Millis.{dt_to_timestamp_ms-to_date_time_ms}
use time_shield_cpp.TimeZones.{time_zone_struct_to_offset, is_valid_tz_offset}
use time_shield_cpp.Workdays.OfTimestamp.{
  is_first_workday_of_month_ts, is_first_workday_of_month_ts_ms, is_last_workday_of_month_ts,
  is_last_workday_of_month_ts_ms, is_within_first_workdays_of_month_ts,
  is_within_first_workdays_of_month_ts_ms, is_within_last_workdays_of_month_ts,
  is_within_last_workdays_of_month_ts_ms,
}
use time_shield_cpp.Parser.Iso8601.{parse_iso8601}
use time_shield_cpp.Formatting.{to_iso8601_offset, to_iso8601_ms_offset}
use time_shield_cpp.Formatting.Stamp.{FourDigitYear}
use time_shield_cpp.Formatting.Offset.{
  zone_offset, parse_iso8601-to_iso8601_offset, parse_iso8601-to_iso8601_ms_offset,
}

unfoldable pub str_to_ts : List ℕ → Option ℤ
str_to_ts str = do
  (dt, tz) ← parse_iso8601 str
  map_some (λ ts. ts -ℤ time_zone_struct_to_offset tz) (dt_to_timestamp dt)

unfoldable pub str_to_ts_ms : List ℕ → Option ℤ
str_to_ts_ms str = do
  (dt, tz) ← parse_iso8601 str
  map_some (λ ts_ms. ts_ms -ℤ sec_to_ms (time_zone_struct_to_offset tz)) (dt_to_timestamp_ms dt)

-- The functions ts and ts_ms.
abbrev or_zero : Option ℤ → ℤ
or_zero none = pos 0
or_zero (some t) = t

unfoldable pub ts : List ℕ → ℤ
unfolding str_to_ts
ts str = or_zero (str_to_ts str)

unfoldable pub ts_ms : List ℕ → ℤ
unfolding str_to_ts_ms
ts_ms str = or_zero (str_to_ts_ms str)

abbrev holds : Option ℤ → (ℤ → Bool) → Bool
holds none test = false
holds (some t) test = test t

unfoldable pub is_workday_str : List ℕ → Bool
unfolding str_to_ts
is_workday_str str = holds (str_to_ts str) is_workday_ts

unfoldable pub is_workday_ms_str : List ℕ → Bool
unfolding str_to_ts_ms
is_workday_ms_str str = holds (str_to_ts_ms str) is_workday_ms

unfoldable pub is_first_workday_of_month_str : List ℕ → Bool
unfolding str_to_ts
is_first_workday_of_month_str str = holds (str_to_ts str) is_first_workday_of_month_ts

unfoldable pub is_first_workday_of_month_ms_str : List ℕ → Bool
unfolding str_to_ts_ms
is_first_workday_of_month_ms_str str = holds (str_to_ts_ms str) is_first_workday_of_month_ts_ms

unfoldable pub is_last_workday_of_month_str : List ℕ → Bool
unfolding str_to_ts
is_last_workday_of_month_str str = holds (str_to_ts str) is_last_workday_of_month_ts

unfoldable pub is_last_workday_of_month_ms_str : List ℕ → Bool
unfolding str_to_ts_ms
is_last_workday_of_month_ms_str str = holds (str_to_ts_ms str) is_last_workday_of_month_ts_ms

unfoldable pub is_within_first_workdays_of_month_str : List ℕ → ℤ → Bool
unfolding str_to_ts
is_within_first_workdays_of_month_str str count =
    holds (str_to_ts str) (λ t. is_within_first_workdays_of_month_ts t count)

unfoldable pub is_within_first_workdays_of_month_ms_str : List ℕ → ℤ → Bool
unfolding str_to_ts_ms
is_within_first_workdays_of_month_ms_str str count =
    holds (str_to_ts_ms str) (λ t. is_within_first_workdays_of_month_ts_ms t count)

unfoldable pub is_within_last_workdays_of_month_str : List ℕ → ℤ → Bool
unfolding str_to_ts
is_within_last_workdays_of_month_str str count =
    holds (str_to_ts str) (λ t. is_within_last_workdays_of_month_ts t count)

unfoldable pub is_within_last_workdays_of_month_ms_str : List ℕ → ℤ → Bool
unfolding str_to_ts_ms
is_within_last_workdays_of_month_ms_str str count =
    holds (str_to_ts_ms str) (λ t. is_within_last_workdays_of_month_ts_ms t count)

take_off : (a b : ℤ) → a +ℤ b -ℤ b ≡ a
take_off a b = eq_of_parts _ _ (omega int_laws)

-- What is printed for a timestamp with a valid offset is parsed to that timestamp, where the
-- local time is in the range of int64_t and has a year from 1000 to 9999.
pub str_to_ts-to_iso8601_offset :
    (t offset : ℤ)
    → is_valid_tz_offset offset ≡ true
    → IsInt64 (t +ℤ offset)
    → FourDigitYear (to_date_time (t +ℤ offset)).year
    → str_to_ts (to_iso8601_offset t offset) ≡ some t
unfolding str_to_ts
str_to_ts-to_iso8601_offset t offset valid r year =
    rw
      (
        parse_iso8601-to_iso8601_offset t offset valid r year,
        zone_offset offset valid,
        dt_to_timestamp-to_date_time (t +ℤ offset) r (omega (arith, year)),
      )
      (ap some (take_off t offset))

-- What is printed for a timestamp in milliseconds with a valid offset is parsed to that
-- timestamp, where the local time is one that to_timestamp_ms gives and has a year from 1000 to
-- 9999.
pub str_to_ts_ms-to_iso8601_ms_offset :
    (t offset : ℤ)
    → is_valid_tz_offset offset ≡ true
    → let local_ms = t +ℤ sec_to_ms offset in
      negsuc 9_223_372_036_854_774_999 ≤ℤ local_ms
      → local_ms ≤ℤ int64_max
      → FourDigitYear (to_date_time_ms local_ms).year
      → str_to_ts_ms (to_iso8601_ms_offset t offset) ≡ some t
unfolding str_to_ts_ms
str_to_ts_ms-to_iso8601_ms_offset t offset valid low high year =
    let local_ms = t +ℤ sec_to_ms offset in
    let range : IsInt64 local_ms = record {
      low = omega (arith, low, parts_disjoint local_ms);
      high = omega (arith, high, parts_disjoint local_ms);
    } in
    rw
      (
        parse_iso8601-to_iso8601_ms_offset t offset valid range year,
        zone_offset offset valid,
        dt_to_timestamp_ms-to_date_time_ms local_ms low high (omega (arith, year)),
      )
      (ap some (take_off t (sec_to_ms offset)))
