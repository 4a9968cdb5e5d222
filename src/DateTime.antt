-- ===== src/DateTime.antt =====
-- include/time_shield/date_time_conversions.hpp and date_time_struct.hpp, for integer timestamps:
-- dates with a time of day, and the lengths of months. An exception is `none`.
pub mod Split
pub mod Accepted
pub mod RoundTrip
pub mod Millis
pub mod Lengths
pub mod Fields
pub mod Days
pub mod SameYear
pub mod MilliFields
use time_shield_cpp.Base.{not, ◌&&◌, ◌||◌, Option, none, some, List, [], ◌∷◌, get_or, if◌then◌else◌}
use time_shield_cpp.Base.Int.{ℤ, pos, negsuc, pos_part, ◌+ℤ◌, ◌-ℤ◌, ◌*ℤ◌, ◌/ℤ◌, ◌==ℤ◌, leb_ℤ, ltb_ℤ}
use time_shield_cpp.Base.Word.{to_u64, to_i32}
use time_shield_cpp.Constants.{
  months_per_year, sec_per_day, sec_per_min, sec_per_hour, ms_per_sec, unix_epoch, error_timestamp,
}
use time_shield_cpp.Detail.FloorMath.{floor_div, floor_mod}
use time_shield_cpp.Detail.FastDate.{split_unix_day, fast_date_from_days}
use time_shield_cpp.Units.{ms_to_sec, ms_of_ts}
use time_shield_cpp.UnixTime.{date_to_unix_day}
use time_shield_cpp.Validation.{is_leap_year_date, is_valid_date_time}

pub record DateTimeStruct : Type 0 where
  pub year : ℤ
  pub mon : ℤ
  pub day : ℤ
  pub hour : ℤ
  pub min : ℤ
  pub sec : ℤ
  pub ms : ℤ

unfoldable pub to_date_time : ℤ → DateTimeStruct
to_date_time ts =
    let split = split_unix_day ts in
    let date = fast_date_from_days split.days in
    let day_secs = split.sec_of_day in
    let hour = day_secs /ℤ sec_per_hour in
    let min_secs = day_secs -ℤ hour *ℤ sec_per_hour in
    let min = min_secs /ℤ sec_per_min in
    record {
      year = date.year;
      mon = date.month;
      day = date.day;
      hour = hour;
      min = min;
      sec = min_secs -ℤ min *ℤ sec_per_min;
      ms = pos 0;
    }

unfoldable pub to_date_time_ms : ℤ → DateTimeStruct
to_date_time_ms ts =
    let date_time = to_date_time (ms_to_sec ts) in record date_time { ms = ms_of_ts ts }

-- The sum of `to_timestamp_unchecked` after the exchange of day and year. It is exact; the source's
-- overflows for days before -106751991167300.
unfoldable pub timestamp_sum : ℤ → ℤ → ℤ → ℤ → ℤ → ℤ → ℤ
timestamp_sum year month day hour min sec =
    let unix_day = date_to_unix_day year month day in
    unix_day *ℤ sec_per_day +ℤ sec_per_hour *ℤ hour +ℤ sec_per_min *ℤ min +ℤ sec

-- A day from 1970 on before a year up to 31 is read as year, month, day. The new year is above 31,
-- so that the second call does not exchange them again; the cast of the year to int may wrap.
unfoldable pub to_timestamp_unchecked : ℤ → ℤ → ℤ → ℤ → ℤ → ℤ → ℤ
to_timestamp_unchecked year month day hour min sec =
    if leb_ℤ unix_epoch day && leb_ℤ year (pos 31)
    then timestamp_sum day month (to_i32 (to_u64 year)) hour min sec
    else timestamp_sum year month day hour min sec

unfoldable pub checked_timestamp : ℤ → ℤ → ℤ → ℤ → ℤ → ℤ → Option ℤ
checked_timestamp year month day hour min sec =
    if not (is_valid_date_time year month day hour min sec (pos 0))
    then none
    else some (to_timestamp_unchecked year month day hour min sec)

unfoldable pub to_timestamp : ℤ → ℤ → ℤ → ℤ → ℤ → ℤ → Option ℤ
to_timestamp year month day hour min sec =
    if leb_ℤ unix_epoch day && leb_ℤ year (pos 31)
    then checked_timestamp day month (to_i32 (to_u64 year)) hour min sec
    else checked_timestamp year month day hour min sec

unfoldable pub dt_to_timestamp : DateTimeStruct → Option ℤ
dt_to_timestamp t = to_timestamp t.year t.mon t.day t.hour t.min t.sec

-- INT64_MAX and INT64_MIN.
abbrev pub int64_max : ℤ
int64_max = pos 9_223_372_036_854_775_807

abbrev pub int64_min : ℤ
int64_min = negsuc 9_223_372_036_854_775_807

-- Seconds and milliseconds joined, ERROR_TIMESTAMP where they do not fit.
unfoldable pub join_ms : ℤ → ℤ → ℤ
join_ms secs ms =
    let sec_value = secs +ℤ floor_div ms ms_per_sec in
    let ms_value = floor_mod ms ms_per_sec in
    if (ltb_ℤ (pos 0) sec_value && ltb_ℤ ((int64_max -ℤ ms_value) /ℤ ms_per_sec) sec_value)
      || (ltb_ℤ sec_value (pos 0) && ltb_ℤ sec_value (int64_min /ℤ ms_per_sec))
    then error_timestamp
    else sec_value *ℤ ms_per_sec +ℤ ms_value

abbrev pub map_some : (ℤ → ℤ) → Option ℤ → Option ℤ
map_some f none = none
map_some f (some x) = some (f x)

unfoldable pub to_timestamp_ms : ℤ → ℤ → ℤ → ℤ → ℤ → ℤ → ℤ → Option ℤ
to_timestamp_ms year month day hour min sec ms =
    map_some (λ sec_value. join_ms sec_value ms) (to_timestamp year month day hour min sec)

unfoldable pub dt_to_timestamp_ms : DateTimeStruct → Option ℤ
dt_to_timestamp_ms t = map_some (λ sec_value. join_ms sec_value t.ms) (dt_to_timestamp t)

abbrev pub num_days : List ℤ
num_days =
    pos 0
    ∷ pos 31
    ∷ pos 30
    ∷ pos 31
    ∷ pos 30
    ∷ pos 31
    ∷ pos 30
    ∷ pos 31
    ∷ pos 31
    ∷ pos 30
    ∷ pos 31
    ∷ pos 30
    ∷ pos 31
    ∷ []

unfoldable pub num_days_in_month : ℤ → ℤ → ℤ
num_days_in_month year month =
    if ltb_ℤ months_per_year month || ltb_ℤ month (pos 0)
    then pos 0
    else if month ==ℤ pos 2
    then (if is_leap_year_date year then pos 29 else pos 28)
    else get_or num_days (pos_part month) (pos 0)
