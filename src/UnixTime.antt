-- ===== src/UnixTime.antt =====
-- include/time_shield/unix_time_conversions.hpp and date_conversions.hpp, for integer arguments:
-- days, seconds and years of timestamps, and the weekday of a date. A timestamp is an int64_t;
-- where a template casts its result to a narrower type, the value before that cast is modelled.
pub mod Years
pub mod Legacy
pub mod Weekday
use time_shield_cpp.Base.{if◌then◌else◌}
use time_shield_cpp.Base.Int.{ℤ, pos, ◌+ℤ◌, ◌-ℤ◌, ◌*ℤ◌, ◌/ℤ◌, ◌%ℤ◌, leb_ℤ}
use time_shield_cpp.Constants.{
  sec_per_day, ms_per_day, sec_per_min, sec_per_hour, days_per_week, months_per_year, unix_epoch,
}
use time_shield_cpp.Detail.FastDate.{
  split_unix_day, fast_year_from_days_constexpr, fast_days_from_date_constexpr,
}
use time_shield_cpp.Units.{ms_to_sec}
use time_shield_cpp.Validation.{is_leap_year_date, is_leap_year_ts, year_back}

unfoldable pub legacy_years_since_epoch : ℤ → ℤ
unfolding year_back
legacy_years_since_epoch ts = year_back ts -ℤ unix_epoch

unfoldable pub years_since_epoch : ℤ → ℤ
years_since_epoch ts =
    let split = split_unix_day ts in
    let year = fast_year_from_days_constexpr split.days in year -ℤ unix_epoch

unfoldable pub legacy_date_to_unix_day : ℤ → ℤ → ℤ → ℤ
legacy_date_to_unix_day year month day =
    let y = year -ℤ (if leb_ℤ month (pos 2) then pos 1 else pos 0) in
    let m = if leb_ℤ month (pos 2) then month +ℤ pos 9 else month -ℤ pos 3 in
    let era = (if leb_ℤ (pos 0) y then y else y -ℤ pos 399) /ℤ pos 400 in
    let yoe = y -ℤ era *ℤ pos 400 in
    let doy = (pos 153 *ℤ m +ℤ pos 2) /ℤ pos 5 +ℤ day -ℤ pos 1 in
    let doe = yoe *ℤ pos 365 +ℤ yoe /ℤ pos 4 -ℤ yoe /ℤ pos 100 +ℤ doy in
    era *ℤ pos 146097 +ℤ doe -ℤ pos 719468

unfoldable pub date_to_unix_day : ℤ → ℤ → ℤ → ℤ
date_to_unix_day year month day = fast_days_from_date_constexpr year month day

unfoldable pub days_since_epoch : ℤ → ℤ
days_since_epoch ts = ts /ℤ sec_per_day

unfoldable pub days_since_epoch_ms : ℤ → ℤ
unfolding days_since_epoch
days_since_epoch_ms t_ms = days_since_epoch (ms_to_sec t_ms)

unfoldable pub days_between : ℤ → ℤ → ℤ
days_between start stop = (stop -ℤ start) /ℤ sec_per_day

unfoldable pub unix_day_to_ts : ℤ → ℤ
unix_day_to_ts unix_day = unix_day *ℤ sec_per_day

unfoldable pub unix_day_to_ts_ms : ℤ → ℤ
unix_day_to_ts_ms unix_day = unix_day *ℤ ms_per_day

unfoldable pub end_of_day_from_unix_day : ℤ → ℤ
end_of_day_from_unix_day unix_day = unix_day *ℤ sec_per_day +ℤ sec_per_day -ℤ pos 1

unfoldable pub end_of_day_from_unix_day_ms : ℤ → ℤ
end_of_day_from_unix_day_ms unix_day = unix_day *ℤ ms_per_day +ℤ ms_per_day -ℤ pos 1

unfoldable pub start_of_next_day_from_unix_day : ℤ → ℤ
start_of_next_day_from_unix_day unix_day = unix_day *ℤ sec_per_day +ℤ sec_per_day

unfoldable pub start_of_next_day_from_unix_day_ms : ℤ → ℤ
start_of_next_day_from_unix_day_ms unix_day = unix_day *ℤ ms_per_day +ℤ ms_per_day

unfoldable pub min_since_epoch : ℤ → ℤ
min_since_epoch ts = ts /ℤ sec_per_min

unfoldable pub sec_of_day : ℤ → ℤ
sec_of_day ts = ts %ℤ sec_per_day

unfoldable pub sec_of_day_ms : ℤ → ℤ
unfolding sec_of_day
sec_of_day_ms ts_ms = sec_of_day (ms_to_sec ts_ms)

unfoldable pub sec_of_day_hms : ℤ → ℤ → ℤ → ℤ
sec_of_day_hms hour min sec = hour *ℤ sec_per_hour +ℤ min *ℤ sec_per_min +ℤ sec

unfoldable pub sec_of_min : ℤ → ℤ
sec_of_min ts = ts %ℤ sec_per_min

unfoldable pub sec_of_hour : ℤ → ℤ
sec_of_hour ts = ts %ℤ sec_per_hour

unfoldable pub year_of : ℤ → ℤ
unfolding years_since_epoch
year_of ts = years_since_epoch ts +ℤ unix_epoch

unfoldable pub year_of_ms : ℤ → ℤ
unfolding year_of
year_of_ms ts_ms = year_of (ms_to_sec ts_ms)

unfoldable pub num_days_in_year : ℤ → ℤ
num_days_in_year year = if is_leap_year_date year then pos 366 else pos 365

unfoldable pub num_days_in_year_ts : ℤ → ℤ
num_days_in_year_ts ts = if is_leap_year_ts ts then pos 366 else pos 365

unfoldable pub day_of_week_date : ℤ → ℤ → ℤ → ℤ
day_of_week_date year month day =
    let a = (pos 14 -ℤ month) /ℤ months_per_year in
    let y = year -ℤ a in
    let m = month +ℤ months_per_year *ℤ a -ℤ pos 2 in
    let r =
      pos 7000
      +ℤ (day
          +ℤ y
          +ℤ y /ℤ pos 4
          -ℤ y /ℤ pos 100
          +ℤ y /ℤ pos 400
          +ℤ (pos 31 *ℤ m) /ℤ months_per_year) in
    r %ℤ days_per_week
