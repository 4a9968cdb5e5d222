-- ===== src/Periods.antt =====
-- include/time_shield/date_time_conversions.hpp: the first and the last second of the minute, hour,
-- day, week or other period that a timestamp lies in, and its weekday.
pub mod Bounds
pub mod Weeks
use time_shield_cpp.Base.{if◌then◌else◌}
use time_shield_cpp.Base.Int.{ℤ, pos, ◌+ℤ◌, ◌-ℤ◌, ◌*ℤ◌, leb_ℤ}
use time_shield_cpp.Constants.{
  sec_per_day, ms_per_day, sec_per_min, sec_per_hour, ms_per_hour, days_per_week, min_per_day,
  min_per_hour, hours_per_day, error_timestamp, thu, sat,
}
use time_shield_cpp.Detail.FloorMath.{floor_div, floor_mod}
use time_shield_cpp.Units.{ms_to_sec}

unfoldable pub start_of_day : ℤ → ℤ
start_of_day ts = ts -ℤ floor_mod ts sec_per_day

unfoldable pub start_of_prev_day : ℤ → ℤ → ℤ
start_of_prev_day ts days = ts -ℤ floor_mod ts sec_per_day -ℤ sec_per_day *ℤ days

unfoldable pub start_of_day_sec : ℤ → ℤ
start_of_day_sec ts_ms = start_of_day (ms_to_sec ts_ms)

unfoldable pub start_of_day_ms : ℤ → ℤ
start_of_day_ms ts_ms = ts_ms -ℤ floor_mod ts_ms ms_per_day

unfoldable pub start_of_next_day : ℤ → ℤ → ℤ
start_of_next_day ts days = start_of_day ts +ℤ days *ℤ sec_per_day

unfoldable pub start_of_next_day_ms : ℤ → ℤ → ℤ
start_of_next_day_ms ts_ms days = start_of_day_ms ts_ms +ℤ days *ℤ ms_per_day

-- `next_day` of a timestamp.
unfoldable pub next_day_ts : ℤ → ℤ → ℤ
next_day_ts ts days = ts +ℤ days *ℤ sec_per_day

unfoldable pub next_day_ms : ℤ → ℤ → ℤ
next_day_ms ts_ms days = ts_ms +ℤ days *ℤ ms_per_day

unfoldable pub end_of_day : ℤ → ℤ
end_of_day ts = ts -ℤ floor_mod ts sec_per_day +ℤ sec_per_day -ℤ pos 1

unfoldable pub end_of_day_sec : ℤ → ℤ
end_of_day_sec ts_ms = end_of_day (ms_to_sec ts_ms)

unfoldable pub end_of_day_ms : ℤ → ℤ
end_of_day_ms ts_ms = ts_ms -ℤ floor_mod ts_ms ms_per_day +ℤ ms_per_day -ℤ pos 1

unfoldable pub weekday_of_ts : ℤ → ℤ
weekday_of_ts ts = let days = floor_div ts sec_per_day in floor_mod (days +ℤ thu) days_per_week

unfoldable pub weekday_of_ts_ms : ℤ → ℤ
weekday_of_ts_ms ts_ms = weekday_of_ts (ms_to_sec ts_ms)

unfoldable pub start_of_week : ℤ → ℤ
start_of_week ts = start_of_day ts -ℤ weekday_of_ts ts *ℤ sec_per_day

unfoldable pub end_of_week : ℤ → ℤ
end_of_week ts = start_of_day ts +ℤ (days_per_week -ℤ weekday_of_ts ts) *ℤ sec_per_day -ℤ pos 1

unfoldable pub start_of_saturday : ℤ → ℤ
start_of_saturday ts = start_of_day ts +ℤ (sat -ℤ weekday_of_ts ts) *ℤ sec_per_day

unfoldable pub start_of_hour : ℤ → ℤ
start_of_hour ts = ts -ℤ floor_mod ts sec_per_hour

unfoldable pub start_of_hour_sec : ℤ → ℤ
start_of_hour_sec ts_ms = start_of_hour (ms_to_sec ts_ms)

unfoldable pub start_of_hour_ms : ℤ → ℤ
start_of_hour_ms ts_ms = ts_ms -ℤ floor_mod ts_ms ms_per_hour

unfoldable pub end_of_hour : ℤ → ℤ
end_of_hour ts = ts -ℤ floor_mod ts sec_per_hour +ℤ sec_per_hour -ℤ pos 1

unfoldable pub end_of_hour_sec : ℤ → ℤ
end_of_hour_sec ts_ms = end_of_hour (ms_to_sec ts_ms)

unfoldable pub end_of_hour_ms : ℤ → ℤ
end_of_hour_ms ts_ms = ts_ms -ℤ floor_mod ts_ms ms_per_hour +ℤ ms_per_hour -ℤ pos 1

unfoldable pub start_of_min : ℤ → ℤ
start_of_min ts = ts -ℤ floor_mod ts sec_per_min

unfoldable pub end_of_min : ℤ → ℤ
end_of_min ts = ts -ℤ floor_mod ts sec_per_min +ℤ sec_per_min -ℤ pos 1

unfoldable pub min_of_day : ℤ → ℤ
min_of_day ts = let minutes = floor_div ts sec_per_min in floor_mod minutes min_per_day

unfoldable pub hour_of_day : ℤ → ℤ
hour_of_day ts = let hours = floor_div ts sec_per_hour in floor_mod hours hours_per_day

unfoldable pub min_of_hour : ℤ → ℤ
min_of_hour ts = let minutes = floor_div ts sec_per_min in floor_mod minutes min_per_hour

unfoldable pub start_of_period : ℤ → ℤ → ℤ
start_of_period period ts =
    if leb_ℤ period (pos 0) then error_timestamp else ts -ℤ floor_mod ts period

unfoldable pub end_of_period : ℤ → ℤ → ℤ
end_of_period period ts =
    if leb_ℤ period (pos 0) then error_timestamp else ts -ℤ floor_mod ts period +ℤ period -ℤ pos 1
