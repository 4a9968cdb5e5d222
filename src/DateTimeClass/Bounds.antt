-- ===== src/DateTimeClass/Bounds.antt =====
-- include/time_shield/DateTime.hpp: the first and the last millisecond of the local and the UTC day,
-- month and year. An exception is `none`.
use time_shield_cpp.Base.{Option, some, none}
use time_shield_cpp.Base.Int.{ℤ, pos, ◌-ℤ◌}
use time_shield_cpp.Constants.{ms_per_sec}
use time_shield_cpp.DateTime.{num_days_in_month, to_timestamp_ms}
use time_shield_cpp.DateTimeClass.{
  DateTime, at_local, to_date_time_struct_local, to_date_time_struct_utc,
}
use time_shield_cpp.DateTimeClass.Fields.{year, utc_year}

-- The moment of a UTC time, where there is one, with the offset of another.
unfoldable pub at_moment : Option ℤ → DateTime → Option DateTime
at_moment none d = none
at_moment (some utc_ms) d = some (record { utc_ms = utc_ms; offset = d.offset })

-- to_timestamp_ms at the first and at the last millisecond of a date.
unfoldable pub first_ms : ℤ → ℤ → ℤ → Option ℤ
first_ms year month day = to_timestamp_ms year month day (pos 0) (pos 0) (pos 0) (pos 0)

unfoldable pub last_ms : ℤ → ℤ → ℤ → Option ℤ
last_ms year month day =
    to_timestamp_ms year month day (pos 23) (pos 59) (pos 59) (ms_per_sec -ℤ pos 1)

unfoldable pub start_of_day : DateTime → Option DateTime
unfolding at_local first_ms to_date_time_struct_local
start_of_day d =
    let local_dt = to_date_time_struct_local d in
    at_local (first_ms local_dt.year local_dt.mon local_dt.day) d.offset

unfoldable pub end_of_day : DateTime → Option DateTime
unfolding at_local last_ms to_date_time_struct_local
end_of_day d =
    let local_dt = to_date_time_struct_local d in
    at_local (last_ms local_dt.year local_dt.mon local_dt.day) d.offset

unfoldable pub start_of_month : DateTime → Option DateTime
unfolding at_local first_ms to_date_time_struct_local
start_of_month d =
    let local_dt = to_date_time_struct_local d in
    at_local (first_ms local_dt.year local_dt.mon (pos 1)) d.offset

unfoldable pub end_of_month : DateTime → Option DateTime
unfolding at_local last_ms to_date_time_struct_local
end_of_month d =
    let local_dt = to_date_time_struct_local d in
    let days = num_days_in_month local_dt.year local_dt.mon in
    at_local (last_ms local_dt.year local_dt.mon days) d.offset

unfoldable pub start_of_year : DateTime → Option DateTime
unfolding at_local first_ms year
start_of_year d = let local_year = year d in at_local (first_ms local_year (pos 1) (pos 1)) d.offset

unfoldable pub end_of_year : DateTime → Option DateTime
unfolding at_local last_ms year
end_of_year d = let local_year = year d in at_local (last_ms local_year (pos 12) (pos 31)) d.offset

unfoldable pub start_of_utc_day : DateTime → Option DateTime
unfolding at_moment first_ms to_date_time_struct_utc
start_of_utc_day d =
    let utc_dt = to_date_time_struct_utc d in
    at_moment (first_ms utc_dt.year utc_dt.mon utc_dt.day) d

unfoldable pub end_of_utc_day : DateTime → Option DateTime
unfolding at_moment last_ms to_date_time_struct_utc
end_of_utc_day d =
    let utc_dt = to_date_time_struct_utc d in
    at_moment (last_ms utc_dt.year utc_dt.mon utc_dt.day) d

unfoldable pub start_of_utc_month : DateTime → Option DateTime
unfolding at_moment first_ms to_date_time_struct_utc
start_of_utc_month d =
    let utc_dt = to_date_time_struct_utc d in at_moment (first_ms utc_dt.year utc_dt.mon (pos 1)) d

unfoldable pub end_of_utc_month : DateTime → Option DateTime
unfolding at_moment last_ms to_date_time_struct_utc
end_of_utc_month d =
    let utc_dt = to_date_time_struct_utc d in
    let days = num_days_in_month utc_dt.year utc_dt.mon in
    at_moment (last_ms utc_dt.year utc_dt.mon days) d

unfoldable pub start_of_utc_year : DateTime → Option DateTime
unfolding at_moment first_ms utc_year
start_of_utc_year d =
    let utc_year_value = utc_year d in at_moment (first_ms utc_year_value (pos 1) (pos 1)) d

unfoldable pub end_of_utc_year : DateTime → Option DateTime
unfolding at_moment last_ms utc_year
end_of_utc_year d =
    let utc_year_value = utc_year d in at_moment (last_ms utc_year_value (pos 12) (pos 31)) d
