-- ===== src/DateTimeClass/Fields.antt =====
-- include/time_shield/DateTime.hpp: the fields of the local and the UTC time, and the predicates on
-- days.
use time_shield_cpp.Base.{Bool}
use time_shield_cpp.Base.Int.{ℤ}
use time_shield_cpp.Units.{ms_to_sec}
use time_shield_cpp.UnixTime.{day_of_week_date}
use time_shield_cpp.Validation.{is_day_off, is_workday_ms}
use time_shield_cpp.IsoWeek.{DateStruct, IsoWeekDateStruct, iso_weekday_of_date, to_iso_week_date}
use time_shield_cpp.DateTimeClass.{
  DateTime, local_ms, to_date_time_struct_local, to_date_time_struct_utc,
}
use time_shield_cpp.Validation as Validation

pub record TimeStruct : Type 0 where
  pub hour : ℤ
  pub min : ℤ
  pub sec : ℤ
  pub ms : ℤ

-- weekday_of_date
unfoldable pub weekday_of_date : DateStruct → ℤ
weekday_of_date date = day_of_week_date date.year date.mon date.day

unfoldable pub year : DateTime → ℤ
unfolding to_date_time_struct_local
year d = (to_date_time_struct_local d).year

unfoldable pub month : DateTime → ℤ
unfolding to_date_time_struct_local
month d = (to_date_time_struct_local d).mon

unfoldable pub day : DateTime → ℤ
unfolding to_date_time_struct_local
day d = (to_date_time_struct_local d).day

unfoldable pub hour : DateTime → ℤ
unfolding to_date_time_struct_local
hour d = (to_date_time_struct_local d).hour

unfoldable pub minute : DateTime → ℤ
unfolding to_date_time_struct_local
minute d = (to_date_time_struct_local d).min

unfoldable pub second : DateTime → ℤ
unfolding to_date_time_struct_local
second d = (to_date_time_struct_local d).sec

unfoldable pub millisecond : DateTime → ℤ
unfolding to_date_time_struct_local
millisecond d = (to_date_time_struct_local d).ms

unfoldable pub date : DateTime → DateStruct
unfolding to_date_time_struct_local
date d =
    let local_dt = to_date_time_struct_local d in
    record { year = local_dt.year; mon = local_dt.mon; day = local_dt.day }

unfoldable pub time_of_day : DateTime → TimeStruct
unfolding to_date_time_struct_local
time_of_day d =
    let local_dt = to_date_time_struct_local d in
    record { hour = local_dt.hour; min = local_dt.min; sec = local_dt.sec; ms = local_dt.ms }

unfoldable pub weekday : DateTime → ℤ
unfolding date weekday_of_date
weekday d = weekday_of_date (date d)

unfoldable pub iso_weekday : DateTime → ℤ
unfolding date
iso_weekday d =
    let local_date = date d in iso_weekday_of_date local_date.year local_date.mon local_date.day

unfoldable pub iso_week_date : DateTime → IsoWeekDateStruct
unfolding date
iso_week_date d =
    let local_date = date d in to_iso_week_date local_date.year local_date.mon local_date.day

unfoldable pub utc_year : DateTime → ℤ
unfolding to_date_time_struct_utc
utc_year d = (to_date_time_struct_utc d).year

unfoldable pub utc_month : DateTime → ℤ
unfolding to_date_time_struct_utc
utc_month d = (to_date_time_struct_utc d).mon

unfoldable pub utc_day : DateTime → ℤ
unfolding to_date_time_struct_utc
utc_day d = (to_date_time_struct_utc d).day

unfoldable pub utc_hour : DateTime → ℤ
unfolding to_date_time_struct_utc
utc_hour d = (to_date_time_struct_utc d).hour

unfoldable pub utc_minute : DateTime → ℤ
unfolding to_date_time_struct_utc
utc_minute d = (to_date_time_struct_utc d).min

unfoldable pub utc_second : DateTime → ℤ
unfolding to_date_time_struct_utc
utc_second d = (to_date_time_struct_utc d).sec

unfoldable pub utc_millisecond : DateTime → ℤ
unfolding to_date_time_struct_utc
utc_millisecond d = (to_date_time_struct_utc d).ms

unfoldable pub utc_date : DateTime → DateStruct
unfolding to_date_time_struct_utc
utc_date d =
    let utc_dt = to_date_time_struct_utc d in
    record { year = utc_dt.year; mon = utc_dt.mon; day = utc_dt.day }

unfoldable pub utc_time_of_day : DateTime → TimeStruct
unfolding to_date_time_struct_utc
utc_time_of_day d =
    let utc_dt = to_date_time_struct_utc d in
    record { hour = utc_dt.hour; min = utc_dt.min; sec = utc_dt.sec; ms = utc_dt.ms }

unfoldable pub utc_weekday : DateTime → ℤ
unfolding utc_date weekday_of_date
utc_weekday d = weekday_of_date (utc_date d)

unfoldable pub utc_iso_weekday : DateTime → ℤ
unfolding utc_date
utc_iso_weekday d = let utc_dt = utc_date d in iso_weekday_of_date utc_dt.year utc_dt.mon utc_dt.day

unfoldable pub utc_iso_week_date : DateTime → IsoWeekDateStruct
unfolding utc_date
utc_iso_week_date d = let utc_dt = utc_date d in to_iso_week_date utc_dt.year utc_dt.mon utc_dt.day

unfoldable pub is_workday : DateTime → Bool
unfolding local_ms
is_workday d = is_workday_ms (local_ms d)

unfoldable pub is_weekend : DateTime → Bool
unfolding local_ms
is_weekend d = is_day_off (ms_to_sec (local_ms d))

unfoldable pub utc_is_workday : DateTime → Bool
unfolding utc_date
utc_is_workday d =
    let utc_dt = utc_date d in Validation.is_workday utc_dt.year utc_dt.mon utc_dt.day

unfoldable pub utc_is_weekend : DateTime → Bool
utc_is_weekend d = is_day_off (ms_to_sec d.utc_ms)
