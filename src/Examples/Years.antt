-- ===== src/Examples/Years.antt =====
-- The theorems on the bounds of years and months at concrete arguments, and runs about a leap day.
use time_shield_cpp.Base.{◌≡◌, refl, arith}
use time_shield_cpp.Base.Int.{pos, ◌+ℤ◌, ◌-ℤ◌, ◌*ℤ◌, ◌/ℤ◌, ◌%ℤ◌}
use time_shield_cpp.Detail.FastDate.{split_unix_day}
use time_shield_cpp.Detail.FloorMath.{floor_mod}
use time_shield_cpp.Validation.{is_leap_year_ts}
use time_shield_cpp.UnixTime.{date_to_unix_day, unix_day_to_ts}
use time_shield_cpp.DateTime.{to_date_time}
use time_shield_cpp.Periods.{start_of_day, end_of_day}
use time_shield_cpp.CalendarPeriods.{
  start_of_year, day_of_year, month_of_year, day_of_month, start_of_month, end_of_month,
}
use time_shield_cpp.CalendarPeriods.YearStart.{start_of_year-january}

-- The last second of 29 February 2024.
leap_day_runs :
    (day_of_year (pos 1_709_251_199) ≡ pos 60)
    × (month_of_year (pos 1_709_251_199) ≡ pos 2)
    × (day_of_month (pos 1_709_251_199) ≡ pos 29)
    × (start_of_month (pos 1_709_251_199) ≡ pos 1_706_745_600)
    × (end_of_month (pos 1_709_251_199) ≡ pos 1_709_251_199)
unfolding day_of_year month_of_year day_of_month start_of_month end_of_month start_of_day end_of_day
    floor_mod is_leap_year_ts ◌+ℤ◌ ◌-ℤ◌ ◌*ℤ◌ ◌/ℤ◌ ◌%ℤ◌
leap_day_runs = (refl, refl, refl, refl, refl)

start_of_year-january_example :
    (start_of_year (pos 1_709_251_199)
      ≡ unix_day_to_ts (date_to_unix_day (to_date_time (pos 1_709_251_199)).year (pos 1) (pos 1)))
    × (day_of_year (pos 1_709_251_199)
        ≡ (split_unix_day (pos 1_709_251_199)).days
          -ℤ date_to_unix_day (to_date_time (pos 1_709_251_199)).year (pos 1) (pos 1)
          +ℤ pos 1)
start_of_year-january_example =
    start_of_year-january (pos 1_709_251_199) (omega arith) (omega arith)
