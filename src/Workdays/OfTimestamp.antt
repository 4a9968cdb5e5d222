-- ===== src/Workdays/OfTimestamp.antt =====
-- include/time_shield/workday_conversions.hpp: the overloads that take the year, the month and the
-- day from a timestamp.
use time_shield_cpp.Base.{Bool, ◌&&◌, Option}
use time_shield_cpp.Base.Int.{ℤ}
use time_shield_cpp.Units.{ms_to_sec}
use time_shield_cpp.UnixTime.{year_of, year_of_ms}
use time_shield_cpp.Validation.{is_workday_ms}
use time_shield_cpp.CalendarPeriods.{month_of_year, day_of_month}
use time_shield_cpp.Workdays.{
  is_first_workday_of_month, is_last_workday_of_month, is_within_first_workdays_of_month,
  is_within_last_workdays_of_month, start_of_first_workday_month, start_of_first_workday_month_ms,
  end_of_first_workday_month, end_of_first_workday_month_ms, start_of_last_workday_month,
  start_of_last_workday_month_ms, end_of_last_workday_month, end_of_last_workday_month_ms,
}

unfoldable pub is_first_workday_of_month_ts : ℤ → Bool
is_first_workday_of_month_ts ts =
    is_first_workday_of_month (year_of ts) (month_of_year ts) (day_of_month ts)

unfoldable pub is_first_workday_of_month_ts_ms : ℤ → Bool
is_first_workday_of_month_ts_ms ts_ms =
    is_workday_ms ts_ms
    && is_first_workday_of_month (year_of_ms ts_ms) (month_of_year (ms_to_sec ts_ms))
        (day_of_month (ms_to_sec ts_ms))

unfoldable pub is_within_first_workdays_of_month_ts : ℤ → ℤ → Bool
is_within_first_workdays_of_month_ts ts count =
    is_within_first_workdays_of_month (year_of ts) (month_of_year ts) (day_of_month ts) count

unfoldable pub is_within_first_workdays_of_month_ts_ms : ℤ → ℤ → Bool
is_within_first_workdays_of_month_ts_ms ts_ms count =
    is_workday_ms ts_ms
    && is_within_first_workdays_of_month (year_of_ms ts_ms) (month_of_year (ms_to_sec ts_ms))
        (day_of_month (ms_to_sec ts_ms)) count

unfoldable pub is_last_workday_of_month_ts : ℤ → Bool
is_last_workday_of_month_ts ts =
    is_last_workday_of_month (year_of ts) (month_of_year ts) (day_of_month ts)

unfoldable pub is_last_workday_of_month_ts_ms : ℤ → Bool
is_last_workday_of_month_ts_ms ts_ms =
    is_workday_ms ts_ms
    && is_last_workday_of_month (year_of_ms ts_ms) (month_of_year (ms_to_sec ts_ms))
        (day_of_month (ms_to_sec ts_ms))

unfoldable pub is_within_last_workdays_of_month_ts : ℤ → ℤ → Bool
is_within_last_workdays_of_month_ts ts count =
    is_within_last_workdays_of_month (year_of ts) (month_of_year ts) (day_of_month ts) count

unfoldable pub is_within_last_workdays_of_month_ts_ms : ℤ → ℤ → Bool
is_within_last_workdays_of_month_ts_ms ts_ms count =
    is_workday_ms ts_ms
    && is_within_last_workdays_of_month (year_of_ms ts_ms) (month_of_year (ms_to_sec ts_ms))
        (day_of_month (ms_to_sec ts_ms)) count

unfoldable pub start_of_first_workday_month_ts : ℤ → Option ℤ
start_of_first_workday_month_ts ts = start_of_first_workday_month (year_of ts) (month_of_year ts)

unfoldable pub start_of_first_workday_month_ts_ms : ℤ → Option ℤ
start_of_first_workday_month_ts_ms ts_ms =
    start_of_first_workday_month_ms (year_of_ms ts_ms) (month_of_year (ms_to_sec ts_ms))

unfoldable pub end_of_first_workday_month_ts : ℤ → Option ℤ
end_of_first_workday_month_ts ts = end_of_first_workday_month (year_of ts) (month_of_year ts)

unfoldable pub end_of_first_workday_month_ts_ms : ℤ → Option ℤ
end_of_first_workday_month_ts_ms ts_ms =
    end_of_first_workday_month_ms (year_of_ms ts_ms) (month_of_year (ms_to_sec ts_ms))

unfoldable pub start_of_last_workday_month_ts : ℤ → Option ℤ
start_of_last_workday_month_ts ts = start_of_last_workday_month (year_of ts) (month_of_year ts)

unfoldable pub start_of_last_workday_month_ts_ms : ℤ → Option ℤ
start_of_last_workday_month_ts_ms ts_ms =
    start_of_last_workday_month_ms (year_of_ms ts_ms) (month_of_year (ms_to_sec ts_ms))

unfoldable pub end_of_last_workday_month_ts : ℤ → Option ℤ
end_of_last_workday_month_ts ts = end_of_last_workday_month (year_of ts) (month_of_year ts)

unfoldable pub end_of_last_workday_month_ts_ms : ℤ → Option ℤ
end_of_last_workday_month_ts_ms ts_ms =
    end_of_last_workday_month_ms (year_of_ms ts_ms) (month_of_year (ms_to_sec ts_ms))
