-- ===== src/Examples/Weeks.antt =====
-- The theorems on ISO weeks and on the workdays of a month at concrete arguments.
use time_shield_cpp.Base.{ℕ, ◌+◌, ◌≤◌, ◌≡◌, ◌↔◌, refl, true, some, List, [], ◌∷◌, arith}
use time_shield_cpp.Base.Int.{pos, ◌≤ℤ◌, ◌%ℤ◌}
use time_shield_cpp.Validation.{is_workday, is_leap_year_date}
use time_shield_cpp.Calendar.{days_in_month}
use time_shield_cpp.DateTime.{num_days_in_month}
use time_shield_cpp.IsoWeek.{
  IsoWeekDateStruct, to_iso_week_date, iso_weeks_in_year, iso_week_date_to_date,
  iso_weekday_of_date, iso_weekday_from_weekday,
}
use time_shield_cpp.UnixTime.{unix_day_to_ts, date_to_unix_day}
use time_shield_cpp.IsoWeek.RoundTrip.{iso_week_date_to_date-to_iso_week_date}
use time_shield_cpp.IsoWeek.Text.{format_iso_week_date, parse_iso_week_date}
use time_shield_cpp.IsoWeek.Text.Parsed.{parse_iso_week_date-format_iso_week_date}
use time_shield_cpp.Workdays.{
  first_workday_day, last_workday_day, is_within_first_workdays_of_month,
  is_within_last_workdays_of_month,
}
use time_shield_cpp.Workdays.Counts.{workdays_upto, is_within_workdays-upto}
use time_shield_cpp.Workdays.Ends.{first_workday_day-last_workday_day}
use time_shield_cpp.Examples.{methods, leap_day, leap_day-IsDate}

iso_week_date_to_date-to_iso_week_date_example :
    (iso_week_date_to_date (to_iso_week_date (pos 2024) (pos 2) (pos 29))
      ≡ some (record { year = pos 2024; mon = pos 2; day = pos 29 }))
    × (pos 1 ≤ℤ (to_iso_week_date (pos 2024) (pos 2) (pos 29)).week)
    × ((to_iso_week_date (pos 2024) (pos 2) (pos 29)).week
        ≤ℤ iso_weeks_in_year (to_iso_week_date (pos 2024) (pos 2) (pos 29)).year)
iso_week_date_to_date-to_iso_week_date_example =
    iso_week_date_to_date-to_iso_week_date leap_day leap_day-IsDate (omega arith) (omega arith)

-- The date of 2024-W09-4.
abbrev ninth_week : IsoWeekDateStruct
ninth_week = record { year = pos 2024; week = pos 9; weekday = pos 4 }

abbrev ninth_week_text : List ℕ
ninth_week_text = 50 ∷ 48 ∷ 50 ∷ 52 ∷ 45 ∷ 87 ∷ 48 ∷ 57 ∷ 45 ∷ 52 ∷ []

parse_iso_week_date-format_iso_week_date_example :
    parse_iso_week_date ninth_week_text ≡ some ninth_week
unfolding methods format_iso_week_date iso_weeks_in_year to_iso_week_date iso_weekday_of_date
    iso_weekday_from_weekday unix_day_to_ts date_to_unix_day
parse_iso_week_date-format_iso_week_date_example =
    parse_iso_week_date-format_iso_week_date ninth_week true true ninth_week_text (omega arith) refl

is_within_workdays-upto_example :
    ((is_within_first_workdays_of_month (pos 2024) (pos 2) (pos 29) (pos 5) ≡ true) ↔ (
      (is_workday (pos 2024) (pos 2) (pos 29) ≡ true)
      × (workdays_upto (pos 2024) (pos 2) 29 ≤ 5)
      × (5 ≤ workdays_upto (pos 2024) (pos 2) 29)))
    × ((is_within_last_workdays_of_month (pos 2024) (pos 2) (pos 29) (pos 5) ≡ true) ↔ (
        (is_workday (pos 2024) (pos 2) (pos 29) ≡ true)
        × (workdays_upto (pos 2024) (pos 2) 29 ≤ workdays_upto (pos 2024) (pos 2) 28 + 5)
        × (5 ≤ workdays_upto (pos 2024) (pos 2) 29)))
unfolding num_days_in_month is_leap_year_date ◌%ℤ◌
is_within_workdays-upto_example =
    is_within_workdays-upto (pos 2024) (pos 2) 29 5 (omega arith) (omega arith)

first_workday_day-last_workday_day_example :
    ((is_workday (pos 2024) (pos 6) (pos (first_workday_day (pos 2024) (pos 6))) ≡ true)
      × (first_workday_day (pos 2024) (pos 6) ≤ 3)
      × (workdays_upto (pos 2024) (pos 6) (first_workday_day (pos 2024) (pos 6)) ≡ 1))
    × ((is_workday (pos 2024) (pos 6) (pos (last_workday_day (pos 2024) (pos 6))) ≡ true)
        × (days_in_month (pos 2024) 6 ≤ last_workday_day (pos 2024) (pos 6) + 2)
        × (last_workday_day (pos 2024) (pos 6) ≤ days_in_month (pos 2024) 6)
        × (workdays_upto (pos 2024) (pos 6) (last_workday_day (pos 2024) (pos 6))
            ≡ workdays_upto (pos 2024) (pos 6) (days_in_month (pos 2024) 6)))
first_workday_day-last_workday_day_example =
    first_workday_day-last_workday_day (pos 2024) 6
      (record { low = omega arith; high = omega arith; month_in = (omega arith, omega arith) })
