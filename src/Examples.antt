-- ===== src/Examples.antt =====
-- Runs of the conversions at known dates, and the theorems at concrete arguments.
mod Times
mod Moments
mod Texts
mod Exchanges
mod Pool
mod Formats
mod Timers
mod Weeks
mod Years
mod Zones
use time_shield_cpp.Base.{◌≡◌, ◌≤◌, refl, ◌↔◌, inl, true, arith}
use time_shield_cpp.Base.Int.{
  pos, negsuc, pos_part, neg_part, ◌+ℤ◌, ◌-ℤ◌, ◌*ℤ◌, ◌/ℤ◌, ◌%ℤ◌, ◌≤ℤ◌, ◌<ℤ◌,
}
use time_shield_cpp.Calendar.{IsDate, date, next_day, days_in_month, is_leap}
use time_shield_cpp.Detail.FloorMath.{floor_div, floor_mod, floor_div-floor_mod}
use time_shield_cpp.Detail.MulHi.{
  mul_hi_u64, mul_shift_u64, mul_hi_u64_constexpr, mul_hi_u64_constexpr-eq,
}
use time_shield_cpp.Detail.FastDate.{
  FastDate, split_unix_day, fast_days_from_date_constexpr, fast_days_from_date, fast_date_from_days,
  fast_date_from_days_constexpr, fast_year_from_days_constexpr, fast_year_from_days,
}
use time_shield_cpp.Detail.FastDate.RoundTrip.{fast_days-from_days, fast_date-year}
use time_shield_cpp.Detail.FastDate.Walk.{fast_days-next_day, fast_date-fast_days, fast_date-suc}
use time_shield_cpp.Detail.FastDate.Variants.{fast_date-variants}
use time_shield_cpp.Validation.{is_leap_year_date, is_valid_date, is_day_off}
use time_shield_cpp.Validation.Dates.{
  InCalendar, is_leap_year_date-is_leap, is_valid_date-InCalendar, is_valid_date-swapped,
  is_valid_date_wrapped,
}
use time_shield_cpp.Units.{ms_to_sec, hour24_to_12}
use time_shield_cpp.UnixTime.{day_of_week_date}
use time_shield_cpp.DateTime.{to_date_time, to_date_time_ms}
use time_shield_cpp.DateTime.Split.{split-floor}

-- The definitions that the runs compute.
pub methods : Unit {0}
unfolding fast_date_from_days fast_days_from_date_constexpr mul_shift_u64 mul_hi_u64 ◌-ℤ◌ ◌+ℤ◌ ◌*ℤ◌
    ◌/ℤ◌ ◌%ℤ◌ days_in_month is_leap next_day to_date_time to_date_time_ms split_unix_day ms_to_sec
    floor_div is_day_off hour24_to_12 day_of_week_date
methods = tt

abbrev pub leap_day : FastDate
leap_day = date (pos 2024) 2 29

-- 29 February 2024 is day 19782, and 1 January 1 is day -719162.
runs :
    (fast_date_from_days (pos 19782) ≡ leap_day)
    × (fast_date_from_days (negsuc 719161) ≡ date (pos 1) 1 1)
    × (fast_days_from_date_constexpr (pos 2024) (pos 2) (pos 29) ≡ pos 19782)
    × (fast_days_from_date_constexpr (negsuc 0) (pos 3) (pos 1) ≡ negsuc 719833)
unfolding methods
runs = (refl, refl, refl, refl)

pub leap_day-IsDate : IsDate leap_day
unfolding methods
leap_day-IsDate = record {
  m = 2;
  d = 29;
  month_is = refl;
  day_is = refl;
  month_in = (omega arith, omega arith);
  day_in = (omega arith, omega arith);
}

fast_days-from_days_example :
    IsDate (fast_date_from_days (pos 19782))
    × (fast_days_from_date_constexpr
          (fast_date_from_days (pos 19782)).year
          (fast_date_from_days (pos 19782)).month
          (fast_date_from_days (pos 19782)).day
        ≡ pos 19782)
fast_days-from_days_example =
    fast_days-from_days (pos 19782) (record { low = omega arith; high = omega arith })

fast_date-fast_days_example : fast_date_from_days (pos 19782) ≡ leap_day
unfolding methods
fast_date-fast_days_example =
    fast_date-fast_days leap_day leap_day-IsDate (record { low = omega arith; high = omega arith })
      (record { low = omega arith; high = omega arith })

fast_date-suc_example : fast_date_from_days (pos 19783) ≡ date (pos 2024) 3 1
unfolding methods
fast_date-suc_example =
    fast_date-suc (pos 19782) (record { low = omega arith; high = omega arith })
      (record { low = omega arith; high = omega arith })

is_valid_date-InCalendar_example :
    (is_valid_date (pos 1900) (pos 2) (pos 29) ≡ true) ↔ InCalendar (pos 1900) (pos 2) (pos 29)
is_valid_date-InCalendar_example =
    is_valid_date-InCalendar (pos 1900) (pos 2) (pos 29) (inl (omega arith))

leap_day-InCalendar : InCalendar (pos 2024) (pos 2) (pos 29)
leap_day-InCalendar = record { is_date = leap_day-IsDate; low = omega arith; high = omega arith }

fast_date-variants_example :
    (fast_date_from_days_constexpr (negsuc 9) ≡ fast_date_from_days (negsuc 9))
    × (fast_year_from_days_constexpr (negsuc 9) ≡ (fast_date_from_days (negsuc 9)).year)
    × (fast_year_from_days (negsuc 9) ≡ (fast_date_from_days (negsuc 9)).year)
    × (fast_days_from_date (pos 2024) (pos 2) (pos 29)
        ≡ fast_days_from_date_constexpr (pos 2024) (pos 2) (pos 29))
fast_date-variants_example = fast_date-variants (negsuc 9) (pos 2024) (pos 2) (pos 29)

mul_hi_u64_constexpr-eq_example :
    mul_hi_u64_constexpr 0xFFFF_FFFF_FFFF_FFFF 0xFFFF_FFFF_FFFF_FFFF ≡ 0xFFFF_FFFF_FFFF_FFFE
unfolding methods
mul_hi_u64_constexpr-eq_example =
    mul_hi_u64_constexpr-eq 0xFFFF_FFFF_FFFF_FFFF 0xFFFF_FFFF_FFFF_FFFF (omega arith) (omega arith)
