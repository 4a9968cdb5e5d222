-- ===== src/Examples/Moments.antt =====
-- The theorems on the class DateTime at a moment of 29 February 2024.
use time_shield_cpp.Base.{◌≡◌, refl, some, inl, arith}
use time_shield_cpp.Base.Int.{pos, negsuc, ◌+ℤ◌, ◌-ℤ◌, ◌≤ℤ◌}
use time_shield_cpp.Detail.FloorMath.{floor_mod}
use time_shield_cpp.Calendar.{days_in_month}
use time_shield_cpp.Constants.{ms_per_day}
use time_shield_cpp.Validation.{is_valid_date_time, is_valid_date, is_valid_time, is_leap_year_date}
use time_shield_cpp.UnixTime.{date_to_unix_day}
use time_shield_cpp.DateTime.{
  to_timestamp_ms, to_timestamp, checked_timestamp, join_ms, to_timestamp_unchecked, timestamp_sum,
}
use time_shield_cpp.TimeZones.{is_valid_tz_offset}
use time_shield_cpp.DateTimeClass.{
  DateTime, offset_to_ms, local_ms, from_components, from_date_time_struct,
  to_date_time_struct_local, at_local,
}
use time_shield_cpp.DateTimeClass.Bounds.{start_of_day, end_of_day, start_of_month, end_of_month}
use time_shield_cpp.DateTimeClass.Components.{
  from_date_time_struct-to_date_time_struct_local, to_date_time_struct_local-from_components,
}
use time_shield_cpp.DateTimeClass.Days.{start_of_day-end_of_day}
use time_shield_cpp.DateTimeClass.Periods.{HasFields, start_of_month-end_of_month}
use time_shield_cpp.DateTimeClass.Text.{try_parse_iso8601, to_iso8601, try_parse_iso8601-to_iso8601}
use time_shield_cpp.Examples.{methods}

-- The last millisecond of the day in UTC, at UTC-3:30.
abbrev moment : DateTime
moment = record { utc_ms = pos 1_709_251_199_999; offset = negsuc 12_599 }

try_parse_iso8601-to_iso8601_example : try_parse_iso8601 (to_iso8601 moment) ≡ some moment
unfolding methods local_ms offset_to_ms to_date_time_struct_local is_valid_tz_offset
try_parse_iso8601-to_iso8601_example =
    try_parse_iso8601-to_iso8601 moment refl (omega arith) (omega arith) (omega arith, omega arith)

from_date_time_struct-to_date_time_struct_local_example :
    from_date_time_struct (to_date_time_struct_local moment) (negsuc 12_599) ≡ some moment
unfolding methods local_ms offset_to_ms to_date_time_struct_local
from_date_time_struct-to_date_time_struct_local_example =
    from_date_time_struct-to_date_time_struct_local moment (omega arith) (omega arith) (omega arith)

start_of_day-end_of_day_example :
    (start_of_day moment
      ≡ some (record moment {
        utc_ms = pos 1_709_251_199_999 -ℤ floor_mod (local_ms moment) ms_per_day;
      }))
    × (end_of_day moment
        ≡ some (record moment {
          utc_ms =
              pos 1_709_251_199_999 -ℤ floor_mod (local_ms moment) ms_per_day +ℤ pos 86_399_999;
        }))
    × (pos 0 ≤ℤ floor_mod (local_ms moment) ms_per_day)
    × (floor_mod (local_ms moment) ms_per_day ≤ℤ pos 86_399_999)
unfolding methods local_ms offset_to_ms
start_of_day-end_of_day_example =
    start_of_day-end_of_day moment
      (record { low = omega arith; high = omega arith; year = omega arith })

start_of_month-end_of_month_example :
    HasFields (start_of_month moment) (negsuc 12_599) (record {
      year = pos 2024;
      mon = pos 2;
      day = pos 1;
      hour = pos 0;
      min = pos 0;
      sec = pos 0;
      ms = pos 0;
    })
    × HasFields (end_of_month moment) (negsuc 12_599) (record {
      year = pos 2024;
      mon = pos 2;
      day = pos 29;
      hour = pos 23;
      min = pos 59;
      sec = pos 59;
      ms = pos 999;
    })
unfolding methods local_ms offset_to_ms to_date_time_struct_local days_in_month
start_of_month-end_of_month_example =
    start_of_month-end_of_month moment
      (record { low = omega arith; high = omega arith; year = omega arith })

to_date_time_struct_local-from_components_example :
    (to_date_time_struct_local moment ≡ record {
      year = pos 2024;
      mon = pos 2;
      day = pos 29;
      hour = pos 20;
      min = pos 29;
      sec = pos 59;
      ms = pos 999;
    })
    × (negsuc 12_599 ≡ negsuc 12_599)
unfolding methods local_ms offset_to_ms from_components at_local to_timestamp_ms to_timestamp
    checked_timestamp is_valid_date_time is_valid_date is_leap_year_date is_valid_time join_ms
    to_timestamp_unchecked timestamp_sum date_to_unix_day floor_mod
to_date_time_struct_local-from_components_example =
    to_date_time_struct_local-from_components (pos 2024) (pos 2) (pos 29) (pos 20) (pos 29) (pos 59)
      (pos 999) (negsuc 12_599) moment (inl (omega arith)) (omega arith, omega arith) refl
      (record { low = omega arith; high = omega arith })
