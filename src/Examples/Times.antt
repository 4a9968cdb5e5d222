-- ===== src/Examples/Times.antt =====
-- The theorems on timestamps, periods and workdays at concrete arguments.
use time_shield_cpp.Base.{◌≡◌, ◌↔◌, inl, some, arith}
use time_shield_cpp.Base.Int.{pos}
use time_shield_cpp.Validation.Dates.{InCalendar}
use time_shield_cpp.DateTime.{
  to_date_time, to_date_time_ms, to_timestamp, dt_to_timestamp, dt_to_timestamp_ms,
}
use time_shield_cpp.DateTime.RoundTrip.{IsTime, dt_to_timestamp-to_date_time}
use time_shield_cpp.DateTime.Fields.{to_timestamp-to_date_time}
use time_shield_cpp.DateTime.Millis.{dt_to_timestamp_ms-to_date_time_ms}
use time_shield_cpp.Examples.{methods}

to_timestamp-to_date_time_example :
    (to_timestamp (pos 2024) (pos 2) (pos 29) (pos 23) (pos 59) (pos 59) ≡ some (pos 1_709_251_199))
    ↔ (InCalendar (pos 2024) (pos 2) (pos 29)
        × IsTime (pos 23) (pos 59) (pos 59)
        × (to_date_time (pos 1_709_251_199) ≡ record {
          year = pos 2024;
          mon = pos 2;
          day = pos 29;
          hour = pos 23;
          min = pos 59;
          sec = pos 59;
          ms = pos 0;
        }))
to_timestamp-to_date_time_example =
    to_timestamp-to_date_time (pos 2024) (pos 2) (pos 29) (pos 23) (pos 59) (pos 59)
      (pos 1_709_251_199) (inl (omega arith)) (omega arith, omega arith)

dt_to_timestamp-to_date_time_example :
    dt_to_timestamp (to_date_time (pos 1_709_251_199)) ≡ some (pos 1_709_251_199)
unfolding methods
dt_to_timestamp-to_date_time_example =
    dt_to_timestamp-to_date_time (pos 1_709_251_199)
      (record { low = omega arith; high = omega arith }) (omega arith)

dt_to_timestamp_ms-to_date_time_ms_example :
    dt_to_timestamp_ms (to_date_time_ms (pos 1_709_251_199_999)) ≡ some (pos 1_709_251_199_999)
unfolding methods
dt_to_timestamp_ms-to_date_time_ms_example =
    dt_to_timestamp_ms-to_date_time_ms (pos 1_709_251_199_999) (omega arith) (omega arith)
      (omega arith)
