-- ===== src/Examples/Texts.antt =====
-- The theorems on texts and named time zones at concrete arguments.
use time_shield_cpp.Base.{◌≡◌, refl, some, arith, ltb, ◌&&◌, [], ◌∷◌}
use time_shield_cpp.Base.Int.{ℤ, pos, negsuc, ◌+ℤ◌}
use time_shield_cpp.Detail.FloorMath.{floor_mod}
use time_shield_cpp.Units.{ms_to_sec, sec_to_ms, ms_of_ts}
use time_shield_cpp.DateTime.{to_date_time}
use time_shield_cpp.TimeZones.{is_valid_tz_offset, to_utc, to_local}
use time_shield_cpp.TimeZones.Named.{jst, zone_to_gmt, gmt_to_zone, zone_to_gmt_ms, gmt_to_zone_ms}
use time_shield_cpp.TimeZones.Named.Millis.{zone_to_gmt_ms-zone_to_gmt}
use time_shield_cpp.Parser.{is_ascii_digit}
use time_shield_cpp.Parser.Iso8601.{zero_zone}
use time_shield_cpp.Parser.Clock.{sec_of_day_str, sec_of_day_str-to_iso8601_time}
use time_shield_cpp.Parser.Timestamps.{str_to_ts, str_to_ts_ms, str_to_ts-to_iso8601_offset}
use time_shield_cpp.Parser.Valid.{str_to_ts-parse_iso8601}
use time_shield_cpp.Parser.Timeframe.{try_parse_positive_int64, every}
use time_shield_cpp.Parser.Timeframe.Numbers.{bounded, decimal, try_parse_positive_int64-decimal}
use time_shield_cpp.Formatting.{
  to_iso8601, to_iso8601_utc, to_mql5_date_time, to_human_readable, to_iso8601_time,
  to_iso8601_offset,
}
use time_shield_cpp.Formatting.RoundTrip.{ParsesTo, parse_iso8601-to_iso8601}
use time_shield_cpp.Examples.{methods}

parse_iso8601-to_iso8601_example :
    ParsesTo (to_iso8601 (pos 1_709_251_199)) (to_date_time (pos 1_709_251_199)) zero_zone
    × ParsesTo (to_iso8601_utc (pos 1_709_251_199)) (to_date_time (pos 1_709_251_199)) zero_zone
    × ParsesTo (to_mql5_date_time (pos 1_709_251_199)) (to_date_time (pos 1_709_251_199)) zero_zone
    × ParsesTo (to_human_readable (pos 1_709_251_199)) (to_date_time (pos 1_709_251_199)) zero_zone
unfolding methods
parse_iso8601-to_iso8601_example =
    parse_iso8601-to_iso8601 (pos 1_709_251_199) (record { low = omega arith; high = omega arith })
      (omega arith, omega arith)

str_to_ts-to_iso8601_offset_example :
    str_to_ts (to_iso8601_offset (negsuc 0) (negsuc 12_599)) ≡ some (negsuc 0)
unfolding methods is_valid_tz_offset
str_to_ts-to_iso8601_offset_example =
    str_to_ts-to_iso8601_offset (negsuc 0) (negsuc 12_599) refl
      (record { low = omega arith; high = omega arith }) (omega arith, omega arith)

-- A text that is accepted.
printed-ParsesTo :
    ParsesTo (to_iso8601 (pos 1_709_251_199)) (to_date_time (pos 1_709_251_199)) zero_zone
unfolding methods
printed-ParsesTo =
    (parse_iso8601-to_iso8601 (pos 1_709_251_199) (record { low = omega arith; high = omega arith })
      (omega arith, omega arith)).0

str_to_ts-parse_iso8601_example :
    ((t : ℤ) × (str_to_ts (to_iso8601 (pos 1_709_251_199)) ≡ some t))
    × ((t : ℤ) × (str_to_ts_ms (to_iso8601 (pos 1_709_251_199)) ≡ some t))
unfolding methods
str_to_ts-parse_iso8601_example =
    str_to_ts-parse_iso8601 (to_iso8601 (pos 1_709_251_199))
      (to_date_time (pos 1_709_251_199), zero_zone) printed-ParsesTo

sec_of_day_str-to_iso8601_time_example :
    sec_of_day_str (to_iso8601_time (negsuc 0)) ≡ some (floor_mod (negsuc 0) (pos 86_400))
sec_of_day_str-to_iso8601_time_example = sec_of_day_str-to_iso8601_time (negsuc 0)

-- "15"
try_parse_positive_int64-decimal_example :
    try_parse_positive_int64 (49 ∷ 53 ∷ [])
    ≡ bounded
        (every is_ascii_digit (49 ∷ 53 ∷ []) && ltb 0 (decimal 0 (49 ∷ 53 ∷ [])))
        (decimal 0 (49 ∷ 53 ∷ []))
try_parse_positive_int64-decimal_example = try_parse_positive_int64-decimal (49 ∷ 53 ∷ [])

zone_to_gmt_ms-zone_to_gmt_example :
    (zone_to_gmt_ms (negsuc 499) jst
      ≡ sec_to_ms (zone_to_gmt (ms_to_sec (negsuc 499)) jst) +ℤ ms_of_ts (negsuc 499))
    × (gmt_to_zone_ms (negsuc 499) jst
        ≡ sec_to_ms (gmt_to_zone (ms_to_sec (negsuc 499)) jst) +ℤ ms_of_ts (negsuc 499))
unfolding methods zone_to_gmt gmt_to_zone to_utc to_local
zone_to_gmt_ms-zone_to_gmt_example = zone_to_gmt_ms-zone_to_gmt (negsuc 499) jst refl refl refl refl
