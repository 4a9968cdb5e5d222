-- ===== src/DateTimeClass/Text.antt =====
-- include/time_shield/DateTime.hpp: a DateTime as text. A null pointer is no text.
use time_shield_cpp.Base.{
  ℕ, ◌≡◌, refl, sym, subst, true, List, Option, some, ◌>>=◌, ◌>>◌, guard, arith,
}
use time_shield_cpp.Base.Int.{negsuc, ◌+ℤ◌, ◌≤ℤ◌, parts_disjoint}
use time_shield_cpp.Units.{ms_to_sec, sec_to_ms}
use time_shield_cpp.DateTime.{to_date_time_ms, dt_to_timestamp_ms, int64_max}
use time_shield_cpp.DateTime.Split.{IsInt64}
use time_shield_cpp.DateTime.Millis.{dt_to_timestamp_ms-to_date_time_ms}
use time_shield_cpp.IsoWeek.{IsoWeekDateStruct}
use time_shield_cpp.IsoWeek.Text.{parse_iso_week_date}
use time_shield_cpp.TimeZones.{time_zone_struct_to_offset, is_valid_tz_offset}
use time_shield_cpp.Parser.Iso8601.{parse_iso8601}
use time_shield_cpp.Formatting as Formatting
use time_shield_cpp.Formatting.Stamp.{FourDigitYear}
use time_shield_cpp.Formatting.Offset.{zone_offset, parse_iso8601-to_iso8601_ms_offset}
use time_shield_cpp.DateTimeClass.{
  DateTime, offset_to_ms, local_ms, at_local, to_date_time_struct_local,
}
use time_shield_cpp.DateTimeClass.Components.{at_local-local_ms}

-- try_parse_iso8601_buffer, and parse_iso8601_buffer, which throws where this is `none`.
unfoldable pub try_parse_iso8601 : List ℕ → Option DateTime
unfolding at_local
try_parse_iso8601 str = do
  (dt, tz) ← parse_iso8601 str
  let offset = time_zone_struct_to_offset tz
  guard (is_valid_tz_offset offset)
  at_local (dt_to_timestamp_ms dt) offset

unfoldable pub try_parse_iso_week_date : List ℕ → Option IsoWeekDateStruct
try_parse_iso_week_date str = parse_iso_week_date str

unfoldable pub to_iso8601 : DateTime → List ℕ
to_iso8601 d = Formatting.to_iso8601_ms_offset d.utc_ms d.offset

unfoldable pub to_iso8601_utc : DateTime → List ℕ
to_iso8601_utc d = Formatting.to_iso8601_utc_ms d.utc_ms

unfoldable pub to_mql5_date_time : DateTime → List ℕ
unfolding local_ms
to_mql5_date_time d = Formatting.to_mql5_date_time (ms_to_sec (local_ms d))

local_is : (d : DateTime) → d.utc_ms +ℤ sec_to_ms d.offset ≡ local_ms d
unfolding local_ms offset_to_ms sec_to_ms
local_is d = refl

-- What to_iso8601 prints for a moment with a valid offset, whose local time has a year from 1000
-- to 9999 and is not one of the times that to_timestamp_ms refuses, is parsed to the same moment
-- and offset.
pub try_parse_iso8601-to_iso8601 :
    (d : DateTime)
    → is_valid_tz_offset d.offset ≡ true
    → negsuc 9_223_372_036_854_774_999 ≤ℤ local_ms d
    → local_ms d ≤ℤ int64_max
    → FourDigitYear (to_date_time_struct_local d).year
    → try_parse_iso8601 (to_iso8601 d) ≡ some d
unfolding try_parse_iso8601 to_iso8601 to_date_time_struct_local
try_parse_iso8601-to_iso8601 d valid low high year =
    let e = local_is d in
    let range : IsInt64 (local_ms d) = record {
      low = omega (arith, low, parts_disjoint (local_ms d));
      high = omega (arith, high, parts_disjoint (local_ms d));
    } in
    let parsed =
      parse_iso8601-to_iso8601_ms_offset d.utc_ms d.offset valid (subst IsInt64 (sym e) range)
        (subst (λ t. FourDigitYear (to_date_time_ms t).year) (sym e) year) in
    rw
      (
        parsed,
        zone_offset d.offset valid,
        valid,
        e,
        dt_to_timestamp_ms-to_date_time_ms (local_ms d) low high (omega (arith, year)),
      )
      (at_local-local_ms d)
