-- ===== src/DateTimeClass.antt =====
-- include/time_shield/DateTime.hpp: the class DateTime, a moment in milliseconds with a fixed offset
-- in seconds. Sums and products are exact: the code's are those of int64_t, which no test guards.
-- An exception is `none`; a method that throws none itself, but calls one that does, returns an
-- Option as well.
pub mod Fields
pub mod Bounds
pub mod Components
pub mod Days
pub mod Text
pub mod Periods
use time_shield_cpp.Base.{Bool, not, ◌&&◌, Option, some, none, if◌then◌else◌}
use time_shield_cpp.Base.Int.{ℤ, pos, ◌+ℤ◌, ◌-ℤ◌, ◌*ℤ◌, ◌==ℤ◌, ltb_ℤ, leb_ℤ}
use time_shield_cpp.Constants.{ms_per_sec, ms_per_day, sec_per_min, sec_per_hour}
use time_shield_cpp.Units.{sec_to_ms, ms_to_sec}
use time_shield_cpp.Validation.{is_valid_date_time}
use time_shield_cpp.DateTime.{
  DateTimeStruct, to_date_time_ms, to_timestamp_ms, dt_to_timestamp_ms, map_some,
}
use time_shield_cpp.IsoWeek.{IsoWeekDateStruct, iso_week_date_to_date}
use time_shield_cpp.TimeZones.{TimeZoneStruct, to_time_zone_struct, is_valid_tz_offset}

pub record DateTime : Type 0 where
  pub utc_ms : ℤ
  pub offset : ℤ

unfoldable pub offset_to_ms : ℤ → ℤ
offset_to_ms offset = offset *ℤ ms_per_sec

unfoldable pub local_ms : DateTime → ℤ
unfolding offset_to_ms
local_ms d = d.utc_ms +ℤ offset_to_ms d.offset

-- DateTime()
unfoldable pub epoch : DateTime
epoch = record { utc_ms = pos 0; offset = pos 0 }

unfoldable pub from_unix_ms : ℤ → ℤ → DateTime
from_unix_ms utc_ms offset = record { utc_ms = utc_ms; offset = offset }

unfoldable pub from_unix_s : ℤ → ℤ → DateTime
from_unix_s utc_s offset = record { utc_ms = sec_to_ms utc_s; offset = offset }

-- now_utc, where the clock shows `ts_ms`.
unfoldable pub now_utc : ℤ → ℤ → DateTime
now_utc ts_ms offset = record { utc_ms = ts_ms; offset = offset }

-- The moment of a local time, where there is one.
unfoldable pub at_local : Option ℤ → ℤ → Option DateTime
unfolding offset_to_ms
at_local none offset = none
at_local (some local) offset =
    some (record { utc_ms = local -ℤ offset_to_ms offset; offset = offset })

unfoldable pub from_components : ℤ → ℤ → ℤ → ℤ → ℤ → ℤ → ℤ → ℤ → Option DateTime
unfolding at_local
from_components year month day hour min sec ms offset =
    at_local (to_timestamp_ms year month day hour min sec ms) offset

-- Where the checks hold to_timestamp_ms may still throw, which ends the program in a function that
-- is noexcept.
unfoldable pub try_from_components : ℤ → ℤ → ℤ → ℤ → ℤ → ℤ → ℤ → ℤ → Option DateTime
unfolding at_local
try_from_components year month day hour min sec ms offset =
    if not (is_valid_date_time year month day hour min sec ms)
    then none
    else if not (is_valid_tz_offset offset)
    then none
    else at_local (to_timestamp_ms year month day hour min sec ms) offset

unfoldable pub from_date_time_struct : DateTimeStruct → ℤ → Option DateTime
unfolding at_local
from_date_time_struct local_dt offset = at_local (dt_to_timestamp_ms local_dt) offset

unfoldable pub try_from_date_time_struct : DateTimeStruct → ℤ → Option DateTime
unfolding at_local
try_from_date_time_struct t offset =
    if not (is_valid_date_time t.year t.mon t.day t.hour t.min t.sec t.ms)
    then none
    else if not (is_valid_tz_offset offset)
    then none
    else at_local (dt_to_timestamp_ms t) offset

unfoldable pub to_date_time_struct_local : DateTime → DateTimeStruct
unfolding local_ms
to_date_time_struct_local d = to_date_time_ms (local_ms d)

unfoldable pub to_date_time_struct_utc : DateTime → DateTimeStruct
to_date_time_struct_utc d = to_date_time_ms d.utc_ms

unfoldable pub from_iso_week_date : IsoWeekDateStruct → ℤ → ℤ → ℤ → ℤ → ℤ → Option DateTime
unfolding from_components
from_iso_week_date iso hour min sec ms offset = elim (iso_week_date_to_date iso) [
  | some date ↦ from_components date.year date.mon date.day hour min sec ms offset
  | none ↦ none
]

unfoldable pub unix_ms : DateTime → ℤ
unix_ms d = d.utc_ms

unfoldable pub unix_s : DateTime → ℤ
unix_s d = ms_to_sec d.utc_ms

unfoldable pub utc_offset : DateTime → ℤ
utc_offset d = d.offset

unfoldable pub time_zone : DateTime → TimeZoneStruct
time_zone d = to_time_zone_struct d.offset

-- The comparison operators.
unfoldable pub equal : DateTime → DateTime → Bool
equal d other = d.utc_ms ==ℤ other.utc_ms

unfoldable pub not_equal : DateTime → DateTime → Bool
unfolding equal
not_equal d other = not (equal d other)

unfoldable pub less : DateTime → DateTime → Bool
less d other = ltb_ℤ d.utc_ms other.utc_ms

unfoldable pub less_equal : DateTime → DateTime → Bool
less_equal d other = leb_ℤ d.utc_ms other.utc_ms

unfoldable pub greater : DateTime → DateTime → Bool
greater d other = ltb_ℤ other.utc_ms d.utc_ms

unfoldable pub greater_equal : DateTime → DateTime → Bool
greater_equal d other = leb_ℤ other.utc_ms d.utc_ms

unfoldable pub same_local : DateTime → DateTime → Bool
unfolding local_ms
same_local d other = (local_ms d ==ℤ local_ms other) && (d.offset ==ℤ other.offset)

unfoldable pub add_ms : DateTime → ℤ → DateTime
add_ms d delta_ms = record d { utc_ms = d.utc_ms +ℤ delta_ms }

unfoldable pub add_seconds : DateTime → ℤ → DateTime
unfolding add_ms
add_seconds d seconds = add_ms d (sec_to_ms seconds)

unfoldable pub add_minutes : DateTime → ℤ → DateTime
unfolding add_ms
add_minutes d minutes = add_ms d (sec_to_ms (minutes *ℤ sec_per_min))

unfoldable pub add_hours : DateTime → ℤ → DateTime
unfolding add_ms
add_hours d hours = add_ms d (sec_to_ms (hours *ℤ sec_per_hour))

unfoldable pub add_days : DateTime → ℤ → DateTime
unfolding add_ms
add_days d days = add_ms d (days *ℤ ms_per_day)

unfoldable pub diff_ms : DateTime → DateTime → ℤ
diff_ms d other = d.utc_ms -ℤ other.utc_ms

unfoldable pub with_offset : DateTime → ℤ → DateTime
with_offset d new_offset = record d { offset = new_offset }

unfoldable pub to_utc : DateTime → DateTime
unfolding with_offset
to_utc d = with_offset d (pos 0)
