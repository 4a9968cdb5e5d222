-- ===== src/TimeZones.antt =====
-- include/time_shield/time_zone_struct.hpp, time_zone_offset.hpp, time_zone_offset_conversions.hpp
-- and the European and American rules of time_zone_conversions.hpp. The hours and minutes of an
-- offset are exact: a tz_t holds the offsets of all zones.
pub mod LastSundays
pub mod ChangeTimes
pub mod Summer
pub mod Named
use time_shield_cpp.Base.{
  List, [], ◌∷◌, ℕ, zero, suc, ◌+◌, Bool, true, false, not, ◌&&◌, ◌||◌, if◌then◌else◌,
}
use time_shield_cpp.Base.Int.{
  ℤ, pos, negsuc, pos_part, ◌+ℤ◌, ◌-ℤ◌, ◌*ℤ◌, ◌/ℤ◌, ◌%ℤ◌, ◌==ℤ◌, leb_ℤ, ltb_ℤ,
}
use time_shield_cpp.Constants.{sec_per_hour, sec_per_min, days_per_week, error_timestamp, sun}
use time_shield_cpp.Text.{plus_char, minus_char, zero_char, print_int}
use time_shield_cpp.Units.{sec_to_ms}
use time_shield_cpp.UnixTime.{day_of_week_date}
use time_shield_cpp.DateTime.{DateTimeStruct, to_date_time, num_days_in_month}
use time_shield_cpp.CalendarPeriods.{last_sunday_month_day}

pub record TimeZoneStruct : Type 0 where
  pub hour : ℤ
  pub min : ℤ
  pub is_positive : Bool

unfoldable pub to_time_zone_struct : ℤ → TimeZoneStruct
to_time_zone_struct offset =
    let abs_val = if ltb_ℤ offset (pos 0) then pos 0 -ℤ offset else offset in
    record {
      hour = abs_val /ℤ sec_per_hour;
      min = abs_val %ℤ sec_per_hour /ℤ sec_per_min;
      is_positive = leb_ℤ (pos 0) offset;
    }

-- to_time_zone, for a TimeZoneStruct.
unfoldable pub to_time_zone : ℤ → TimeZoneStruct
to_time_zone offset =
    let abs_val = if ltb_ℤ offset (pos 0) then pos 0 -ℤ offset else offset in
    record {
      hour = abs_val /ℤ sec_per_hour;
      min = abs_val %ℤ sec_per_hour /ℤ sec_per_min;
      is_positive = leb_ℤ (pos 0) offset;
    }

unfoldable pub to_tz_offset : TimeZoneStruct → ℤ
to_tz_offset tz =
    let sign = if tz.is_positive then pos 1 else negsuc 0 in
    sign *ℤ (tz.hour *ℤ sec_per_hour +ℤ tz.min *ℤ sec_per_min)

-- std::to_string writes a number as %d does.
unfoldable pub time_zone_struct_to_string : TimeZoneStruct → List ℕ
time_zone_struct_to_string tz =
    let padded = λ (n : ℤ) (tail : List ℕ).
      if ltb_ℤ n (pos 10) then zero_char ∷ print_int n tail else print_int n tail in
    (if tz.is_positive then plus_char else minus_char) ∷ padded tz.hour (58 ∷ padded tz.min [])

unfoldable pub time_zone_struct_to_offset : TimeZoneStruct → ℤ
time_zone_struct_to_offset tz =
    if tz.is_positive
    then tz.hour *ℤ sec_per_hour +ℤ tz.min *ℤ sec_per_min
    else pos 0 -ℤ (tz.hour *ℤ sec_per_hour +ℤ tz.min *ℤ sec_per_min)

unfoldable pub tz_offset_hm : ℤ → ℤ → ℤ
tz_offset_hm hour min =
    let ah = if ltb_ℤ hour (pos 0) then pos 0 -ℤ hour else hour in
    let am = if ltb_ℤ min (pos 0) then pos 0 -ℤ min else min in
    let sec = ah *ℤ sec_per_hour +ℤ am *ℤ sec_per_min in
    if ltb_ℤ hour (pos 0) then pos 0 -ℤ sec else sec

unfoldable pub is_valid_tz_offset : ℤ → Bool
is_valid_tz_offset off =
    (off %ℤ pos 60 ==ℤ pos 0)
    && leb_ℤ (negsuc 11 *ℤ sec_per_hour) off
    && leb_ℤ off (pos 14 *ℤ sec_per_hour)

unfoldable pub to_utc : ℤ → ℤ → ℤ
to_utc local utc_offset = if local ==ℤ error_timestamp then error_timestamp else local -ℤ utc_offset

unfoldable pub to_local : ℤ → ℤ → ℤ
to_local utc utc_offset = if utc ==ℤ error_timestamp then error_timestamp else utc +ℤ utc_offset

unfoldable pub to_utc_ms : ℤ → ℤ → ℤ
to_utc_ms local_ms utc_offset =
    if local_ms ==ℤ error_timestamp then error_timestamp else local_ms -ℤ sec_to_ms utc_offset

unfoldable pub to_local_ms : ℤ → ℤ → ℤ
to_local_ms utc_ms utc_offset =
    if utc_ms ==ℤ error_timestamp then error_timestamp else utc_ms +ℤ sec_to_ms utc_offset

abbrev pub mar : ℤ
mar = pos 3

abbrev pub apr : ℤ
apr = pos 4

abbrev pub oct : ℤ
oct = pos 10

abbrev pub nov : ℤ
nov = pos 11

-- The loop down from the last day of a month to `day`: the Sunday that it finds.
unfoldable pub sunday_loop : ℤ → ℤ → ℤ → ℕ → Bool × ℤ
sunday_loop year month day zero = (false, pos 0)
sunday_loop year month day (suc before) =
    let d = pos (suc before) in
    let earlier = sunday_loop year month day before in
    if ltb_ℤ d day
    then (false, pos 0)
    else if day_of_week_date year month d ==ℤ sun
    then (true, d)
    else earlier

-- The offset that cet_to_gmt_impl takes off, in hours.
unfoldable pub cet_hours : DateTimeStruct → ℤ
unfolding sunday_loop
cet_hours dt =
    let max_days = pos_part (num_days_in_month dt.year dt.mon) in
    let (found, d) = sunday_loop dt.year dt.mon dt.day max_days in
    if ltb_ℤ dt.year (pos 2002)
    then (if ltb_ℤ mar dt.mon && ltb_ℤ dt.mon oct
        then pos 2
        else if dt.mon ==ℤ mar
        then (if found
            then (if (d ==ℤ dt.day) && leb_ℤ (pos 2) dt.hour then pos 2 else pos 1)
            else pos 2)
        else if dt.mon ==ℤ oct
        then (if found then (if d ==ℤ dt.day then pos 1 else pos 2) else pos 1)
        else pos 1)
    else if ltb_ℤ mar dt.mon && ltb_ℤ dt.mon oct
    then pos 2
    else if dt.mon ==ℤ mar
    then (if found
        then (if (d ==ℤ dt.day) && leb_ℤ (pos 3) dt.hour then pos 2 else pos 1)
        else pos 2)
    else if dt.mon ==ℤ oct
    then (if found
        then (if (d ==ℤ dt.day) && leb_ℤ (pos 2) dt.hour then pos 1 else pos 2)
        else pos 1)
    else pos 1

unfoldable pub cet_to_gmt : ℤ → ℤ
unfolding cet_hours
cet_to_gmt cet = cet -ℤ sec_per_hour *ℤ cet_hours (to_date_time cet)

-- The offset that gmt_to_cet_impl adds, in hours.
unfoldable pub gmt_to_cet_hours : DateTimeStruct → ℤ
gmt_to_cet_hours dt =
    let last = last_sunday_month_day dt.year dt.mon in
    if ltb_ℤ mar dt.mon && ltb_ℤ dt.mon oct
    then pos 2
    else if dt.mon ==ℤ mar
    then (if ltb_ℤ last dt.day
        then pos 2
        else if ltb_ℤ dt.day last
        then pos 1
        else if leb_ℤ (pos 1) dt.hour
        then pos 2
        else pos 1)
    else if dt.mon ==ℤ oct
    then (if ltb_ℤ last dt.day
        then pos 1
        else if ltb_ℤ dt.day last
        then pos 2
        else if leb_ℤ (pos 1) dt.hour
        then pos 1
        else pos 2)
    else pos 1

unfoldable pub gmt_to_cet : ℤ → ℤ
unfolding gmt_to_cet_hours
gmt_to_cet gmt = gmt +ℤ sec_per_hour *ℤ gmt_to_cet_hours (to_date_time gmt)

unfoldable pub european_local_to_gmt : ℤ → ℤ → ℤ
unfolding cet_to_gmt
european_local_to_gmt local standard_offset_hours =
    cet_to_gmt (local -ℤ sec_per_hour *ℤ (standard_offset_hours -ℤ pos 1))

unfoldable pub gmt_to_european_local : ℤ → ℤ → ℤ
unfolding gmt_to_cet
gmt_to_european_local gmt standard_offset_hours =
    gmt_to_cet gmt +ℤ sec_per_hour *ℤ (standard_offset_hours -ℤ pos 1)

unfoldable pub eet_to_gmt : ℤ → ℤ
unfolding european_local_to_gmt
eet_to_gmt eet = european_local_to_gmt eet (pos 2)

unfoldable pub gmt_to_eet : ℤ → ℤ
unfolding gmt_to_european_local
gmt_to_eet gmt = gmt_to_european_local gmt (pos 2)

-- The first Sunday of a month, as is_us_eastern_dst_local finds it.
unfoldable pub first_sunday : ℤ → ℤ → ℤ
first_sunday year month =
    pos 1 +ℤ (days_per_week -ℤ day_of_week_date year month (pos 1)) %ℤ days_per_week

-- The rest of is_us_eastern_dst_local, from the month and the day of both changes.
unfoldable pub is_dst_between : DateTimeStruct → ℤ → ℤ → ℤ → ℤ → Bool
is_dst_between dt start_month start_day end_month end_day =
    if ltb_ℤ start_month dt.mon && ltb_ℤ dt.mon end_month
    then true
    else if ltb_ℤ dt.mon start_month || ltb_ℤ end_month dt.mon
    then false
    else if dt.mon ==ℤ start_month
    then (if ltb_ℤ start_day dt.day
        then true
        else if ltb_ℤ dt.day start_day
        then false
        else leb_ℤ (pos 2) dt.hour)
    else if dt.mon ==ℤ end_month
    then (if ltb_ℤ dt.day end_day
        then true
        else if ltb_ℤ end_day dt.day
        then false
        else ltb_ℤ dt.hour (pos 2))
    else false

unfoldable pub is_us_eastern_dst_local : DateTimeStruct → Bool
unfolding first_sunday is_dst_between
is_us_eastern_dst_local dt =
    if leb_ℤ (pos 2007) dt.year
    then is_dst_between dt mar (first_sunday dt.year mar +ℤ pos 7) nov (first_sunday dt.year nov)
    else is_dst_between dt apr (first_sunday dt.year apr) oct (last_sunday_month_day dt.year oct)

unfoldable pub et_to_gmt : ℤ → ℤ
unfolding is_us_eastern_dst_local
et_to_gmt et =
    let dt = to_date_time et in
    let is_dst = is_us_eastern_dst_local dt in
    et +ℤ sec_per_hour *ℤ (if is_dst then pos 4 else pos 5)

unfoldable pub gmt_to_et : ℤ → ℤ
unfolding is_us_eastern_dst_local
gmt_to_et gmt =
    let et_standard = gmt -ℤ sec_per_hour *ℤ pos 5 in
    let is_dst = is_us_eastern_dst_local (to_date_time et_standard) in
    gmt -ℤ sec_per_hour *ℤ (if is_dst then pos 4 else pos 5)

unfoldable pub ct_to_gmt : ℤ → ℤ
unfolding et_to_gmt
ct_to_gmt ct = et_to_gmt (ct +ℤ sec_per_hour)

unfoldable pub gmt_to_ct : ℤ → ℤ
unfolding gmt_to_et
gmt_to_ct gmt = gmt_to_et gmt -ℤ sec_per_hour
