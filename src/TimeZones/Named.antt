-- ===== src/TimeZones/Named.antt =====
-- include/time_shield/time_zone_conversions.hpp: conversions between the zones that enums.hpp names.
pub mod Millis
use time_shield_cpp.Base.{
  ℕ, ◌≡◌, ◌≢◌, refl, ap, sym, ◌∙◌, Bool, Bool-cases, true, false, inl, inr, Option, some, none,
  if◌then◌else◌, arith,
}
use time_shield_cpp.Base.Int.{
  ℤ, pos, pos_part, neg_part, ◌+ℤ◌, ◌-ℤ◌, ◌*ℤ◌, ◌==ℤ◌, ◌≤ℤ◌, ◌<ℤ◌, int_laws, eq_of_parts,
}
use time_shield_cpp.Constants.{error_timestamp, sec_per_hour}
use time_shield_cpp.Units.{ms_to_sec, sec_to_ms, ms_of_ts}
use time_shield_cpp.Units.Parts.{ms_to_sec-ms_of_ts}
use time_shield_cpp.TimeZones.{
  to_utc, to_local, to_utc_ms, to_local_ms, cet_to_gmt, gmt_to_cet, european_local_to_gmt,
  gmt_to_european_local, eet_to_gmt, gmt_to_eet, et_to_gmt, gmt_to_et, ct_to_gmt, gmt_to_ct,
}

-- The names of enums.hpp.
pub data TimeZone : Type 0 where
  gmt utc eet cet wet eest cest west et ct : TimeZone
  ist myt wib wita wit kzt trt byt sgt ict pht gst hkt jst kst unknown : TimeZone

unfoldable pub fixed_zone_offset : TimeZone → Option ℤ
fixed_zone_offset gmt = some (pos 0)
fixed_zone_offset utc = some (pos 0)
fixed_zone_offset wet = some (pos 0)
fixed_zone_offset west = some (pos 3_600)
fixed_zone_offset cet = some (pos 3_600)
fixed_zone_offset cest = some (pos 7_200)
fixed_zone_offset eet = some (pos 7_200)
fixed_zone_offset eest = some (pos 10_800)
fixed_zone_offset ist = some (pos 19_800)
fixed_zone_offset myt = some (pos 28_800)
fixed_zone_offset wita = some (pos 28_800)
fixed_zone_offset sgt = some (pos 28_800)
fixed_zone_offset pht = some (pos 28_800)
fixed_zone_offset hkt = some (pos 28_800)
fixed_zone_offset wib = some (pos 25_200)
fixed_zone_offset ict = some (pos 25_200)
fixed_zone_offset wit = some (pos 32_400)
fixed_zone_offset jst = some (pos 32_400)
fixed_zone_offset kst = some (pos 32_400)
fixed_zone_offset kzt = some (pos 18_000)
fixed_zone_offset trt = some (pos 10_800)
fixed_zone_offset byt = some (pos 10_800)
fixed_zone_offset gst = some (pos 14_400)
fixed_zone_offset et = none
fixed_zone_offset ct = none
fixed_zone_offset unknown = none

-- A fixed offset that is applied, ERROR_TIMESTAMP for a zone that has none.
unfoldable pub by_offset : (ℤ → ℤ → ℤ) → ℤ → Option ℤ → ℤ
by_offset convert t (some utc_offset) = convert t utc_offset
by_offset convert t none = error_timestamp

-- The switch of zone_to_gmt.
unfoldable pub local_switch : ℤ → TimeZone → ℤ
unfolding fixed_zone_offset by_offset
local_switch t gmt = t
local_switch t utc = t
local_switch t wet = european_local_to_gmt t (pos 0)
local_switch t cet = cet_to_gmt t
local_switch t eet = eet_to_gmt t
local_switch t et = et_to_gmt t
local_switch t ct = ct_to_gmt t
local_switch t unknown = error_timestamp
local_switch t zone = by_offset to_utc t (fixed_zone_offset zone)

unfoldable pub zone_to_gmt : ℤ → TimeZone → ℤ
unfolding local_switch
zone_to_gmt t zone = if t ==ℤ error_timestamp then error_timestamp else local_switch t zone

-- The switch of gmt_to_zone.
unfoldable pub gmt_switch : ℤ → TimeZone → ℤ
unfolding fixed_zone_offset by_offset
gmt_switch t gmt = t
gmt_switch t utc = t
gmt_switch t wet = gmt_to_european_local t (pos 0)
gmt_switch t cet = gmt_to_cet t
gmt_switch t eet = gmt_to_eet t
gmt_switch t et = gmt_to_et t
gmt_switch t ct = gmt_to_ct t
gmt_switch t unknown = error_timestamp
gmt_switch t zone = by_offset to_local t (fixed_zone_offset zone)

unfoldable pub gmt_to_zone : ℤ → TimeZone → ℤ
unfolding gmt_switch
gmt_to_zone t zone = if t ==ℤ error_timestamp then error_timestamp else gmt_switch t zone

unfoldable pub convert_time_zone : ℤ → TimeZone → TimeZone → ℤ
unfolding zone_to_gmt gmt_to_zone
convert_time_zone local from to =
    let gmt_ts = zone_to_gmt local from in
    if gmt_ts ==ℤ error_timestamp then error_timestamp else gmt_to_zone gmt_ts to

-- zone_to_gmt_ms_by_seconds and gmt_to_zone_ms_by_seconds, for the conversion of the seconds.
unfoldable pub ms_by_seconds : (ℤ → TimeZone → ℤ) → ℤ → TimeZone → ℤ
ms_by_seconds convert t_ms zone =
    if t_ms ==ℤ error_timestamp
    then error_timestamp
    else let sec = ms_to_sec t_ms in
      let remainder_ms = t_ms -ℤ sec_to_ms sec in
      let converted = convert sec zone in
      if converted ==ℤ error_timestamp then error_timestamp else sec_to_ms converted +ℤ remainder_ms

-- The switch of zone_to_gmt_ms.
unfoldable pub local_ms_switch : ℤ → TimeZone → ℤ
unfolding fixed_zone_offset by_offset ms_by_seconds zone_to_gmt
local_ms_switch t gmt = t
local_ms_switch t utc = t
local_ms_switch t wet = ms_by_seconds zone_to_gmt t wet
local_ms_switch t cet = ms_by_seconds zone_to_gmt t cet
local_ms_switch t eet = ms_by_seconds zone_to_gmt t eet
local_ms_switch t et = ms_by_seconds zone_to_gmt t et
local_ms_switch t ct = ms_by_seconds zone_to_gmt t ct
local_ms_switch t unknown = error_timestamp
local_ms_switch t zone = by_offset to_utc_ms t (fixed_zone_offset zone)

unfoldable pub zone_to_gmt_ms : ℤ → TimeZone → ℤ
unfolding local_ms_switch
zone_to_gmt_ms t zone = if t ==ℤ error_timestamp then error_timestamp else local_ms_switch t zone

-- The switch of gmt_to_zone_ms.
unfoldable pub gmt_ms_switch : ℤ → TimeZone → ℤ
unfolding fixed_zone_offset by_offset ms_by_seconds gmt_to_zone
gmt_ms_switch t gmt = t
gmt_ms_switch t utc = t
gmt_ms_switch t wet = ms_by_seconds gmt_to_zone t wet
gmt_ms_switch t cet = ms_by_seconds gmt_to_zone t cet
gmt_ms_switch t eet = ms_by_seconds gmt_to_zone t eet
gmt_ms_switch t et = ms_by_seconds gmt_to_zone t et
gmt_ms_switch t ct = ms_by_seconds gmt_to_zone t ct
gmt_ms_switch t unknown = error_timestamp
gmt_ms_switch t zone = by_offset to_local_ms t (fixed_zone_offset zone)

unfoldable pub gmt_to_zone_ms : ℤ → TimeZone → ℤ
unfolding gmt_ms_switch
gmt_to_zone_ms t zone = if t ==ℤ error_timestamp then error_timestamp else gmt_ms_switch t zone

unfoldable pub convert_time_zone_ms : ℤ → TimeZone → TimeZone → ℤ
unfolding zone_to_gmt_ms gmt_to_zone_ms
convert_time_zone_ms local_ms from to =
    let gmt_ms = zone_to_gmt_ms local_ms from in
    if gmt_ms ==ℤ error_timestamp then error_timestamp else gmt_to_zone_ms gmt_ms to
