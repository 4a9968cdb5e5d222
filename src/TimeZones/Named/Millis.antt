-- ===== src/TimeZones/Named/Millis.antt =====
-- The conversions of milliseconds agree with those of seconds, in every zone.
use time_shield_cpp.Base.{◌≡◌, refl, ap, sym, ◌∙◌, Bool, false}
use time_shield_cpp.Base.Int.{ℤ, pos_part, neg_part, ◌+ℤ◌, ◌==ℤ◌, int_laws, eq_of_parts}
use time_shield_cpp.Constants.{error_timestamp}
use time_shield_cpp.Units.{ms_to_sec, sec_to_ms, ms_of_ts}
use time_shield_cpp.Units.Parts.{ms_to_sec-ms_of_ts}
use time_shield_cpp.TimeZones.{to_utc, to_local, to_utc_ms, to_local_ms}
use time_shield_cpp.TimeZones.Named.{
  TimeZone, gmt, utc, eet, cet, wet, et, ct, unknown, zone_to_gmt, gmt_to_zone, ms_by_seconds,
  zone_to_gmt_ms, gmt_to_zone_ms, local_switch, local_ms_switch, gmt_switch, gmt_ms_switch,
}

-- Whether a value is the error value.
abbrev pub is_error : ℤ → Bool
is_error t = t ==ℤ error_timestamp

by_seconds :
    (convert : ℤ → TimeZone → ℤ) (t : ℤ) (zone : TimeZone)
    → is_error t ≡ false
    → is_error (convert (ms_to_sec t) zone) ≡ false
    → ms_by_seconds convert t zone ≡ sec_to_ms (convert (ms_to_sec t) zone) +ℤ ms_of_ts t
unfolding ms_by_seconds
by_seconds convert t zone plain ok =
    let (sum, _, _) = ms_to_sec-ms_of_ts t in
    rw (plain, ok)
      (ap (λ r. sec_to_ms (convert (ms_to_sec t) zone) +ℤ r)
        (eq_of_parts _ _ (omega (int_laws, ap pos_part sum, ap neg_part sum))))

module _ (t : ℤ) (plain : is_error t ≡ false) (plain_sec : is_error (ms_to_sec t) ≡ false) where
  same_ms : t ≡ sec_to_ms (ms_to_sec t) +ℤ ms_of_ts t
  same_ms = (ms_to_sec-ms_of_ts t).0

  utc_offset_ms : (off : ℤ) → to_utc_ms t off ≡ sec_to_ms (to_utc (ms_to_sec t) off) +ℤ ms_of_ts t
  unfolding to_utc_ms to_utc sec_to_ms
  utc_offset_ms off =
      let sum = same_ms in
      rw (plain, plain_sec) (eq_of_parts _ _ (omega (int_laws, ap pos_part sum, ap neg_part sum)))

  local_offset_ms :
      (off : ℤ) → to_local_ms t off ≡ sec_to_ms (to_local (ms_to_sec t) off) +ℤ ms_of_ts t
  unfolding to_local_ms to_local sec_to_ms
  local_offset_ms off =
      let sum = same_ms in
      rw (plain, plain_sec) (eq_of_parts _ _ (omega (int_laws, ap pos_part sum, ap neg_part sum)))

  zone_to_gmt-switch :
      (zone : TimeZone) → zone_to_gmt (ms_to_sec t) zone ≡ local_switch (ms_to_sec t) zone
  unfolding zone_to_gmt
  zone_to_gmt-switch zone = rw plain_sec refl

  local_switch_seconds :
      (zone : TimeZone)
      → is_error (local_switch (ms_to_sec t) zone) ≡ false
      → ms_by_seconds zone_to_gmt t zone ≡ sec_to_ms (local_switch (ms_to_sec t) zone) +ℤ ms_of_ts t
  local_switch_seconds zone ok =
      by_seconds zone_to_gmt t zone plain (ap is_error (zone_to_gmt-switch zone) ∙ ok)
      ∙ ap (λ z. sec_to_ms z +ℤ ms_of_ts t) (zone_to_gmt-switch zone)

  local_switch_ms :
      (zone : TimeZone)
      → is_error (local_switch (ms_to_sec t) zone) ≡ false
      → local_ms_switch t zone ≡ sec_to_ms (local_switch (ms_to_sec t) zone) +ℤ ms_of_ts t
  unfolding local_switch local_ms_switch
  local_switch_ms gmt ok = same_ms
  local_switch_ms utc ok = same_ms
  local_switch_ms wet ok = local_switch_seconds wet ok
  local_switch_ms cet ok = local_switch_seconds cet ok
  local_switch_ms eet ok = local_switch_seconds eet ok
  local_switch_ms et ok = local_switch_seconds et ok
  local_switch_ms ct ok = local_switch_seconds ct ok
  local_switch_ms unknown ok = absurd (cc ok)
  local_switch_ms _ ok = utc_offset_ms _

  gmt_to_zone-switch :
      (zone : TimeZone) → gmt_to_zone (ms_to_sec t) zone ≡ gmt_switch (ms_to_sec t) zone
  unfolding gmt_to_zone
  gmt_to_zone-switch zone = rw plain_sec refl

  gmt_switch_seconds :
      (zone : TimeZone)
      → is_error (gmt_switch (ms_to_sec t) zone) ≡ false
      → ms_by_seconds gmt_to_zone t zone ≡ sec_to_ms (gmt_switch (ms_to_sec t) zone) +ℤ ms_of_ts t
  gmt_switch_seconds zone ok =
      by_seconds gmt_to_zone t zone plain (ap is_error (gmt_to_zone-switch zone) ∙ ok)
      ∙ ap (λ z. sec_to_ms z +ℤ ms_of_ts t) (gmt_to_zone-switch zone)

  gmt_switch_ms :
      (zone : TimeZone)
      → is_error (gmt_switch (ms_to_sec t) zone) ≡ false
      → gmt_ms_switch t zone ≡ sec_to_ms (gmt_switch (ms_to_sec t) zone) +ℤ ms_of_ts t
  unfolding gmt_switch gmt_ms_switch
  gmt_switch_ms gmt ok = same_ms
  gmt_switch_ms utc ok = same_ms
  gmt_switch_ms wet ok = gmt_switch_seconds wet ok
  gmt_switch_ms cet ok = gmt_switch_seconds cet ok
  gmt_switch_ms eet ok = gmt_switch_seconds eet ok
  gmt_switch_ms et ok = gmt_switch_seconds et ok
  gmt_switch_ms ct ok = gmt_switch_seconds ct ok
  gmt_switch_ms unknown ok = absurd (cc ok)
  gmt_switch_ms _ ok = local_offset_ms _

-- Where a time in milliseconds, its seconds and the results of the conversions of the seconds are
-- not ERROR_TIMESTAMP, the conversions of milliseconds between a zone and UTC are those of the
-- whole seconds, with the milliseconds kept.
pub zone_to_gmt_ms-zone_to_gmt :
    (t : ℤ) (zone : TimeZone)
    → is_error t ≡ false
    → is_error (ms_to_sec t) ≡ false
    → is_error (zone_to_gmt (ms_to_sec t) zone) ≡ false
    → is_error (gmt_to_zone (ms_to_sec t) zone) ≡ false
    → (zone_to_gmt_ms t zone ≡ sec_to_ms (zone_to_gmt (ms_to_sec t) zone) +ℤ ms_of_ts t)
      × (gmt_to_zone_ms t zone ≡ sec_to_ms (gmt_to_zone (ms_to_sec t) zone) +ℤ ms_of_ts t)
unfolding zone_to_gmt_ms gmt_to_zone_ms
zone_to_gmt_ms-zone_to_gmt t zone plain plain_sec there back =
    let e = zone_to_gmt-switch t plain plain_sec zone in
    let f = gmt_to_zone-switch t plain plain_sec zone in
    (
      rw (plain, e) (local_switch_ms t plain plain_sec zone (ap is_error (sym e) ∙ there)),
      rw (plain, f) (gmt_switch_ms t plain plain_sec zone (ap is_error (sym f) ∙ back)),
    )
