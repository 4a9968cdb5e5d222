-- ===== src/Formatting/Offset.antt =====
-- The texts with an offset, which parse_iso8601 reads back.
use time_shield_cpp.Base.{
  ℕ, ◌≤◌, ◌≡◌, refl, ap, sym, subst, ◌∙◌, inl, inr, Bool-cases, true, false, List, [], ◌∷◌, Option,
  some, arith,
}
use time_shield_cpp.Base.Int.{ℤ, pos_part, ◌+ℤ◌}
use time_shield_cpp.Text.{starts_with_digit, length, print_two}
use time_shield_cpp.Units.{sec_to_ms}
use time_shield_cpp.DateTime.{to_date_time, to_date_time_ms}
use time_shield_cpp.DateTime.Split.{IsInt64}
use time_shield_cpp.TimeZones.{
  TimeZoneStruct, to_time_zone, to_time_zone_struct, time_zone_struct_to_offset, is_valid_tz_offset,
}
use time_shield_cpp.TimeZones.Summer.{time_zone_struct_to_offset-to_time_zone_struct}
use time_shield_cpp.Parser.{skip_spaces}
use time_shield_cpp.Parser.Iso8601.{colon_char, dot_char, read_fraction, read_zone}
use time_shield_cpp.Formatting.{ms_text, zone_text, to_iso8601_offset, to_iso8601_ms_offset}
use time_shield_cpp.Formatting.Stamp.{
  FourDigitYear, to_date_time-HasStamp, to_date_time_ms-HasStamp, nonneg, within,
}
use time_shield_cpp.Formatting.Zone.{zone, read_zone-zone}
use time_shield_cpp.Formatting.RoundTrip.{
  ParsesTo, text_parsed, ms_read, length-ms, length-print_two,
}

same_zone : (offset : ℤ) → to_time_zone_struct offset ≡ to_time_zone offset
unfolding to_time_zone_struct to_time_zone
same_zone offset = refl

pub zone_offset :
    (offset : ℤ)
    → is_valid_tz_offset offset ≡ true
    → time_zone_struct_to_offset (to_time_zone offset) ≡ offset
unfolding to_time_zone to_time_zone_struct
zone_offset offset valid = (time_zone_struct_to_offset-to_time_zone_struct offset valid).0

-- The parts of a valid offset.
record HasZone (tz : TimeZoneStruct) : Type 0 where
  h : ℕ
  mi : ℕ
  same : tz ≡ zone h mi tz.is_positive
  hour_in : h ≤ 23
  min_in : mi ≤ 59

offset-HasZone : (offset : ℤ) → is_valid_tz_offset offset ≡ true → HasZone (to_time_zone offset)
offset-HasZone offset valid = subst HasZone (same_zone offset) (
    let tz = to_time_zone_struct offset in
    let (_, hour, min) = time_zone_struct_to_offset-to_time_zone_struct offset valid in
    let h = nonneg tz.hour hour.0 in
    let mi = nonneg tz.min min.0 in
    record {
      h = pos_part tz.hour;
      mi = pos_part tz.min;
      same = λ i. record { hour = h i; min = mi i; is_positive = tz.is_positive };
      hour_in = omega (arith, within tz.hour 0 14 hour);
      min_in = (within tz.min 0 59 min).1;
    })

module _ (tz : TimeZoneStruct) (z : HasZone tz) where
  zone_read : read_zone (skip_spaces (zone_text tz [])) ≡ some (tz, [])
  zone_read =
      subst (λ x. read_zone (skip_spaces (zone_text x [])) ≡ some (x, [])) (sym z.same)
        (read_zone-zone z.h z.mi tz.is_positive z.hour_in z.min_in)

  length-zone : length (zone_text tz []) ≡ 6
  unfolding length zone_text
  length-zone =
      let h : (pos_part tz.hour ≡ z.h) = ap (λ (x : TimeZoneStruct). pos_part x.hour) z.same in
      let mi : (pos_part tz.min ≡ z.mi) = ap (λ (x : TimeZoneStruct). pos_part x.min) z.same in
      omega (
        arith,
        z.hour_in,
        z.min_in,
        h,
        mi,
        length-print_two (pos_part tz.hour) (colon_char ∷ print_two (pos_part tz.min) []),
        length-print_two (pos_part tz.min) [],
      )

zone_no_digit : (tz : TimeZoneStruct) → starts_with_digit (zone_text tz []) ≡ false
unfolding starts_with_digit zone_text
zone_no_digit tz = elim (Bool-cases tz.is_positive) [ inl e ↦ rw e refl | inr e ↦ rw e refl ]

no_fraction :
    (tz : TimeZoneStruct) → read_fraction true (zone_text tz []) ≡ some (0, zone_text tz [])
unfolding read_fraction zone_text
no_fraction tz = elim (Bool-cases tz.is_positive) [ inl e ↦ rw e refl | inr e ↦ rw e refl ]

-- What is printed for a time with a valid offset, in a local year from 1000 to 9999, is parsed to
-- the fields of the local time and to the zone of the offset.
pub parse_iso8601-to_iso8601_offset :
    (ts offset : ℤ)
    → is_valid_tz_offset offset ≡ true
    → IsInt64 (ts +ℤ offset)
    → FourDigitYear (to_date_time (ts +ℤ offset)).year
    → ParsesTo (to_iso8601_offset ts offset) (to_date_time (ts +ℤ offset)) (to_time_zone offset)
unfolding to_iso8601_offset
parse_iso8601-to_iso8601_offset ts offset valid r year =
    let dt = to_date_time (ts +ℤ offset) in
    let w = to_date_time-HasStamp (ts +ℤ offset) r year in
    let tz = to_time_zone offset in
    let z = offset-HasZone offset valid in
    let no_ms : (◌≡◌ {A = Option (ℕ × List ℕ)} (some (0, zone_text tz []))
        (some (pos_part dt.ms, zone_text tz []))) =
      unfold to_date_time in refl in
    text_parsed dt w _ _ (zone_text tz []) (zone_text tz []) tz (inl refl) (inl refl)
      (omega (arith, length-zone tz z)) (no_fraction tz ∙ no_ms) (zone_read tz z)

-- What is printed for a time in milliseconds with a valid offset, in a local year from 1000 to
-- 9999, is parsed to the fields of the local time and to the zone of the offset.
pub parse_iso8601-to_iso8601_ms_offset :
    (ts_ms offset : ℤ)
    → is_valid_tz_offset offset ≡ true
    → let local_ms = ts_ms +ℤ sec_to_ms offset in
      IsInt64 local_ms
      → FourDigitYear (to_date_time_ms local_ms).year
      → ParsesTo
          (to_iso8601_ms_offset ts_ms offset)
          (to_date_time_ms local_ms)
          (to_time_zone offset)
unfolding to_iso8601_ms_offset
parse_iso8601-to_iso8601_ms_offset ts_ms offset valid r year =
    let local_ms = ts_ms +ℤ sec_to_ms offset in
    let dt = to_date_time_ms local_ms in
    let w = to_date_time_ms-HasStamp local_ms r year in
    let tz = to_time_zone offset in
    let z = offset-HasZone offset valid in
    text_parsed dt w _ _ (ms_text dot_char dt (zone_text tz [])) (zone_text tz []) tz (inl refl)
      (inl refl) (omega (arith, length-zone tz z, length-ms dt w (zone_text tz [])))
      (ms_read dt w (zone_text tz []) (zone_no_digit tz)) (zone_read tz z)
