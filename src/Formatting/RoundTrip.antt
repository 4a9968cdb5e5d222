-- ===== src/Formatting/RoundTrip.antt =====
-- The texts of time_formatting.hpp that parse_iso8601 reads back.
use time_shield_cpp.Base.{
  ℕ, zero, suc, ◌+◌, ◌≤◌, ◌≡◌, refl, ap, sym, subst, ◌∙◌, inl, inr, true, false, List, [], ◌∷◌,
  Option, some, arith,
}
use time_shield_cpp.Base.Int.{ℤ, pos, pos_part}
use time_shield_cpp.Text.{print_int, print_two, print_three, starts_with_digit, take, length}
use time_shield_cpp.Text.Printed.{print_two_lem, print_three_lem, print_four_lem}
use time_shield_cpp.DateTime.{DateTimeStruct, to_date_time, to_date_time_ms}
use time_shield_cpp.DateTime.Split.{IsInt64}
use time_shield_cpp.TimeZones.{TimeZoneStruct}
use time_shield_cpp.Parser.{skip_spaces, is_ascii_space}
use time_shield_cpp.Parser.Iso8601.{
  colon_char, dot_char, upper_z, zero_zone, read_fraction, read_zone, parse_iso8601,
}
use time_shield_cpp.Formatting.{
  date_text, time_text, ms_text, buffer, to_iso8601, to_iso8601_utc, to_iso8601_utc_ms,
  to_iso8601_ms, to_mql5_date_time, to_human_readable, to_human_readable_ms,
}
use time_shield_cpp.Formatting.Stamp.{
  stamp, IsStamp, HasStamp, FourDigitYear, to_date_time-HasStamp, to_date_time_ms-HasStamp,
}
use time_shield_cpp.Formatting.Fields.{IsSeparator, three_parsed}
use time_shield_cpp.Formatting.Zone.{zone}
use time_shield_cpp.Formatting.Parsed.{IsGap, date_time_parsed}

pub take_all : (n : ℕ) (p : List ℕ) → length p ≤ n → take n p ≡ p
unfolding take length
take_all zero [] h = refl
take_all zero (c ∷ p) h = absurd (omega arith)
take_all (suc n) [] h = refl
take_all (suc n) (c ∷ p) h = ap (λ t. c ∷ t) (take_all n p (omega arith))

pub length-print_two :
    (k : ℕ) (tail : List ℕ) → k ≤ 99 → length (print_two k tail) ≡ 2 + length tail
unfolding length
length-print_two k tail h = rw (print_two_lem k tail h) (omega arith)

length-print_three :
    (k : ℕ) (tail : List ℕ) → k ≤ 999 → length (print_three k tail) ≡ 3 + length tail
unfolding length
length-print_three k tail h = rw (print_three_lem k tail h) (omega arith)

length-print_int :
    (n : ℕ) (tail : List ℕ)
    → 1000 ≤ n
    → n ≤ 9999
    → length (print_int (pos n) tail) ≡ 4 + length tail
unfolding length
length-print_int n tail low high = rw (print_four_lem n tail low high) (omega arith)

module _ (y m d h mi s ms : ℕ) (v : IsStamp y m d h mi s ms) where
  length-text :
      (separator c : ℕ) (tail : List ℕ)
      → let dt = stamp y m d h mi s ms in
        length (date_text separator dt (c ∷ time_text colon_char dt tail)) ≡ 19 + length tail
  unfolding date_text time_text length
  length-text separator c tail =
      let (month, day, hour, min, sec) = v.two_digits in
      omega (
        arith,
        v.year_in,
        length-print_int y _ v.year_in.0 v.year_in.1,
        length-print_two m _,
        length-print_two d _,
        length-print_two h _,
        length-print_two mi _,
        length-print_two s tail,
      )

  -- A text that fits the buffer is parsed.
  stamp_parsed :
      (separator c : ℕ) (tail t : List ℕ) (tz : TimeZoneStruct)
      → IsSeparator separator
      → IsGap c
      → length tail ≤ 12
      → read_fraction true tail ≡ some (ms, t)
      → read_zone (skip_spaces t) ≡ some (tz, [])
      → let dt = stamp y m d h mi s ms in
        parse_iso8601 (buffer (date_text separator dt (c ∷ time_text colon_char dt tail)))
        ≡ some (dt, tz)
  stamp_parsed separator c tail t tz sep gap fits fraction zone =
      let dt = stamp y m d h mi s ms in
      ap parse_iso8601 (
        take_all 31 (date_text separator dt (c ∷ time_text colon_char dt tail))
          (omega (arith, length-text separator c tail)))
      ∙ date_time_parsed y m d h mi s ms v separator c tail t tz sep gap fraction zone

module _ (dt : DateTimeStruct) (w : HasStamp dt) where
  pub text_parsed :
      (separator c : ℕ) (tail t : List ℕ) (tz : TimeZoneStruct)
      → IsSeparator separator
      → IsGap c
      → length tail ≤ 12
      → read_fraction true tail ≡ some (pos_part dt.ms, t)
      → read_zone (skip_spaces t) ≡ some (tz, [])
      → parse_iso8601 (buffer (date_text separator dt (c ∷ time_text colon_char dt tail)))
        ≡ some (dt, tz)
  text_parsed separator c tail t tz sep gap fits fraction zone =
      let k : (pos_part dt.ms ≡ w.ms) = ap (λ (x : DateTimeStruct). pos_part x.ms) w.same in
      subst
        (λ x.
          parse_iso8601 (buffer (date_text separator x (c ∷ time_text colon_char x tail)))
          ≡ some (x, tz))
        (sym w.same)
        (stamp_parsed w.y w.m w.d w.h w.mi w.s w.ms w.is_stamp separator c tail t tz sep gap fits
          (subst (λ n. read_fraction true tail ≡ some (n, t)) k fraction) zone)

  ms_small : pos_part dt.ms ≤ 999
  ms_small = omega (arith, ap (λ (x : DateTimeStruct). pos_part x.ms) w.same, w.is_stamp.ms_in)

  pub ms_read :
      (tail : List ℕ)
      → starts_with_digit tail ≡ false
      → read_fraction true (ms_text dot_char dt tail) ≡ some (pos_part dt.ms, tail)
  unfolding read_fraction ms_text
  ms_read tail h = three_parsed (pos_part dt.ms) tail ms_small h

  pub length-ms : (tail : List ℕ) → length (ms_text dot_char dt tail) ≡ 4 + length tail
  unfolding length ms_text
  length-ms tail = omega (arith, length-print_three (pos_part dt.ms) tail ms_small)

abbrev pub ParsesTo : List ℕ → DateTimeStruct → TimeZoneStruct → Type 0
ParsesTo text dt tz = parse_iso8601 text ≡ some (dt, tz)

-- For a timestamp in a year from 1000 to 9999, what to_iso8601, to_iso8601_utc, to_mql5_date_time
-- and to_human_readable print is parsed to its date and time and to the zone UTC.
pub parse_iso8601-to_iso8601 :
    (ts : ℤ)
    → IsInt64 ts
    → FourDigitYear (to_date_time ts).year
    → let dt = to_date_time ts in
      ParsesTo (to_iso8601 ts) dt zero_zone
      × ParsesTo (to_iso8601_utc ts) dt zero_zone
      × ParsesTo (to_mql5_date_time ts) dt zero_zone
      × ParsesTo (to_human_readable ts) dt zero_zone
unfolding to_iso8601 to_iso8601_utc to_mql5_date_time to_human_readable read_fraction read_zone
    skip_spaces length is_ascii_space
parse_iso8601-to_iso8601 ts r year =
    let dt = to_date_time ts in
    let w = to_date_time-HasStamp ts r year in
    let no_ms : (◌≡◌ {A = Option (ℕ × List ℕ)} (some (0, [])) (some (pos_part dt.ms, []))) =
      unfold to_date_time in refl in
    let z_ms : (◌≡◌ {A = Option (ℕ × List ℕ)} (some (0, upper_z ∷ []))
        (some (pos_part dt.ms, upper_z ∷ []))) =
      unfold to_date_time in refl in
    (
      text_parsed dt w _ _ [] [] zero_zone (inl refl) (inl refl) (omega arith) no_ms refl,
      text_parsed dt w _ _ (upper_z ∷ []) (upper_z ∷ []) zero_zone (inl refl) (inl refl)
          (omega arith) z_ms refl,
      text_parsed dt w _ _ [] [] zero_zone (inr refl) (inr refl) (omega arith) no_ms refl,
      text_parsed dt w _ _ [] [] zero_zone (inl refl) (inr refl) (omega arith) no_ms refl,
    )

-- For a timestamp in milliseconds in a year from 1000 to 9999, what to_iso8601_ms,
-- to_iso8601_utc_ms and to_human_readable_ms print is parsed to its date and time and to the zone
-- UTC.
pub parse_iso8601-to_iso8601_ms :
    (ts_ms : ℤ)
    → IsInt64 ts_ms
    → FourDigitYear (to_date_time_ms ts_ms).year
    → let dt = to_date_time_ms ts_ms in
      ParsesTo (to_iso8601_ms ts_ms) dt zero_zone
      × ParsesTo (to_iso8601_utc_ms ts_ms) dt zero_zone
      × ParsesTo (to_human_readable_ms ts_ms) dt zero_zone
unfolding to_iso8601_ms to_iso8601_utc_ms to_human_readable_ms read_zone skip_spaces length
    starts_with_digit is_ascii_space
parse_iso8601-to_iso8601_ms ts_ms r year =
    let dt = to_date_time_ms ts_ms in
    let w = to_date_time_ms-HasStamp ts_ms r year in
    let none_after = ms_read dt w [] refl in
    (
      text_parsed dt w _ _ _ [] zero_zone (inl refl) (inl refl) (omega (arith, length-ms dt w []))
          none_after refl,
      text_parsed dt w _ _ _ (upper_z ∷ []) zero_zone (inl refl) (inl refl)
          (omega (arith, length-ms dt w (upper_z ∷ []))) (ms_read dt w (upper_z ∷ []) refl) refl,
      text_parsed dt w _ _ _ [] zero_zone (inl refl) (inr refl) (omega (arith, length-ms dt w []))
          none_after refl,
    )
