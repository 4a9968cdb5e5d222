-- ===== src/Formatting/Parsed.antt =====
-- A printed date and time, before what follows the seconds, is parsed.
use time_shield_cpp.Base.{
  ℕ, ◌/◌, ◌≤◌, ◌≡◌, refl, ◌⊎◌, inl, inr, true, false, List, [], ◌∷◌, some, arith,
}
use time_shield_cpp.Base.Int.{pos}
use time_shield_cpp.Text.{print_two, is_end}
use time_shield_cpp.Text.Printed.{print_two_lem}
use time_shield_cpp.TimeZones.{TimeZoneStruct}
use time_shield_cpp.Parser.{is_ascii_space, skip_spaces}
use time_shield_cpp.Parser.Iso8601.{
  colon_char, upper_t, date_token, read_t, read_fraction, read_zone, parse_time, parse_iso8601,
}
use time_shield_cpp.Formatting.{space_char, date_text, time_text}
use time_shield_cpp.Formatting.Stamp.{stamp, IsStamp}
use time_shield_cpp.Formatting.Fields.{
  IsSeparator, two_parsed, digit-IsPlain, skip_spaces-date, parse_date-date,
}

-- What separates date and time.
abbrev pub IsGap : ℕ → Type 0
IsGap c = (c ≡ upper_t) ⊎ (c ≡ space_char)

gap_read :
    (k c : ℕ) (tail : List ℕ)
    → k ≤ 99
    → IsGap c
    → read_t (c ∷ print_two k tail) ≡ some (print_two k tail)
unfolding read_t skip_spaces is_ascii_space
gap_read k c tail h (inl e) = rw e refl
gap_read k c tail h (inr e) =
    rw (e, print_two_lem k tail h, (digit-IsPlain (k / 10) (omega arith)).space) refl

gap_stop : (c : ℕ) (tail : List ℕ) → IsGap c → date_token (c ∷ tail) ≡ ([], c ∷ tail)
unfolding date_token is_ascii_space
gap_stop c tail (inl e) = rw e refl
gap_stop c tail (inr e) = rw e refl

gap_continues :
    (k c : ℕ) (tail : List ℕ)
    → k ≤ 99
    → IsGap c
    → is_end (skip_spaces (c ∷ print_two k tail)) ≡ false
unfolding is_end skip_spaces is_ascii_space
gap_continues k c tail h (inl e) = rw e refl
gap_continues k c tail h (inr e) =
    rw (e, print_two_lem k tail h, (digit-IsPlain (k / 10) (omega arith)).space) refl

module _ (y m d h mi s ms : ℕ) (v : IsStamp y m d h mi s ms) where
  time_parsed :
      (c : ℕ) (tail t : List ℕ) (tz : TimeZoneStruct)
      → IsGap c
      → read_fraction true tail ≡ some (ms, t)
      → read_zone (skip_spaces t) ≡ some (tz, [])
      → parse_time
          (record { year = pos y; mon = pos m; day = pos d })
          (c ∷ time_text colon_char (stamp y m d h mi s ms) tail)
        ≡ some (stamp y m d h mi s ms, tz)
  unfolding parse_time time_text skip_spaces is_end
  time_parsed c tail t tz gap fraction zone =
      let (_, _, hour, min, sec) = v.two_digits in
      let seconds = print_two s tail in
      let minutes = print_two mi (colon_char ∷ seconds) in
      rw
        (
          gap_read h c (colon_char ∷ minutes) (omega (arith, hour)) gap,
          two_parsed h (colon_char ∷ minutes) (omega (arith, hour)),
          two_parsed mi (colon_char ∷ seconds) (omega (arith, min)),
          two_parsed s tail (omega (arith, sec)),
          fraction,
          zone,
          v.valid,
        )
        refl

  time_continues :
      (c : ℕ) (tail : List ℕ)
      → IsGap c
      → is_end (skip_spaces (c ∷ time_text colon_char (stamp y m d h mi s ms) tail)) ≡ false
  unfolding time_text
  time_continues c tail gap =
      let (_, _, hour, _, _) = v.two_digits in gap_continues h c _ (omega (arith, hour)) gap

  pub date_time_parsed :
      (separator c : ℕ) (tail t : List ℕ) (tz : TimeZoneStruct)
      → IsSeparator separator
      → IsGap c
      → read_fraction true tail ≡ some (ms, t)
      → read_zone (skip_spaces t) ≡ some (tz, [])
      → let dt = stamp y m d h mi s ms in
        parse_iso8601 (date_text separator dt (c ∷ time_text colon_char dt tail)) ≡ some (dt, tz)
  unfolding parse_iso8601 date_text
  date_time_parsed separator c tail t tz sep gap fraction zone =
      let (month, day, _, _, _) = v.two_digits in
      let time = time_text colon_char (stamp y m d h mi s ms) tail in
      let m99 : (m ≤ 99) = omega (arith, month) in
      let d99 : (d ≤ 99) = omega (arith, day) in
      rw
        (
          skip_spaces-date y m d separator v.year_in m99 d99 sep (c ∷ time),
          parse_date-date y m d separator v.year_in m99 d99 sep (c ∷ time) (gap_stop c time gap),
          v.date_valid,
          time_continues c tail gap,
        )
        (time_parsed c tail t tz gap fraction zone)
