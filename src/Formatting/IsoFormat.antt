-- ===== src/Formatting/IsoFormat.antt =====
-- to_string with the format of ISO 8601.
use time_shield_cpp.Base.{
  ℕ, ◌/◌, ◌%◌, ◌≤◌, ◌≡◌, refl, ap, sym, ◌∙◌, subst, List, [], ◌∷◌, ◌++◌, some, arith,
}
use time_shield_cpp.Base.Int.{ℤ, pos, ◌+ℤ◌}
use time_shield_cpp.Text.{minus_char, take, print_int, print_two}
use time_shield_cpp.Text.Printed.{digit, print_two_lem, print_four_lem}
use time_shield_cpp.DateTime.{DateTimeStruct, to_date_time}
use time_shield_cpp.DateTime.Split.{IsInt64}
use time_shield_cpp.Parser.Iso8601.{colon_char, upper_t, zero_zone, parse_iso8601}
use time_shield_cpp.Parser.Timeframe.{codes}
use time_shield_cpp.Formatting.{to_iso8601, buffer, date_text, time_text}
use time_shield_cpp.Formatting.Stamp.{stamp, IsStamp, FourDigitYear, to_date_time-HasStamp}
use time_shield_cpp.Formatting.RoundTrip.{parse_iso8601-to_iso8601}
use time_shield_cpp.Formatting.Directives.{two, case_year, case_seconds}
use time_shield_cpp.Formatting.Format.{process_format_impl, to_string}
use time_shield_cpp.Formatting.Tokens.{
  Token, literal, directive, format_of, repeated, meaning, IsFormat, to_string-meaning,
}

abbrev pub iso_tokens : List Token
iso_tokens =
    directive b'Y' 0
    ∷ literal minus_char
    ∷ directive b'm' 0
    ∷ literal minus_char
    ∷ directive b'd' 0
    ∷ literal upper_t
    ∷ directive b'H' 0
    ∷ literal colon_char
    ∷ directive b'M' 0
    ∷ literal colon_char
    ∷ directive b'S' 0
    ∷ []

iso_tokens-IsFormat : IsFormat iso_tokens
unfolding format_of repeated
iso_tokens-IsFormat = (
  refl,
  refl,
  (
    refl,
    (
      refl,
      refl,
      (refl, (refl, refl, (refl, (refl, refl, (refl, (refl, refl, (refl, (refl, tt, tt)))))))),
    ),
  ),
)

-- The texts of the directives put together.
abbrev joined : List ℕ → List ℕ → List ℕ → List ℕ → List ℕ → List ℕ → List ℕ
joined year month day hour min sec =
    year
    ++ (minus_char
        ∷ (month
            ++ (minus_char
                ∷ (day
                    ++ (upper_t ∷ (hour ++ (colon_char ∷ (min ++ (colon_char ∷ (sec ++ []))))))))))

meaning-joined :
    (process : ℕ → ℕ → List ℕ)
    → meaning process iso_tokens
      ≡ joined
          (process b'Y' 1)
          (process b'm' 1)
          (process b'd' 1)
          (process b'H' 1)
          (process b'M' 1)
          (process b'S' 1)
unfolding meaning
meaning-joined process = refl

module _ (ts utc_offset : ℤ) (dt : DateTimeStruct) where
  year_text : process_format_impl b'Y' 1 ts utc_offset dt ≡ print_int dt.year []
  unfolding process_format_impl case_year
  year_text = refl

  month_text : process_format_impl b'm' 1 ts utc_offset dt ≡ two dt.mon
  unfolding process_format_impl
  month_text = refl

  day_text : process_format_impl b'd' 1 ts utc_offset dt ≡ two dt.day
  unfolding process_format_impl
  day_text = refl

  hour_text : process_format_impl b'H' 1 ts utc_offset dt ≡ two dt.hour
  unfolding process_format_impl
  hour_text = refl

  min_text : process_format_impl b'M' 1 ts utc_offset dt ≡ two dt.min
  unfolding process_format_impl
  min_text = refl

  sec_text : process_format_impl b'S' 1 ts utc_offset dt ≡ two dt.sec
  unfolding process_format_impl case_seconds
  sec_text = refl

two_is : (k : ℕ) → k ≤ 99 → two (pos k) ≡ digit (k / 10) ∷ digit (k % 10) ∷ []
unfolding take
two_is k h = ap (take 3) (print_two_lem k [] h)

-- A field of two digits before a text.
after_field :
    (k : ℕ) (tail text : List ℕ)
    → k ≤ 99
    → tail ≡ text
    → print_two k tail ≡ digit (k / 10) ∷ digit (k % 10) ∷ text
after_field k tail text h e = ap (print_two k) e ∙ print_two_lem k text h

fields_text :
    (y m d h mi s ms : ℕ)
    → IsStamp y m d h mi s ms
    → let dt = stamp y m d h mi s ms in
      joined
        (print_int dt.year [])
        (two dt.mon)
        (two dt.day)
        (two dt.hour)
        (two dt.min)
        (two dt.sec)
      ≡ buffer (date_text minus_char dt (upper_t ∷ time_text colon_char dt []))
unfolding date_text time_text take
fields_text y m d h mi s ms v =
    let (month, day, hour, min, sec) = v.two_digits in
    let year_is = print_four_lem y [] v.year_in.0 v.year_in.1 in
    let sec_is = print_two_lem s [] (omega (arith, sec)) in
    let from_min = after_field mi _ _ (omega (arith, min)) (ap (λ t. colon_char ∷ t) sec_is) in
    let from_hour = after_field h _ _ (omega (arith, hour)) (ap (λ t. colon_char ∷ t) from_min) in
    let from_day = after_field d _ _ (omega (arith, day)) (ap (λ t. upper_t ∷ t) from_hour) in
    let from_month = after_field m _ _ (omega (arith, month)) (ap (λ t. minus_char ∷ t) from_day) in
    let from_year =
      ap (λ t. print_int (pos y) (minus_char ∷ t)) from_month
      ∙ print_four_lem y _ v.year_in.0 v.year_in.1 in
    (λ i.
      joined (year_is i) (two_is m (omega (arith, month)) i) (two_is d (omega (arith, day)) i)
        (two_is h (omega (arith, hour)) i) (two_is mi (omega (arith, min)) i)
        (two_is s (omega (arith, sec)) i))
    ∙ sym (ap (take 31) from_year)

-- What to_string prints for the format, in a year from 1000 to 9999.
to_string-buffer :
    (ts utc_offset : ℤ)
    → IsInt64 (ts +ℤ utc_offset)
    → FourDigitYear (to_date_time (ts +ℤ utc_offset)).year
    → let dt = to_date_time (ts +ℤ utc_offset) in
      to_string (format_of iso_tokens) ts utc_offset
      ≡ buffer (date_text minus_char dt (upper_t ∷ time_text colon_char dt []))
to_string-buffer ts utc_offset r year =
    let dt = to_date_time (ts +ℤ utc_offset) in
    let w = to_date_time-HasStamp (ts +ℤ utc_offset) r year in
    let process : (ℕ → ℕ → List ℕ) = λ c n. process_format_impl c n ts utc_offset dt in
    to_string-meaning iso_tokens ts utc_offset iso_tokens-IsFormat
    ∙ meaning-joined process
    ∙ (λ i.
        joined (year_text ts utc_offset dt i) (month_text ts utc_offset dt i)
          (day_text ts utc_offset dt i) (hour_text ts utc_offset dt i) (min_text ts utc_offset dt i)
          (sec_text ts utc_offset dt i))
    ∙ subst
        (λ x.
          joined (print_int x.year []) (two x.mon) (two x.day) (two x.hour) (two x.min) (two x.sec)
          ≡ buffer (date_text minus_char x (upper_t ∷ time_text colon_char x [])))
        (sym w.same) (fields_text w.y w.m w.d w.h w.mi w.s w.ms w.is_stamp)

format_is : codes "%Y-%m-%dT%H:%M:%S" ≡ format_of iso_tokens
unfolding format_of repeated
format_is = refl

-- For a local time in the range of int64_t, in a year from 1000 to 9999, to_string by the format
-- %Y-%m-%dT%H:%M:%S prints what to_iso8601 prints for the local time, and parse_iso8601 reads it
-- as the date and time of the local time, with the zone UTC.
pub to_string-iso8601 :
    (ts utc_offset : ℤ)
    → IsInt64 (ts +ℤ utc_offset)
    → FourDigitYear (to_date_time (ts +ℤ utc_offset)).year
    → let dt = to_date_time (ts +ℤ utc_offset) in
      (to_string (codes "%Y-%m-%dT%H:%M:%S") ts utc_offset ≡ to_iso8601 (ts +ℤ utc_offset))
      × (parse_iso8601 (to_string (codes "%Y-%m-%dT%H:%M:%S") ts utc_offset) ≡ some (dt, zero_zone))
unfolding to_iso8601
to_string-iso8601 ts utc_offset r year =
    let same =
      ap (λ f. to_string f ts utc_offset) format_is ∙ to_string-buffer ts utc_offset r year in
    (same, ap parse_iso8601 same ∙ (parse_iso8601-to_iso8601 (ts +ℤ utc_offset) r year).0)
