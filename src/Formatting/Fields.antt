-- ===== src/Formatting/Fields.antt =====
-- What the scanners of time_parser.hpp make of the fields that time_formatting.hpp prints.
use time_shield_cpp.Base.{
  ℕ, ◌/◌, ◌%◌, ◌≤◌, ◌≡◌, refl, ap, ◌∙◌, ◌⊎◌, inl, inr, true, false, ◌||◌, List, [], ◌∷◌, ◌==◌, some,
  none, arith,
}
use time_shield_cpp.Base.Int.{pos}
use time_shield_cpp.Text.{minus_char, print_int, print_two, print_three, starts_with_digit, is_end}
use time_shield_cpp.Text.Printed.{digit, print_two_lem, print_three_lem, print_four_lem}
use time_shield_cpp.IsoWeek.Text.{
  parse_iso_week_date, parse_after_year, read_dash, read_w, upper_w, lower_w,
}
use time_shield_cpp.IsoWeek.Text.Pieces.{year_read}
use time_shield_cpp.Parser.{
  is_ascii_space, is_ascii_digit, skip_spaces, parse_2digits, parse_4digits_year, fraction_loop,
  parse_fraction_to_ms,
}
use time_shield_cpp.Parser.Iso8601.{
  dot_char, upper_t, date_token, parse_date, week_or_calendar_date, calendar_date, read_separator,
}

pub digit_is : (n : ℕ) → n ≤ 9 → is_ascii_digit (digit n) ≡ true
digit_is n h = ground arith

pub two_parsed :
    (k : ℕ) (tail : List ℕ) → k ≤ 99 → parse_2digits (print_two k tail) ≡ some (k, tail)
unfolding parse_2digits
two_parsed k tail h =
    rw (print_two_lem k tail h, digit_is (k / 10) (omega arith), digit_is (k % 10) (omega arith))
      (ap (λ n. some (n, tail)) (omega arith))

year_parsed :
    (n : ℕ) (tail : List ℕ)
    → 1000 ≤ n
    → n ≤ 9999
    → parse_4digits_year (print_int (pos n) tail) ≡ some (n, tail)
unfolding parse_4digits_year
year_parsed n tail low high =
    rw
      (
        print_four_lem n tail low high,
        digit_is (n / 1000) (omega arith),
        digit_is (n / 100 % 10) (omega arith),
        digit_is (n / 10 % 10) (omega arith),
        digit_is (n % 10) (omega arith),
      )
      (ap (λ k. some (k, tail)) (omega arith))

fraction_end :
    (ms : ℕ) (tail : List ℕ)
    → starts_with_digit tail ≡ false
    → fraction_loop ms 3 tail ≡ some (ms, 3, tail)
unfolding fraction_loop starts_with_digit
fraction_end ms [] h = refl
fraction_end ms (c ∷ p) h = rw h refl

pub three_parsed :
    (k : ℕ) (tail : List ℕ)
    → k ≤ 999
    → starts_with_digit tail ≡ false
    → parse_fraction_to_ms (print_three k tail) ≡ some (k, tail)
unfolding parse_fraction_to_ms fraction_loop starts_with_digit
three_parsed k tail h e =
    rw
      (
        print_three_lem k tail h,
        digit_is (k / 100) (omega arith),
        digit_is (k / 10 % 10) (omega arith),
        digit_is (k % 10) (omega arith),
        fraction_end _ tail e,
      )
      (ap (λ n. some (n, tail)) (omega arith))

-- A digit is none of the characters between fields.
pub record IsPlain (c : ℕ) : Type 0 where
  pub space : is_ascii_space c ≡ false
  stop : (((c == upper_t) || (c == 116)) || is_ascii_space c) ≡ false
  week : ((c == upper_w) || (c == lower_w)) ≡ false

pub digit-IsPlain : (n : ℕ) → n ≤ 9 → IsPlain (digit n)
unfolding is_ascii_space
digit-IsPlain n h = record { space = ground arith; stop = ground arith; week = ground arith }

-- The separators of dates that are printed.
abbrev pub IsSeparator : ℕ → Type 0
IsSeparator c = (c ≡ minus_char) ⊎ (c ≡ dot_char)

token_char :
    (c : ℕ) (token rest p : List ℕ)
    → (((c == upper_t) || (c == 116)) || is_ascii_space c) ≡ false
    → date_token p ≡ (token, rest)
    → date_token (c ∷ p) ≡ (c ∷ token, rest)
unfolding date_token
token_char c token rest p h e = rw (h, e) refl

separator_stop :
    (c : ℕ) → IsSeparator c → (((c == upper_t) || (c == 116)) || is_ascii_space c) ≡ false
unfolding is_ascii_space
separator_stop c (inl e) = rw e refl
separator_stop c (inr e) = rw e refl

-- "%d-%.2d-%.2d"
abbrev pub date_chars : ℕ → ℕ → ℕ → ℕ → List ℕ → List ℕ
date_chars separator y m d tail =
    print_int (pos y) (separator ∷ print_two m (separator ∷ print_two d tail))

two_token :
    (k : ℕ) (token rest p : List ℕ)
    → k ≤ 99
    → date_token p ≡ (token, rest)
    → date_token (print_two k p) ≡ (print_two k token, rest)
two_token k token rest p h e =
    rw (print_two_lem k p h, print_two_lem k token h)
      (token_char _ _ _ _ (digit-IsPlain (k / 10) (omega arith)).stop
        (token_char _ _ _ _ (digit-IsPlain (k % 10) (omega arith)).stop e))

year_token :
    (n : ℕ) (token rest p : List ℕ)
    → 1000 ≤ n
    → n ≤ 9999
    → date_token p ≡ (token, rest)
    → date_token (print_int (pos n) p) ≡ (print_int (pos n) token, rest)
year_token n token rest p low high e =
    rw (print_four_lem n p low high, print_four_lem n token low high)
      (token_char _ _ _ _ (digit-IsPlain (n / 1000) (omega arith)).stop (
        token_char _ _ _ _ (digit-IsPlain (n / 100 % 10) (omega arith)).stop (
          token_char _ _ _ _ (digit-IsPlain (n / 10 % 10) (omega arith)).stop
            (token_char _ _ _ _ (digit-IsPlain (n % 10) (omega arith)).stop e))))

module _ (y m d c : ℕ) (year : (1000 ≤ y) × (y ≤ 9999)) (month : m ≤ 99) (day : d ≤ 99)
    (sep : IsSeparator c) where
  pub skip_spaces-date :
      (tail : List ℕ) → skip_spaces (date_chars c y m d tail) ≡ date_chars c y m d tail
  unfolding skip_spaces
  skip_spaces-date tail =
      rw
        (
          print_four_lem y (c ∷ print_two m (c ∷ print_two d tail)) year.0 year.1,
          (digit-IsPlain (y / 1000) (omega arith)).space,
        )
        refl

  date_token-date :
      (tail : List ℕ)
      → date_token tail ≡ ([], tail)
      → date_token (date_chars c y m d tail) ≡ (date_chars c y m d [], tail)
  date_token-date tail e =
      let stop = separator_stop c sep in
      year_token y _ _ _ year.0 year.1 (
        token_char _ _ _ _ stop
          (two_token m _ _ _ month (token_char _ _ _ _ stop (two_token d _ _ _ day e))))

  -- It is no ISO week date.
  after_year_none : (p : List ℕ) → parse_after_year (pos y) (c ∷ print_two m p) ≡ none
  unfolding parse_after_year read_dash read_w
  after_year_none p = elim sep [
    | inl e ↦ rw (e, print_two_lem m p month, (digit-IsPlain (m / 10) (omega arith)).week) refl
    | inr e ↦ rw e refl
  ]

  separator_no_digit : (p : List ℕ) → starts_with_digit (c ∷ p) ≡ false
  unfolding starts_with_digit
  separator_no_digit p = elim sep [ inl e ↦ rw e refl | inr e ↦ rw e refl ]

  week_none : parse_iso_week_date (date_chars c y m d []) ≡ none
  week_none =
      year_read (pos y) _ (omega (arith, year), omega (arith, year)) (separator_no_digit _)
      ∙ after_year_none _

  date_not_end : is_end (date_chars c y m d []) ≡ false
  unfolding is_end
  date_not_end = rw (print_four_lem y (c ∷ print_two m (c ∷ print_two d [])) year.0 year.1) refl

  separator_read : (p : List ℕ) → read_separator (c ∷ p) ≡ some p
  unfolding read_separator
  separator_read p = elim sep [ inl e ↦ rw e refl | inr e ↦ rw e refl ]

  -- A date that is printed before white space, T or the end.
  pub parse_date-date :
      (tail : List ℕ)
      → date_token tail ≡ ([], tail)
      → parse_date (date_chars c y m d tail)
        ≡ some (record { year = pos y; mon = pos m; day = pos d }, tail)
  unfolding parse_date calendar_date week_or_calendar_date
  parse_date-date tail e =
      rw
        (
          date_token-date tail e,
          date_not_end,
          week_none,
          year_parsed y (c ∷ print_two m (c ∷ print_two d tail)) year.0 year.1,
          separator_read (print_two m (c ∷ print_two d tail)),
          two_parsed m (c ∷ print_two d tail) month,
          separator_read (print_two d tail),
          two_parsed d tail day,
        )
        refl
