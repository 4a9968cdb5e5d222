-- ===== src/IsoWeek/Text/Pieces.antt =====
-- What each reader makes of the text that is printed for it.
use time_shield_cpp.Base.{
  ℕ, suc, ◌+◌, ◌/◌, ◌%◌, ◌≤◌, ◌≡◌, refl, ap, Bool, true, false, ◌||◌, List, [], ◌∷◌, ltb, ◌==◌,
  if◌then◌else◌, some, arith,
}
use time_shield_cpp.Base.Int.{ℤ, pos, negsuc, pos_part, ◌≤ℤ◌, int_laws, eq_of_parts}
use time_shield_cpp.Constants.{min_year, max_year}
use time_shield_cpp.Text.{
  plus_char, minus_char, zero_char, is_digit, print_digits, print_int, print_two, starts_with_digit,
  starts_with_digit-print_digits,
}
use time_shield_cpp.Text.Printed.{print_two_lem, number_read}
use time_shield_cpp.IsoWeek.{is_valid_iso_week_date}
use time_shield_cpp.IsoWeek.Text.{
  upper_w, separator, read_sign, read_dash, read_w, read_week, read_digit, read_weekday,
  parse_after_year, parse_iso_week_date,
}

read_sign-digit : (p : List ℕ) → starts_with_digit p ≡ true → read_sign p ≡ (false, p)
unfolding read_sign starts_with_digit
read_sign-digit [] h = refl
read_sign-digit (c ∷ p) h =
    let plain : (((c == plus_char) || (c == minus_char)) ≡ false) = ground arith in rw plain refl

pub year_read :
    (y : ℤ) (tail : List ℕ)
    → (min_year ≤ℤ y) × (y ≤ℤ max_year)
    → starts_with_digit tail ≡ false
    → parse_iso_week_date (print_int y tail) ≡ parse_after_year y tail
unfolding parse_iso_week_date print_int
year_read (pos n) tail r e =
    rw
      (
        read_sign-digit _ (starts_with_digit-print_digits n tail),
        starts_with_digit-print_digits n tail,
        number_read n tail (omega (arith, r.1)) e,
      )
      refl
year_read (negsuc n) tail r e =
    rw
      (starts_with_digit-print_digits (suc n) tail, number_read (suc n) tail (omega (arith, r.0)) e)
      (ap (λ y. parse_after_year y tail) (eq_of_parts _ _ (omega int_laws)))

two_read : (k : ℕ) (tail : List ℕ) → k ≤ 99 → read_week (print_two k tail) ≡ some (k, tail)
unfolding read_week
two_read k tail h =
    let tens : (is_digit (zero_char + k / 10) ≡ true) = ground arith in
    let ones : (is_digit (zero_char + k % 10) ≡ true) = ground arith in
    rw (print_two_lem k tail h, tens, ones) (ap (λ n. some (n, tail)) (omega arith))

-- The weekday that is parsed, Monday where none is printed.
abbrev pub parsed_weekday : ℤ → Bool → ℤ
parsed_weekday weekday include_weekday = if include_weekday then weekday else pos 1

abbrev pub day_text : ℤ → Bool → Bool → List ℕ
day_text weekday extended include_weekday =
    if include_weekday then separator extended (print_int weekday []) else []

one_digit : (wd : ℕ) → wd ≤ 9 → print_int (pos wd) [] ≡ (zero_char + wd) ∷ []
unfolding print_int print_digits
one_digit wd h = let small : (ltb wd 10 ≡ true) = ground arith in rw small refl

day_read :
    (wd : ℕ) (extended include_weekday : Bool)
    → wd ≤ 9
    → read_weekday extended (day_text (pos wd) extended include_weekday)
      ≡ some (pos_part (parsed_weekday (pos wd) include_weekday), [])
unfolding read_weekday read_digit
day_read wd true true h =
    let digit : (is_digit (zero_char + wd) ≡ true) = ground arith in
    rw (one_digit wd h, digit) (ap (λ n. some (n, [])) (omega arith))
day_read wd false true h =
    let digit : (is_digit (zero_char + wd) ≡ true) = ground arith in
    let no_dash : ((zero_char + wd == minus_char) ≡ false) = ground arith in
    rw (one_digit wd h, digit, no_dash) (ap (λ n. some (n, [])) (omega arith))
day_read wd true false h = refl
day_read wd false false h = refl

dash_read :
    (extended : Bool) (p : List ℕ)
    → read_dash (separator extended (upper_w ∷ p)) ≡ (extended, upper_w ∷ p)
unfolding read_dash
dash_read true p = refl
dash_read false p = refl

parsed_pos :
    (wd : ℕ) (include_weekday : Bool)
    → pos (pos_part (parsed_weekday (pos wd) include_weekday))
      ≡ parsed_weekday (pos wd) include_weekday
parsed_pos wd true = refl
parsed_pos wd false = refl

pub after_year_read :
    (y : ℤ) (k wd : ℕ) (extended include_weekday : Bool)
    → (1 ≤ k) × (k ≤ 99)
    → wd ≤ 9
    → is_valid_iso_week_date y (pos k) (parsed_weekday (pos wd) include_weekday) ≡ true
    → parse_after_year y
        (separator extended (upper_w ∷ print_two k (day_text (pos wd) extended include_weekday)))
      ≡ some (record { year = y; week = pos k; weekday = parsed_weekday (pos wd) include_weekday })
unfolding parse_after_year read_w
after_year_read y k wd extended include_weekday r h valid =
    let week : ((k == 0) ≡ false) = ground arith in
    rw
      (
        dash_read extended _,
        two_read k _ r.1,
        week,
        day_read wd extended include_weekday h,
        parsed_pos wd include_weekday,
        valid,
      )
      refl

pub after_year_start :
    (extended : Bool) (p : List ℕ) → starts_with_digit (separator extended (upper_w ∷ p)) ≡ false
unfolding starts_with_digit
after_year_start true p = refl
after_year_start false p = refl
