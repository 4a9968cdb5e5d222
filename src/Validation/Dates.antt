-- ===== src/Validation/Dates.antt =====
-- The dates that `is_valid_date` accepts are the dates of the calendar.
use Prim.Native.Nat.{bit_and}
use time_shield_cpp.Base.{
  ℕ, ◌-◌, ◌%◌, ◌≤◌, ◌≡◌, refl, ap, true, false, not, ◌&&◌, ◌||◌, ◌==◌, arith, ◌↔◌, ◌⊎◌,
}
use time_shield_cpp.Base.Bits.{bit_and-three, bit_and-fifteen}
use time_shield_cpp.Base.Int.{ℤ, pos, negsuc, pos_part, neg_part, ◌≤ℤ◌, ◌<ℤ◌, ltb_ℤ, leb_ℤ}
use time_shield_cpp.Base.Word.{to_u64, to_i32}
use time_shield_cpp.Constants.{min_year, max_year}
use time_shield_cpp.Calendar.{is_leap, days_in_month, IsDate}
use time_shield_cpp.Calendar.Leap.{size, rem-is_zero, leap_size, is_leap-size}
use time_shield_cpp.Validation.{is_leap_year_date, date_checks, is_valid_date}

masked : (y : ℤ) → (bit_and (to_u64 y) 3 == 0) ≡ (size y % 4 == 0)
masked (pos n) = rw (bit_and-three (to_u64 (pos n))) (ground arith)
masked (negsuc n) = rw (bit_and-three (to_u64 (negsuc n))) (ground arith)

masked_fifteen : (y : ℤ) → (bit_and (to_u64 y) 15 == 0) ≡ (size y % 16 == 0)
masked_fifteen (pos n) = rw (bit_and-fifteen (to_u64 (pos n))) (ground arith)
masked_fifteen (negsuc n) = rw (bit_and-fifteen (to_u64 (negsuc n))) (ground arith)

-- The test by masks and the remainder by 25 is the rule of leap years, for years of either sign.
pub is_leap_year_date-is_leap : (y : ℤ) → is_leap_year_date y ≡ is_leap y
unfolding is_leap_year_date
is_leap_year_date-is_leap y =
    rw (masked y, masked_fifteen y, rem-is_zero y 25, is_leap-size y) (rule (size y))
  where
    rule : (n : ℕ) → ((n % 4 == 0) && (not (n % 25 == 0) || (n % 16 == 0))) ≡ leap_size n
    rule n = ground arith

-- A date of the calendar, in the years that the library names.
pub record InCalendar (y month day : ℤ) : Type 0 where
  pub is_date : IsDate (record { year = y; month = month; day = day })
  pub low : min_year ≤ℤ y
  pub high : y ≤ℤ max_year

-- What the checks ask of a month and a day that are not negative.
Checked : ℤ → ℕ → ℕ → Type 0
Checked y m d =
    (min_year ≤ℤ y) × (y ≤ℤ max_year) × (1 ≤ m) × (m ≤ 12) × (1 ≤ d) × (d ≤ days_in_month y m)

date_checks-Checked : (y : ℤ) (m d : ℕ) → date_checks y (pos m) (pos d) ≡ true → Checked y m d
unfolding date_checks days_in_month Checked
date_checks-Checked y m d h = ground (arith, is_leap_year_date-is_leap y)

Checked-date_checks : (y : ℤ) (m d : ℕ) → Checked y m d → date_checks y (pos m) (pos d) ≡ true
unfolding date_checks days_in_month Checked
Checked-date_checks y m d h = ground (arith, is_leap_year_date-is_leap y)

-- A negative month or day is refused.
negative :
    (y : ℤ) (month day : ℤ) → date_checks y month day ≡ true → (pos 1 ≤ℤ month) × (pos 1 ≤ℤ day)
unfolding date_checks
negative y month day h = ground arith

not_swapped :
    (year day : ℤ)
    → (day ≤ℤ pos 31) ⊎ (pos 31 <ℤ year)
    → (ltb_ℤ (pos 31) day && leb_ℤ year (pos 31)) ≡ false
not_swapped year day h = ground arith

swapped :
    (year day : ℤ)
    → pos 31 <ℤ day
    → year ≤ℤ pos 31
    → (ltb_ℤ (pos 31) day && leb_ℤ year (pos 31)) ≡ true
swapped year day h k = ground arith

date_checks-InCalendar : (y m d : ℤ) → (date_checks y m d ≡ true) ↔ InCalendar y m d
unfolding Checked
date_checks-InCalendar y (pos m) (pos d) =
    (λ h. from_checks (date_checks-Checked y m d h), into_checks)
  where
    from_checks : Checked y m d → InCalendar y (pos m) (pos d)
    from_checks c = record {
      is_date = record {
        m = m;
        d = d;
        month_is = refl;
        day_is = refl;
        month_in = (c.2, c.3);
        day_in = (c.4, c.5);
      };
      low = c.0;
      high = c.1;
    }

    into_checks : InCalendar y (pos m) (pos d) → date_checks y (pos m) (pos d) ≡ true
    into_checks c =
        let em : m ≡ c.is_date.m = ap pos_part c.is_date.month_is in
        let ed : d ≡ c.is_date.d = ap pos_part c.is_date.day_is in
        Checked-date_checks y m d (
          c.low,
          c.high,
          omega (arith, em, c.is_date.month_in),
          omega (arith, em, c.is_date.month_in),
          omega (arith, ed, c.is_date.day_in),
          omega (arith, ed, c.is_date.day_in, ap (days_in_month y) em),
        )
date_checks-InCalendar y (negsuc m) d = (
  λ h. absurd (omega (arith, negative y (negsuc m) d h)),
  λ c. absurd (omega (arith, ap neg_part c.is_date.month_is)),
)
date_checks-InCalendar y (pos m) (negsuc d) = (
  λ h. absurd (omega (arith, negative y (pos m) (negsuc d) h)),
  λ c. absurd (omega (arith, ap neg_part c.is_date.day_is)),
)

-- Unless a day above 31 comes with a year up to 31, exactly the dates of the calendar are
-- accepted whose year is from MIN_YEAR to MAX_YEAR.
pub is_valid_date-InCalendar :
    (year month day : ℤ)
    → (day ≤ℤ pos 31) ⊎ (pos 31 <ℤ year)
    → (is_valid_date year month day ≡ true) ↔ InCalendar year month day
unfolding is_valid_date
is_valid_date-InCalendar year month day h =
    rw (not_swapped year day h) (date_checks-InCalendar year month day)

to_i32-year : (year : ℕ) → year ≤ 31 → to_i32 (to_u64 (pos year)) ≡ pos year
to_i32-year year h = ground arith

to_i32-wrapped :
    (year : ℕ) → 1 ≤ year → year ≤ 31 → to_i32 (to_u64 (negsuc (0xFFFF_FFFF - year))) ≡ pos year
to_i32-wrapped year h k = ground arith

-- A day above 31 and a year from 0 to 31 are taken for one another: the checks accept them
-- exactly if the exchanged date is in the calendar and from MIN_YEAR to MAX_YEAR.
pub is_valid_date-swapped :
    (year : ℕ) (month day : ℤ)
    → pos 31 <ℤ day
    → year ≤ 31
    → (is_valid_date (pos year) month day ≡ true) ↔ InCalendar day month (pos year)
unfolding is_valid_date
is_valid_date-swapped year month day h k =
    rw (swapped (pos year) day h (omega arith), to_i32-year year k)
      (date_checks-InCalendar day month (pos year))

-- The cast of the year to int wraps in the exchange of day and year: a year 2^32 below a day from
-- 1 to 31 is accepted as that day, where the exchanged date is in the calendar.
pub is_valid_date_wrapped :
    (year : ℕ) (month day : ℤ)
    → pos 31 <ℤ day
    → 1 ≤ year
    → year ≤ 31
    → InCalendar day month (pos year)
    → is_valid_date (negsuc (0xFFFF_FFFF - year)) month day ≡ true
unfolding is_valid_date
is_valid_date_wrapped year month day h k l c =
    rw (swapped (negsuc (0xFFFF_FFFF - year)) day h (omega arith), to_i32-wrapped year k l)
      ((date_checks-InCalendar day month (pos year)).1 c)
