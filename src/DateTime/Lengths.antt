-- ===== src/DateTime/Lengths.antt =====
-- The lengths of months.
use time_shield_cpp.Base.{ℕ, ◌≤◌, ◌≡◌, refl, if◌then◌else◌, true, false, Bool}
use time_shield_cpp.Base.Int.{ℤ, pos}
use time_shield_cpp.Base.Months.{ForMonths, months_elim}
use time_shield_cpp.Calendar.{days_in_month, is_leap}
use time_shield_cpp.Validation.Dates.{is_leap_year_date-is_leap}
use time_shield_cpp.DateTime.{num_days_in_month}

february : (b : Bool) → (if b then pos 29 else pos 28) ≡ pos (if b then 29 else 28)
february true = refl
february false = refl

AtMonth : ℤ → ℕ → Type 0
AtMonth y m = num_days_in_month y (pos m) ≡ pos (days_in_month y m)

at_months : (y : ℤ) → ForMonths (AtMonth y)
unfolding AtMonth num_days_in_month days_in_month
at_months y = record {
  p1 = refl;
  p2 = rw (is_leap_year_date-is_leap y) (february (is_leap y));
  p3 = refl;
  p4 = refl;
  p5 = refl;
  p6 = refl;
  p7 = refl;
  p8 = refl;
  p9 = refl;
  p10 = refl;
  p11 = refl;
  p12 = refl;
}

-- For the months from 1 to 12, the number of days of a month is its length by the rules of the
-- calendar.
pub num_days_in_month-days_in_month :
    (y : ℤ) (m : ℕ) → 1 ≤ m → m ≤ 12 → num_days_in_month y (pos m) ≡ pos (days_in_month y m)
unfolding AtMonth
num_days_in_month-days_in_month y m lo hi = months_elim (AtMonth y) (at_months y) m lo hi
