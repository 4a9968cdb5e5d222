-- ===== src/Calendar.antt =====
-- The proleptic Gregorian calendar by its rules, with which the arithmetic of the conversions is
-- compared: leap years, the lengths of months, valid dates and the day after a date.
pub mod Leap
use time_shield_cpp.Base.{ℕ, ◌≤◌, ◌≡◌, Bool, not, ◌&&◌, ◌||◌, ◌==◌, ltb, if◌then◌else◌}
use time_shield_cpp.Base.Int.{ℤ, pos, pos_part, ◌+ℤ◌, ◌%ℤ◌, ◌==ℤ◌, ltb_ℤ}
use time_shield_cpp.Detail.FastDate.{FastDate}

unfoldable pub is_leap : ℤ → Bool
is_leap y = (y %ℤ pos 4 ==ℤ pos 0) && (not (y %ℤ pos 100 ==ℤ pos 0) || (y %ℤ pos 400 ==ℤ pos 0))

unfoldable pub days_in_month : ℤ → ℕ → ℕ
days_in_month y m =
    if (m == 4) || (m == 6) || (m == 9) || (m == 11)
    then 30
    else if not (m == 2)
    then 31
    else if is_leap y
    then 29
    else 28

abbrev pub date : ℤ → ℕ → ℕ → FastDate
date y m d = record { year = y; month = pos m; day = pos d }

-- A day that the calendar has.
pub record IsDate (t : FastDate) : Type 0 where
  pub m : ℕ
  pub d : ℕ
  pub month_is : t.month ≡ pos m
  pub day_is : t.day ≡ pos d
  pub month_in : (1 ≤ m) × (m ≤ 12)
  pub day_in : (1 ≤ d) × (d ≤ days_in_month t.year m)

unfoldable pub next_day : FastDate → FastDate
next_day t =
    if ltb (pos_part t.day) (days_in_month t.year (pos_part t.month))
    then record t { day = t.day +ℤ pos 1 }
    else if ltb_ℤ t.month (pos 12)
    then record t { month = t.month +ℤ pos 1; day = pos 1 }
    else date (t.year +ℤ pos 1) 1 1
