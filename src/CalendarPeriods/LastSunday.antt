-- ===== src/CalendarPeriods/LastSunday.antt =====
-- The last Sunday of a month.
use time_shield_cpp.Base.{ℕ, ◌+◌, ◌-◌, ◌≤◌, ◌≡◌, refl, ap, sym, ◌∙◌, arith}
use time_shield_cpp.Base.Int.{
  ℤ, pos, pos_part, neg_part, ◌+ℤ◌, ◌-ℤ◌, ◌*ℤ◌, ◌≤ℤ◌, int_laws, eq_of_parts, parts_disjoint,
}
use time_shield_cpp.Constants.{max_year}
use time_shield_cpp.Calendar.{IsDate, date, days_in_month}
use time_shield_cpp.Detail.FloorMath.{floor_mod, floor_div-floor_mod}
use time_shield_cpp.UnixTime.{day_of_week_date, date_to_unix_day, unix_day_to_ts}
use time_shield_cpp.UnixTime.Weekday.{day_of_week_date-weekday_of_ts}
use time_shield_cpp.Periods.{weekday_of_ts}
use time_shield_cpp.Periods.Weeks.{day_multiple}
use time_shield_cpp.DateTime.Lengths.{num_days_in_month-days_in_month}
use time_shield_cpp.Workdays.Row.{IsMonth, length_in, day_shift, number}
use time_shield_cpp.CalendarPeriods.{last_sunday_month_day}

-- The weekday of a day is that of day 0, a Thursday, and the days since.
pub weekday_of_day : (n : ℤ) → weekday_of_ts (unix_day_to_ts n) ≡ floor_mod (n +ℤ pos 4) (pos 7)
unfolding weekday_of_ts unix_day_to_ts
weekday_of_day n = ap (λ d. floor_mod (d +ℤ pos 4) (pos 7)) (day_multiple (n *ℤ pos 86400) n refl).0

-- Going back by a weekday leads to a Sunday.
back_to_sunday :
    (n k : ℤ) → n ≡ k +ℤ floor_mod (n +ℤ pos 4) (pos 7) → floor_mod (k +ℤ pos 4) (pos 7) ≡ pos 0
back_to_sunday n k e =
    let f = floor_div-floor_mod (n +ℤ pos 4) 7 (omega arith) in
    let g = floor_div-floor_mod (k +ℤ pos 4) 7 (omega arith) in
    eq_of_parts _ _ (
      omega (
        int_laws,
        ap pos_part e,
        ap neg_part e,
        ap pos_part f.0,
        ap neg_part f.0,
        f.1,
        f.2,
        ap pos_part g.0,
        ap neg_part g.0,
        g.1,
        g.2,
      ))

-- In a month from 1 to 12 of a year from 1 to MAX_YEAR, the last Sunday falls on a Sunday and is
-- one of the last seven days.
pub last_sunday_month_day-weekday_of_ts :
    (y : ℤ) (m : ℕ)
    → pos 1 ≤ℤ y
    → y ≤ℤ max_year
    → (1 ≤ m) × (m ≤ 12)
    → let day = last_sunday_month_day y (pos m) in
      let days = pos (days_in_month y m) in
      (weekday_of_ts (unix_day_to_ts (date_to_unix_day y (pos m) day)) ≡ pos 0)
      × (days ≤ℤ day +ℤ pos 6)
      × (day ≤ℤ days)
unfolding last_sunday_month_day
last_sunday_month_day-weekday_of_ts y m low high month =
    let days = days_in_month y m in
    let long = length_in y m in
    let v : IsMonth y m = record { low = omega (arith, low); high = high; month_in = month } in
    let n = number y m days in
    let w = floor_mod (n +ℤ pos 4) (pos 7) in
    let f = floor_div-floor_mod (n +ℤ pos 4) 7 (omega arith) in
    let d : IsDate (date y m days) = record {
      m = m;
      d = days;
      month_is = refl;
      day_is = refl;
      month_in = month;
      day_in = (omega (arith, long), omega arith);
    } in
    let weekday : (day_of_week_date y (pos m) (pos days) ≡ w) =
      day_of_week_date-weekday_of_ts (date y m days) d low (omega (arith, high))
      ∙ weekday_of_day n in
    let k = days - pos_part w in
    let range : ((pos_part w ≤ 6) × (neg_part w ≡ 0) × (k + pos_part w ≡ days)) =
      omega (int_laws, f.1, f.2, long, parts_disjoint w) in
    let day : (pos days -ℤ w ≡ pos k) = eq_of_parts _ _ (omega (int_laws, range)) in
    let shift =
      day_shift y m k (pos_part w) v (omega (arith, range, long)) (omega (arith, range, long)) in
    let last : (n ≡ number y m k +ℤ w) =
      ap (number y m) (sym range.2)
      ∙ shift
      ∙ ap (λ x. number y m k +ℤ x) (eq_of_parts (pos (pos_part w)) w (omega (arith, range))) in
    rw (num_days_in_month-days_in_month y m month.0 month.1, weekday, day)
      (
        weekday_of_day (number y m k) ∙ back_to_sunday n (number y m k) last,
        omega (int_laws, range),
        omega (arith, range),
      )
