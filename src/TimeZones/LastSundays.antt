-- ===== src/TimeZones/LastSundays.antt =====
-- The last Sundays of months, independently of the search for them.
use time_shield_cpp.Base.{ℕ, ◌+◌, ◌≤◌, ◌<◌, ◌≡◌, ap, sym, ◌∙◌, arith}
use time_shield_cpp.Base.Int.{
  ℤ, pos, pos_part, neg_part, ◌+ℤ◌, ◌-ℤ◌, ◌*ℤ◌, ◌≤ℤ◌, int_laws, eq_of_parts, parts_disjoint,
}
use time_shield_cpp.Constants.{max_year}
use time_shield_cpp.Calendar.{days_in_month}
use time_shield_cpp.Detail.FloorMath.{floor_div, floor_mod, floor_div-floor_mod}
use time_shield_cpp.Workdays.Row.{number, length_in}
use time_shield_cpp.CalendarPeriods.{last_sunday_month_day}
use time_shield_cpp.CalendarPeriods.LastSunday.{weekday_of_day, last_sunday_month_day-weekday_of_ts}

-- The last of the month's days that is, as 1970-01-04, a Sunday.
pub record IsLastSunday (y : ℤ) (m day : ℕ) : Type 0 where
  pub in_month : (1 ≤ day) × (day ≤ days_in_month y m)
  pub last : days_in_month y m < day + 7
  pub weeks : ℤ
  pub is_sunday : number y m day ≡ weeks *ℤ pos 7 +ℤ pos 3

pub last_sunday_month_day-IsLastSunday :
    (y : ℤ) (m : ℕ)
    → (pos 1 ≤ℤ y) × (y ≤ℤ max_year)
    → (1 ≤ m) × (m ≤ 12)
    → (day : ℕ) × (last_sunday_month_day y (pos m) ≡ pos day) × IsLastSunday y m day
last_sunday_month_day-IsLastSunday y m (low, high) month =
    let last = last_sunday_month_day y (pos m) in
    let (sunday, after, before) = last_sunday_month_day-weekday_of_ts y m low high month in
    let long = length_in y m in
    let day = pos_part last in
    let day_is : (last ≡ pos day) =
      eq_of_parts _ _ (omega (int_laws, after, long, parts_disjoint last)) in
    let n = number y m day in
    let zero : (floor_mod (n +ℤ pos 4) (pos 7) ≡ pos 0) =
      sym (weekday_of_day n) ∙ (rw day_is at sunday) in
    let f = floor_div-floor_mod (n +ℤ pos 4) 7 (omega arith) in
    let q = floor_div (n +ℤ pos 4) (pos 7) in
    (
      day,
      day_is,
      record {
        in_month = (
          omega (int_laws, after, long, parts_disjoint last),
          omega (int_laws, before, long, parts_disjoint last),
        );
        last = omega (int_laws, after, long, parts_disjoint last);
        weeks = q -ℤ pos 1;
        is_sunday = eq_of_parts _ _ (
            omega (
              int_laws,
              ap pos_part f.0,
              ap neg_part f.0,
              ap pos_part zero,
              ap neg_part zero,
              parts_disjoint n,
              parts_disjoint q,
            ));
      },
    )
