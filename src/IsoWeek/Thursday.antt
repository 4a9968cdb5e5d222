-- ===== src/IsoWeek/Thursday.antt =====
-- The week of a day is that of its Thursday, and the year of the week is that Thursday's year.
use time_shield_cpp.Base.{◌%◌, ◌≡◌, refl, ap, ◌∙◌, arith}
use time_shield_cpp.Base.Int.{
  ℤ, pos, pos_part, neg_part, ◌+ℤ◌, ◌-ℤ◌, ◌*ℤ◌, ◌%ℤ◌, ◌≤ℤ◌, ◌<ℤ◌, int_laws, eq_of_parts,
  parts_disjoint,
}
use time_shield_cpp.Calendar.{IsDate}
use time_shield_cpp.Detail.FloorMath.{floor_div, floor_mod, floor_div-floor_mod}
use time_shield_cpp.Detail.FastDate.{
  FastDate, split_unix_day, fast_date_from_days, fast_days_from_date_constexpr,
}
use time_shield_cpp.Detail.FastDate.Order.{IsYear}
use time_shield_cpp.UnixTime.{date_to_unix_day, unix_day_to_ts}
use time_shield_cpp.UnixTime.Weekday.{day_of_week_date-weekday_of_ts}
use time_shield_cpp.Periods.{weekday_of_ts}
use time_shield_cpp.Periods.Weeks.{day_multiple}
use time_shield_cpp.DateTime.{to_date_time}
use time_shield_cpp.DateTime.Split.{split-floor}
use time_shield_cpp.IsoWeek.{iso_weekday_from_weekday, iso_weekday_of_date}

abbrev pub day_number : FastDate → ℤ
day_number t = fast_days_from_date_constexpr t.year t.month t.day

-- The Thursday of the week, from Monday to Sunday, in which a day is; day 0 is a Thursday.
unfoldable pub thursday : ℤ → ℤ
thursday n = floor_div (n +ℤ pos 3) (pos 7) *ℤ pos 7

unfoldable pub weekday : ℤ → ℤ
weekday n = floor_mod (n +ℤ pos 3) (pos 7) +ℤ pos 1

-- A day by the week and the place in it.
week_place :
    (n q r : ℤ)
    → n +ℤ pos 3 ≡ q *ℤ pos 7 +ℤ r
    → (pos 0 ≤ℤ r) × (r <ℤ pos 7)
    → (n +ℤ (pos 4 -ℤ (r +ℤ pos 1)) ≡ q *ℤ pos 7)
      × (pos 1 ≤ℤ r +ℤ pos 1)
      × (r +ℤ pos 1 ≤ℤ pos 7)
      × (pos_part (q *ℤ pos 7) % 7 ≡ 0)
      × (neg_part (q *ℤ pos 7) % 7 ≡ 0)
      × (n ≤ℤ q *ℤ pos 7 +ℤ pos 3)
      × (q *ℤ pos 7 ≤ℤ n +ℤ pos 3)
week_place n q r e (l, h) = (
  eq_of_parts _ _ (omega (int_laws, ap pos_part e, ap neg_part e)),
  omega int_laws,
  omega int_laws,
  omega int_laws,
  omega int_laws,
  omega (int_laws, ap pos_part e, ap neg_part e),
  omega (int_laws, ap pos_part e, ap neg_part e),
)

pub thursday-weekday :
    (n : ℤ)
    → (n +ℤ (pos 4 -ℤ weekday n) ≡ thursday n)
      × (pos 1 ≤ℤ weekday n)
      × (weekday n ≤ℤ pos 7)
      × (pos_part (thursday n) % 7 ≡ 0)
      × (neg_part (thursday n) % 7 ≡ 0)
      × (n ≤ℤ thursday n +ℤ pos 3)
      × (thursday n ≤ℤ n +ℤ pos 3)
unfolding thursday weekday
thursday-weekday n =
    let f = floor_div-floor_mod (n +ℤ pos 3) 7 (omega arith) in
    week_place n (floor_div (n +ℤ pos 3) (pos 7)) (floor_mod (n +ℤ pos 3) (pos 7)) f.0 (f.1, f.2)

-- A date in a year that the weekdays and the checks of weeks cover.
pub record IsWeekYear (y : ℤ) : Type 0 where
  pub low : pos 1 ≤ℤ y
  pub high : y ≤ℤ pos 292_277_022_001

pub week-IsYear : {y : ℤ} → IsWeekYear y → IsYear y
week-IsYear {y} r = record {
  low = omega (arith, r.low, parts_disjoint y);
  high = omega (arith, r.high, parts_disjoint y);
}

weekday_shift :
    (n : ℤ)
    → (floor_mod (n +ℤ pos 4) (pos 7) +ℤ pos 7 -ℤ pos 1) %ℤ pos 7 ≡ floor_mod (n +ℤ pos 3) (pos 7)
weekday_shift n =
    let f = floor_div-floor_mod (n +ℤ pos 3) 7 (omega arith) in
    let g = floor_div-floor_mod (n +ℤ pos 4) 7 (omega arith) in
    eq_of_parts _ _ (
      omega (
        int_laws,
        ap pos_part f.0,
        ap neg_part f.0,
        f.1,
        f.2,
        ap pos_part g.0,
        ap neg_part g.0,
        g.1,
        g.2,
      ))

pub iso_weekday_of_date-weekday :
    (t : FastDate)
    → IsDate t
    → IsWeekYear t.year
    → iso_weekday_of_date t.year t.month t.day ≡ weekday (day_number t)
unfolding iso_weekday_of_date iso_weekday_from_weekday weekday weekday_of_ts unix_day_to_ts
    date_to_unix_day
iso_weekday_of_date-weekday t v r =
    let n = day_number t in
    ap (λ w. (w +ℤ pos 7 -ℤ pos 1) %ℤ pos 7 +ℤ pos 1)
      (day_of_week_date-weekday_of_ts t v r.low (omega (arith, r.high))
        ∙ ap (λ d. floor_mod (d +ℤ pos 4) (pos 7)) (day_multiple (n *ℤ pos 86400) n refl).0)
    ∙ ap (λ w. w +ℤ pos 1) (weekday_shift n)

-- The date of midnight.
pub to_date_time-midnight :
    (n : ℤ)
    → ((to_date_time (unix_day_to_ts n)).year ≡ (fast_date_from_days n).year)
      × ((to_date_time (unix_day_to_ts n)).mon ≡ (fast_date_from_days n).month)
      × ((to_date_time (unix_day_to_ts n)).day ≡ (fast_date_from_days n).day)
unfolding to_date_time unix_day_to_ts
to_date_time-midnight n =
    let days : ((split_unix_day (n *ℤ pos 86400)).days ≡ n) =
      ap (λ s. s.days) (split-floor (n *ℤ pos 86400)) ∙ (day_multiple (n *ℤ pos 86400) n refl).0 in
    (
      ap (λ d. (fast_date_from_days d).year) days,
      ap (λ d. (fast_date_from_days d).month) days,
      ap (λ d. (fast_date_from_days d).day) days,
    )
