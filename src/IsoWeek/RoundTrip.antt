-- ===== src/IsoWeek/RoundTrip.antt =====
-- A date is recovered from its ISO week date.
use time_shield_cpp.Base.{◌%◌, ◌≡◌, ap, ◌∙◌, arith, some}
use time_shield_cpp.Base.Int.{
  ℤ, pos, pos_part, neg_part, ◌+ℤ◌, ◌-ℤ◌, ◌*ℤ◌, ◌/ℤ◌, ◌≤ℤ◌, ◌<ℤ◌, int_laws, eq_of_parts,
}
use time_shield_cpp.Constants.{max_year}
use time_shield_cpp.Calendar.{IsDate, date}
use time_shield_cpp.Detail.FastDate.{FastDate, fast_date_from_days}
use time_shield_cpp.Detail.FastDate.Walk.{fast_date-fast_days}
use time_shield_cpp.UnixTime.{date_to_unix_day}
use time_shield_cpp.IsoWeek.{
  to_iso_week_date, iso_weeks_in_year, date_of_iso_week_date, iso_week_date_to_date,
}
use time_shield_cpp.IsoWeek.Year.{date-InYear}
use time_shield_cpp.IsoWeek.Thursday.{
  day_number, thursday, weekday, thursday-weekday, IsWeekYear, week-IsYear,
  iso_weekday_of_date-weekday, to_date_time-midnight,
}
use time_shield_cpp.IsoWeek.Weeks.{
  january_four, first_thursday, week-IsUnixDay, to_iso_week_date-closed, iso_weeks_in_year-closed,
  is_valid_iso_week_date-intro,
}
use time_shield_cpp.IsoWeek.YearOfThursday.{weeks_between, thursday-HasThursday}

back_to_thursday :
    (n t f w : ℤ)
    → n +ℤ (pos 4 -ℤ w) ≡ t
    → f ≤ℤ t
    → (pos_part t % 7 ≡ 0) × (neg_part t % 7 ≡ 0)
    → (pos_part f % 7 ≡ 0) × (neg_part f % 7 ≡ 0)
    → f +ℤ ((t -ℤ f) /ℤ pos 7 +ℤ pos 1 -ℤ pos 1) *ℤ pos 7 +ℤ (w -ℤ pos 4) ≡ n
back_to_thursday n t f w e le (a, b) (c, d) =
    eq_of_parts _ _ (omega (int_laws, ap pos_part e, ap neg_part e))

-- The week date of a day, back to that day.
date_of_week :
    (n y : ℤ)
    → IsWeekYear y
    → first_thursday y ≤ℤ thursday n
    → date_of_iso_week_date (record {
      year = y;
      week = (thursday n -ℤ first_thursday y) /ℤ pos 7 +ℤ pos 1;
      weekday = weekday n;
    })
      ≡ record {
        year = (fast_date_from_days n).year;
        mon = (fast_date_from_days n).month;
        day = (fast_date_from_days n).day;
      }
unfolding date_of_iso_week_date date_to_unix_day
date_of_week n y r le =
    let jan = date y 1 4 in
    let p = thursday-weekday n in
    let f = thursday-weekday (day_number jan) in
    let m = to_date_time-midnight n in
    rw
      (
        iso_weekday_of_date-weekday jan (january_four y) r,
        f.0,
        back_to_thursday n (thursday n) (first_thursday y) (weekday n) p.0 le (p.3, p.4) (f.3, f.4),
      )
      (λ i. record { year = m.0 i; mon = m.1 i; day = m.2 i })

-- A date of the calendar in a year from 1 to below MAX_YEAR is recovered from its ISO week date,
-- whose week is from 1 to the number of weeks of its ISO year.
pub iso_week_date_to_date-to_iso_week_date :
    (t : FastDate)
    → IsDate t
    → pos 1 ≤ℤ t.year
    → t.year <ℤ max_year
    → let w = to_iso_week_date t.year t.month t.day in
      (iso_week_date_to_date w ≡ some (record { year = t.year; mon = t.month; day = t.day }))
      × (pos 1 ≤ℤ w.week)
      × (w.week ≤ℤ iso_weeks_in_year w.year)
unfolding iso_week_date_to_date
iso_week_date_to_date-to_iso_week_date t v low high =
    let r : IsWeekYear t.year = record { low = low; high = omega (arith, high) } in
    let n = day_number t in
    let here = date-InYear t v (week-IsYear r) in
    let p = thursday-weekday n in
    let s = fast_date_from_days (thursday n) in
    let h = thursday-HasThursday n t.year here r high in
    let y = s.year in
    let f = weeks_between n y h.week_year h.in_year in
    let week = (thursday n -ℤ first_thursday y) /ℤ pos 7 +ℤ pos 1 in
    let first : (pos 1 ≤ℤ week) = omega (int_laws, f.0) in
    let last : (week ≤ℤ iso_weeks_in_year y) =
      rw (iso_weeks_in_year-closed y h.week_year) (omega (int_laws, f.1)) in
    let valid =
      is_valid_iso_week_date-intro y week (weekday n) (omega (arith, h.week_year.low), h.last)
        (p.1, p.2) first last in
    let back = fast_date-fast_days t v (week-IsYear r) (week-IsUnixDay n t.year r here) in
    rw (to_iso_week_date-closed t s v r h.is_date h.week_year h.number, valid)
      (
        ap some (
            date_of_week n y h.week_year f.0
            ∙ ap (λ d. record { year = d.year; mon = d.month; day = d.day }) back),
        first,
        last,
      )
