-- ===== src/IsoWeek/Weeks.antt =====
-- The weeks of a year are counted from its first Thursday to its last.
use time_shield_cpp.Base.{ℕ, ◌+◌, ◌≤◌, ◌≡◌, refl, ap, sym, ◌∙◌, arith, true}
use time_shield_cpp.Base.Int.{
  ℤ, pos, pos_part, neg_part, ◌+ℤ◌, ◌-ℤ◌, ◌/ℤ◌, ◌≤ℤ◌, int_laws, eq_of_parts, parts_disjoint,
}
use time_shield_cpp.Constants.{min_year, max_year}
use time_shield_cpp.Calendar.{IsDate, date, days_in_month}
use time_shield_cpp.Detail.FastDate.{FastDate, fast_date_from_days}
use time_shield_cpp.Detail.FastDate.RoundTrip.{IsUnixDay}
use time_shield_cpp.Detail.FastDate.Walk.{fast_date-fast_days}
use time_shield_cpp.UnixTime.{date_to_unix_day}
use time_shield_cpp.IsoWeek.{to_iso_week_date, iso_weeks_in_year, is_valid_iso_week_date}
use time_shield_cpp.IsoWeek.Year.{InYear, date-InYear, january, december}
use time_shield_cpp.IsoWeek.Thursday.{
  day_number, thursday, weekday, thursday-weekday, IsWeekYear, week-IsYear,
  iso_weekday_of_date-weekday, to_date_time-midnight,
}

pub january_four : (y : ℤ) → IsDate (date y 1 4)
unfolding days_in_month
january_four y = record {
  m = 1;
  d = 4;
  month_is = refl;
  day_is = refl;
  month_in = (omega arith, omega arith);
  day_in = (omega arith, omega arith);
}

pub december-IsDate : (y : ℤ) (d : ℕ) → 1 ≤ d → d ≤ 31 → IsDate (date y 12 d)
unfolding days_in_month
december-IsDate y d p q = record {
  m = 12;
  d = d;
  month_is = refl;
  day_is = refl;
  month_in = (omega arith, omega arith);
  day_in = (p, q);
}

abbrev pub first_thursday : ℤ → ℤ
first_thursday y = thursday (day_number (date y 1 4))

pub week-IsUnixDay : (n y : ℤ) → IsWeekYear y → InYear n y → IsUnixDay n
week-IsUnixDay n y r v = record {
  low = omega (
    int_laws,
    ap pos_part v.count,
    ap neg_part v.count,
    v.low,
    v.high,
    r.low,
    r.high,
    parts_disjoint y,
  );
  high = omega (
    int_laws,
    ap pos_part v.count,
    ap neg_part v.count,
    v.low,
    v.high,
    r.low,
    r.high,
    parts_disjoint y,
  );
}

-- The week date of `t`, where the Thursday of its week is the date `s`.
pub to_iso_week_date-closed :
    (t s : FastDate)
    → IsDate t
    → IsWeekYear t.year
    → IsDate s
    → IsWeekYear s.year
    → day_number s ≡ thursday (day_number t)
    → to_iso_week_date t.year t.month t.day ≡ record {
      year = s.year;
      week = (thursday (day_number t) -ℤ first_thursday s.year) /ℤ pos 7 +ℤ pos 1;
      weekday = weekday (day_number t);
    }
unfolding to_iso_week_date date_to_unix_day
to_iso_week_date-closed t s v r w q e =
    let n = day_number t in
    let sunday = date-InYear s w (week-IsYear q) in
    let year =
      (to_date_time-midnight (thursday n)).0
      ∙ ap (λ d. (fast_date_from_days d).year) (sym e)
      ∙ ap (λ x. x.year) (fast_date-fast_days s w (week-IsYear q) (week-IsUnixDay _ _ q sunday)) in
    let jan = date s.year 1 4 in
    rw
      (
        iso_weekday_of_date-weekday t v r,
        (thursday-weekday n).0,
        year,
        iso_weekday_of_date-weekday jan (january_four s.year) q,
        (thursday-weekday (day_number jan)).0,
      )
      refl

-- December 28 is in the last week of its year.
pub iso_weeks_in_year-closed :
    (y : ℤ)
    → IsWeekYear y
    → iso_weeks_in_year y
      ≡ (thursday (day_number (date y 12 28)) -ℤ first_thursday y) /ℤ pos 7 +ℤ pos 1
unfolding iso_weeks_in_year
iso_weeks_in_year-closed y r =
    let n = day_number (date y 12 28) in
    let e = december y 28 (week-IsYear r) (omega arith, omega arith) in
    let p = thursday-weekday n in
    let k = pos_part (thursday n +ℤ pos 3 -ℤ n) in
    let small : (k ≤ 6) = omega (int_laws, p.5, p.6) in
    let s = date y 12 (25 + k) in
    let at : (day_number s ≡ thursday n) =
      december y (25 + k) (week-IsYear r) (omega arith, omega arith)
      ∙ eq_of_parts _ _ (omega (int_laws, ap pos_part e, ap neg_part e, p.5, p.6)) in
    ap (λ w. w.week)
      (to_iso_week_date-closed (date y 12 28) s (december-IsDate y 28 (omega arith) (omega arith)) r
        (december-IsDate y (25 + k) (omega arith) (omega arith)) r at)

-- A year has 52 or 53 weeks.
pub iso_weeks_in_year-range :
    (y : ℤ)
    → pos 1 ≤ℤ y
    → y ≤ℤ max_year
    → (pos 52 ≤ℤ iso_weeks_in_year y) × (iso_weeks_in_year y ≤ℤ pos 53)
iso_weeks_in_year-range y low high =
    let r : IsWeekYear y = record { low = low; high = omega (arith, high) } in
    let jan = january y 4 (week-IsYear r) (omega arith, omega arith) in
    let dec = december y 28 (week-IsYear r) (omega arith, omega arith) in
    let f = thursday-weekday (day_number (date y 1 4)) in
    let l = thursday-weekday (day_number (date y 12 28)) in
    rw (iso_weeks_in_year-closed y r) (
      omega (
        int_laws,
        ap pos_part jan,
        ap neg_part jan,
        ap pos_part dec,
        ap neg_part dec,
        f.3,
        f.4,
        f.5,
        f.6,
        l.3,
        l.4,
        l.5,
        l.6,
        low,
        parts_disjoint y,
      ),
      omega (
        int_laws,
        ap pos_part jan,
        ap neg_part jan,
        ap pos_part dec,
        ap neg_part dec,
        f.3,
        f.4,
        f.5,
        f.6,
        l.3,
        l.4,
        l.5,
        l.6,
        low,
        parts_disjoint y,
      ),
    )

pub is_valid_iso_week_date-intro :
    (y week wd : ℤ)
    → (min_year ≤ℤ y) × (y ≤ℤ max_year)
    → (pos 1 ≤ℤ wd) × (wd ≤ℤ pos 7)
    → pos 1 ≤ℤ week
    → week ≤ℤ iso_weeks_in_year y
    → is_valid_iso_week_date y week wd ≡ true
unfolding is_valid_iso_week_date
is_valid_iso_week_date-intro y week wd r h lo hi = ground arith
