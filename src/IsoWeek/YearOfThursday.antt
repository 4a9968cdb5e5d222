-- ===== src/IsoWeek/YearOfThursday.antt =====
-- The year of the Thursday of a week, by which its weeks are counted.
use time_shield_cpp.Base.{◌+◌, ◌-◌, ◌≡◌, ap, subst, arith}
use time_shield_cpp.Base.Int.{
  ℤ, pos, pos_part, neg_part, ◌+ℤ◌, ◌≤ℤ◌, ◌<ℤ◌, int_laws, parts_disjoint,
}
use time_shield_cpp.Constants.{max_year}
use time_shield_cpp.Calendar.{IsDate, date}
use time_shield_cpp.Detail.FastDate.{FastDate, fast_date_from_days}
use time_shield_cpp.Detail.FastDate.RoundTrip.{IsUnixDay, fast_days-from_days, fast_date-year}
use time_shield_cpp.Detail.FastDate.Order.{IsYear, years_mono}
use time_shield_cpp.IsoWeek.Year.{InYear, date-InYear, january, december, years_before}
use time_shield_cpp.IsoWeek.Thursday.{
  day_number, thursday, thursday-weekday, IsWeekYear, week-IsYear,
}
use time_shield_cpp.IsoWeek.Weeks.{first_thursday}

-- The Thursday of the week of a day is in the year of that day or next to it.
thursday-year :
    (n y z : ℤ)
    → InYear n y
    → InYear (thursday n) z
    → IsWeekYear y
    → IsYear z
    → (pos 1 ≤ℤ z) × (z ≤ℤ y +ℤ pos 1)
thursday-year n y z a b r q =
    let p = thursday-weekday n in
    (
      grind (
        int_laws,
        ap pos_part a.count,
        ap neg_part a.count,
        ap pos_part b.count,
        ap neg_part b.count,
        a.low,
        b.high,
        p.3,
        p.4,
        p.5,
        p.6,
        q.low,
        q.high,
        r.low,
        parts_disjoint y,
        parts_disjoint z,
        years_mono 3_000_000_000_000 (years_before y - 1),
        years_mono (years_before z) 3_000_000_000_000,
      ),
      grind (
        int_laws,
        ap pos_part a.count,
        ap neg_part a.count,
        ap pos_part b.count,
        ap neg_part b.count,
        a.high,
        b.low,
        p.5,
        p.6,
        q.low,
        q.high,
        r.low,
        parts_disjoint y,
        parts_disjoint z,
        years_mono (years_before y + 1) (years_before z - 1),
      ),
    )

-- The weeks of a year, from its first to its last Thursday.
pub weeks_between :
    (n y : ℤ)
    → IsWeekYear y
    → InYear (thursday n) y
    → (first_thursday y ≤ℤ thursday n) × (thursday n ≤ℤ thursday (day_number (date y 12 28)))
weeks_between n y r v =
    let jan = january y 4 (week-IsYear r) (omega arith, omega arith) in
    let dec = december y 28 (week-IsYear r) (omega arith, omega arith) in
    let p = thursday-weekday n in
    let f = thursday-weekday (day_number (date y 1 4)) in
    let l = thursday-weekday (day_number (date y 12 28)) in
    (
      omega (
        int_laws,
        ap pos_part jan,
        ap neg_part jan,
        ap pos_part v.count,
        ap neg_part v.count,
        v.low,
        p.3,
        p.4,
        f.3,
        f.4,
        f.6,
      ),
      omega (
        int_laws,
        ap pos_part dec,
        ap neg_part dec,
        ap pos_part v.count,
        ap neg_part v.count,
        v.high,
        p.3,
        p.4,
        l.3,
        l.4,
        l.5,
      ),
    )

-- The date of the Thursday of a week.
pub record HasThursday (n : ℤ) (s : FastDate) : Type 0 where
  pub is_date : IsDate s
  pub week_year : IsWeekYear s.year
  pub last : s.year ≤ℤ max_year
  pub number : day_number s ≡ thursday n
  pub in_year : InYear (thursday n) s.year

pub thursday-HasThursday :
    (n y : ℤ)
    → InYear n y
    → IsWeekYear y
    → y <ℤ max_year
    → HasThursday n (fast_date_from_days (thursday n))
thursday-HasThursday n y here r high =
    let p = thursday-weekday n in
    let there : IsUnixDay (thursday n) = record {
      low = omega (
        int_laws,
        ap pos_part here.count,
        ap neg_part here.count,
        here.low,
        here.high,
        p.5,
        p.6,
        r.low,
        r.high,
        parts_disjoint y,
      );
      high = omega (
        int_laws,
        ap pos_part here.count,
        ap neg_part here.count,
        here.low,
        here.high,
        p.5,
        p.6,
        r.low,
        r.high,
        parts_disjoint y,
      );
    } in
    let s = fast_date_from_days (thursday n) in
    let (w, e) = fast_days-from_days (thursday n) there in
    let years = fast_date-year (thursday n) there in
    let q : IsYear s.year = record {
      low = omega (arith, years.0);
      high = omega (arith, years.1);
    } in
    let at : InYear (thursday n) s.year = subst (λ d. InYear d s.year) e (date-InYear s w q) in
    let near = thursday-year n y s.year here at r q in
    record {
      is_date = w;
      week_year = record { low = near.0; high = omega (int_laws, near.1, r.high, high) };
      last = omega (int_laws, near.1, high);
      number = e;
      in_year = at;
    }
