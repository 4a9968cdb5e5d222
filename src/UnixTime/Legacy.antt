-- ===== src/UnixTime/Legacy.antt =====
-- The older conversion of a date to a day number, kept beside the fast one.
use time_shield_cpp.Base.{
  ℕ, ◌+◌, ◌*◌, ◌≤◌, ◌≡◌, refl, sym, ◌∙◌, arith, leb, if◌then◌else◌, true, false,
}
use time_shield_cpp.Base.Int.{
  ℤ, pos, negsuc, pos_part, neg_part, ◌+ℤ◌, ◌-ℤ◌, ◌*ℤ◌, ◌/ℤ◌, leb_ℤ, int_laws,
}
use time_shield_cpp.Base.Months.{ForMonths, months_elim}
use time_shield_cpp.Calendar.{IsDate}
use time_shield_cpp.Detail.FastDate.{FastDate}
use time_shield_cpp.Detail.FastDate.Table.{doy_of_month, one_if}
use time_shield_cpp.Detail.FastDate.Days.{days_of_years}
use time_shield_cpp.Detail.FastDate.Order.{IsYear, counted}
use time_shield_cpp.UnixTime.{legacy_date_to_unix_day, date_to_unix_day}

leb_ℤ-pos : (n : ℕ) → leb_ℤ (pos 0) (pos n) ≡ true
leb_ℤ-pos n = ground arith

leb_ℤ-negsuc : (n : ℕ) → leb_ℤ (pos 0) (negsuc n) ≡ false
leb_ℤ-negsuc n = ground arith

-- The count by eras, years of an era and days of a year.
legacy_days : ℤ → ℤ → ℤ
legacy_days y doy =
    let era = (if leb_ℤ (pos 0) y then y else y -ℤ pos 399) /ℤ pos 400 in
    let yoe = y -ℤ era *ℤ pos 400 in
    let doe = yoe *ℤ pos 365 +ℤ yoe /ℤ pos 4 -ℤ yoe /ℤ pos 100 +ℤ doy in
    era *ℤ pos 146097 +ℤ doe -ℤ pos 719468

legacy_days-closed :
    (y : ℤ) (t d u k : ℕ)
    → pos_part y + 400 * k ≡ u + neg_part y
    → 1 ≤ d
    → legacy_days y (pos t +ℤ pos d -ℤ pos 1)
      ≡ pos (days_of_years u + (t + d)) -ℤ pos (719469 + 146097 * k)
unfolding legacy_days
legacy_days-closed (pos n) t d u k e p = rw (leb_ℤ-pos n) (omega int_laws)
legacy_days-closed (negsuc n) t d u k e p = rw (leb_ℤ-negsuc n) (omega int_laws)

-- The days before a month, by the line 153 m + 2 over 5.
MonthLine : ℕ → Type 0
MonthLine m =
    ((pos 153 *ℤ (if leb_ℤ (pos m) (pos 2) then pos m +ℤ pos 9 else pos m -ℤ pos 3) +ℤ pos 2)
        /ℤ pos 5
      ≡ pos (doy_of_month m))
    × ((if leb_ℤ (pos m) (pos 2) then pos 1 else pos 0) ≡ pos (one_if (leb m 2)))

month_line : ForMonths MonthLine
unfolding MonthLine ◌*ℤ◌ ◌+ℤ◌ ◌-ℤ◌ ◌/ℤ◌ doy_of_month
month_line = record {
  p1 = (refl, refl);
  p2 = (refl, refl);
  p3 = (refl, refl);
  p4 = (refl, refl);
  p5 = (refl, refl);
  p6 = (refl, refl);
  p7 = (refl, refl);
  p8 = (refl, refl);
  p9 = (refl, refl);
  p10 = (refl, refl);
  p11 = (refl, refl);
  p12 = (refl, refl);
}

legacy_date-closed :
    (y : ℤ) (m d u k : ℕ)
    → MonthLine m
    → pos_part y + 400 * k ≡ u + one_if (leb m 2) + neg_part y
    → 1 ≤ d
    → legacy_date_to_unix_day y (pos m) (pos d)
      ≡ pos (days_of_years u + (doy_of_month m + d)) -ℤ pos (719469 + 146097 * k)
unfolding legacy_date_to_unix_day legacy_days MonthLine
legacy_date-closed y m d u k (line, adjust) e p =
    rw (line, adjust)
      (legacy_days-closed (y -ℤ pos (one_if (leb m 2))) (doy_of_month m) d u k (omega int_laws) p)

-- For a date of the calendar in a year of at most 2967369602200 in size, the older conversion
-- gives the same day number.
pub legacy_date_to_unix_day-date_to_unix_day :
    (t : FastDate)
    → IsDate t
    → IsYear t.year
    → legacy_date_to_unix_day t.year t.month t.day ≡ date_to_unix_day t.year t.month t.day
unfolding date_to_unix_day
legacy_date_to_unix_day-date_to_unix_day t v r =
    let c = counted t v r in
    let line = months_elim MonthLine month_line c.m c.month_in.0 c.month_in.1 in
    let closed : (legacy_date_to_unix_day t.year t.month t.day
        ≡ pos (days_of_years c.u + (doy_of_month c.m + c.d))
          -ℤ pos (719469 + 146097 * 7_500_000_000)) =
      rw (c.month_is, c.day_is)
        (legacy_date-closed t.year c.m c.d c.u 7_500_000_000 line c.year_is c.day_in.0) in
    closed ∙ sym c.number
