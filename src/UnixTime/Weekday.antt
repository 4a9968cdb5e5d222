-- ===== src/UnixTime/Weekday.antt =====
-- The weekday of a date by its congruence, against the weekday of its timestamp.
use time_shield_cpp.Base.{ℕ, ◌+◌, ◌-◌, ◌*◌, ◌≤◌, ◌≡◌, refl, ap, arith, leb}
use time_shield_cpp.Base.Int.{
  ℤ, pos, pos_part, neg_part, ◌+ℤ◌, ◌-ℤ◌, ◌*ℤ◌, ◌/ℤ◌, ◌%ℤ◌, ◌≤ℤ◌, int_laws, eq_of_parts,
  parts_disjoint,
}
use native.Mathlib.Nat.{add_assoc}
use time_shield_cpp.Base.Months.{ForMonths, months_elim}
use time_shield_cpp.Calendar.{IsDate, days_in_month}
use time_shield_cpp.Detail.FloorMath.{floor_mod, floor_div-floor_mod}
use time_shield_cpp.Detail.FastDate.{FastDate, fast_days_from_date_constexpr}
use time_shield_cpp.Detail.FastDate.Table.{doy_of_month, march_index, one_if, one_if-le}
use time_shield_cpp.Detail.FastDate.Days.{days_of_years, fast_days-closed}
use time_shield_cpp.UnixTime.{day_of_week_date, date_to_unix_day, unix_day_to_ts}
use time_shield_cpp.Periods.{weekday_of_ts}
use time_shield_cpp.Periods.Weeks.{day_multiple}

-- The twelfths of 31 days before a month: 28 days a month below the days before it.
MonthTwelfths : ℕ → Type 0
MonthTwelfths m =
    ((pos 14 -ℤ pos m) /ℤ pos 12 ≡ pos (one_if (leb m 2)))
    × ((pos 31 *ℤ (pos m +ℤ pos 12 *ℤ pos (one_if (leb m 2)) -ℤ pos 2)) /ℤ pos 12
        ≡ pos (doy_of_month m + 2 - 28 * march_index m))
    × (28 * march_index m ≤ doy_of_month m + 2)

month_twelfths : ForMonths MonthTwelfths
unfolding MonthTwelfths ◌*ℤ◌ ◌+ℤ◌ ◌-ℤ◌ ◌/ℤ◌ doy_of_month march_index
month_twelfths = record {
  p1 = (refl, refl, omega arith);
  p2 = (refl, refl, omega arith);
  p3 = (refl, refl, omega arith);
  p4 = (refl, refl, omega arith);
  p5 = (refl, refl, omega arith);
  p6 = (refl, refl, omega arith);
  p7 = (refl, refl, omega arith);
  p8 = (refl, refl, omega arith);
  p9 = (refl, refl, omega arith);
  p10 = (refl, refl, omega arith);
  p11 = (refl, refl, omega arith);
  p12 = (refl, refl, omega arith);
}

-- Both sums leave the same rest.
same_rest :
    (y : ℤ) (u d doy k : ℕ)
    → y ≡ pos u
    → 28 * k ≤ doy + 2
    → (pos 7000
          +ℤ (pos d +ℤ y +ℤ y /ℤ pos 4 -ℤ y /ℤ pos 100 +ℤ y /ℤ pos 400 +ℤ pos (doy + 2 - 28 * k)))
        %ℤ pos 7
      ≡ floor_mod (pos (days_of_years u + (doy + d)) -ℤ pos 719469 +ℤ pos 4) (pos 7)
same_rest y u d doy k e h = rw e (
    let f =
      floor_div-floor_mod (pos (days_of_years u + (doy + d)) -ℤ pos 719469 +ℤ pos 4) 7
        (omega arith) in
    eq_of_parts _ _ (omega (int_laws, ap pos_part f.0, ap neg_part f.0, f.1, f.2)))

weekday-closed :
    (y : ℤ) (m d u : ℕ)
    → MonthTwelfths m
    → (1 ≤ m) × (m ≤ 12)
    → (1 ≤ d) × (d ≤ 31)
    → u ≤ 6_000_000_000_000
    → y ≡ pos (u + one_if (leb m 2))
    → day_of_week_date y (pos m) (pos d)
      ≡ weekday_of_ts (unix_day_to_ts (date_to_unix_day y (pos m) (pos d)))
unfolding day_of_week_date weekday_of_ts unix_day_to_ts date_to_unix_day MonthTwelfths
weekday-closed y m d u (adjust, twelfths, low) hm hd hu e =
    let number =
      fast_days-closed y m d u 0 hm hd hu
        (eq_of_parts _ _ (omega (int_laws, ap pos_part e, ap neg_part e))) in
    let years : (y -ℤ pos (one_if (leb m 2)) ≡ pos u) =
      eq_of_parts _ _ (omega (int_laws, ap pos_part e, ap neg_part e)) in
    let day = fast_days_from_date_constexpr y (pos m) (pos d) in
    rw
      (
        (day_multiple (day *ℤ pos 86400) day refl).0,
        number,
        adjust,
        twelfths,
        add_assoc (days_of_years u) (doy_of_month m) d,
      )
      (same_rest (y -ℤ pos (one_if (leb m 2))) u d (doy_of_month m) (march_index m) years low)

longest_month : (y : ℤ) (m : ℕ) → days_in_month y m ≤ 31
unfolding days_in_month
longest_month y m = ground arith

-- For a date of the calendar in a year from 1 to 2967369602200, the weekday by the congruence is
-- the weekday of its midnight.
pub day_of_week_date-weekday_of_ts :
    (t : FastDate)
    → IsDate t
    → pos 1 ≤ℤ t.year
    → t.year ≤ℤ pos 2_967_369_602_200
    → day_of_week_date t.year t.month t.day
      ≡ weekday_of_ts (unix_day_to_ts (date_to_unix_day t.year t.month t.day))
day_of_week_date-weekday_of_ts t v low high =
    rw (v.month_is, v.day_is)
      (weekday-closed t.year v.m v.d (pos_part t.year - one_if (leb v.m 2))
        (months_elim MonthTwelfths month_twelfths v.m v.month_in.0 v.month_in.1) v.month_in
        (v.day_in.0, omega (arith, v.day_in.1, longest_month t.year v.m))
        (omega (arith, high, parts_disjoint t.year))
        (eq_of_parts _ _ (omega (arith, low, one_if-le (leb v.m 2), parts_disjoint t.year))))
