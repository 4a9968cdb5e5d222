-- ===== src/IsoWeek/Year.antt =====
-- The day numbers of a year: from those of January 1 to those of December 31.
use time_shield_cpp.Base.{ℕ, ◌+◌, ◌-◌, ◌*◌, ◌≤◌, ◌<◌, ◌≡◌, ap, arith, leb, Bool-cases, inl, inr}
use time_shield_cpp.Base.Int.{ℤ, pos, pos_part, neg_part, ◌-ℤ◌, int_laws, eq_of_parts}
use time_shield_cpp.Base.Months.{ForMonths, months_elim}
use time_shield_cpp.Calendar.{IsDate}
use time_shield_cpp.Detail.FastDate.{FastDate, fast_days_from_date_constexpr}
use time_shield_cpp.Detail.FastDate.Table.{doy_of_month, longest, one_if}
use time_shield_cpp.Detail.FastDate.Days.{days_of_years, fast_days-closed}
use time_shield_cpp.Detail.FastDate.Order.{IsYear, counted}

-- Days from 1 March of the year -3000000000000.
abbrev pub epoch : ℕ
epoch = 719469 + 146097 * 7_500_000_000

abbrev pub years_before : ℤ → ℕ
years_before y = pos_part y + 3_000_000_000_000 - neg_part y

-- The place of a month in a year that begins in March, about the new year.
NewYear : ℕ → Type 0
NewYear m =
    (d : ℕ)
    → 1 ≤ d
    → d ≤ longest m
    → (one_if (leb m 2) ≡ 1 → 306 < doy_of_month m + d)
      × (one_if (leb m 2) ≡ 0 → doy_of_month m + d ≤ 306)
      × (doy_of_month m + d ≤ 366)
      × (1 ≤ doy_of_month m + d)

new_year : ForMonths NewYear
unfolding NewYear doy_of_month longest
new_year = record {
  p1 = λ d p q. (λ e. omega arith, λ e. absurd (omega arith), omega arith, omega arith);
  p2 = λ d p q. (λ e. omega arith, λ e. absurd (omega arith), omega arith, omega arith);
  p3 = λ d p q. (λ e. absurd (omega arith), λ e. omega arith, omega arith, omega arith);
  p4 = λ d p q. (λ e. absurd (omega arith), λ e. omega arith, omega arith, omega arith);
  p5 = λ d p q. (λ e. absurd (omega arith), λ e. omega arith, omega arith, omega arith);
  p6 = λ d p q. (λ e. absurd (omega arith), λ e. omega arith, omega arith, omega arith);
  p7 = λ d p q. (λ e. absurd (omega arith), λ e. omega arith, omega arith, omega arith);
  p8 = λ d p q. (λ e. absurd (omega arith), λ e. omega arith, omega arith, omega arith);
  p9 = λ d p q. (λ e. absurd (omega arith), λ e. omega arith, omega arith, omega arith);
  p10 = λ d p q. (λ e. absurd (omega arith), λ e. omega arith, omega arith, omega arith);
  p11 = λ d p q. (λ e. absurd (omega arith), λ e. omega arith, omega arith, omega arith);
  p12 = λ d p q. (λ e. absurd (omega arith), λ e. omega arith, omega arith, omega arith);
}

-- The day number `n` lies in the year `y`.
pub record InYear (n y : ℤ) : Type 0 where
  pub k : ℕ
  pub count : n ≡ pos k -ℤ pos epoch
  pub low : days_of_years (years_before y - 1) + 307 ≤ k
  pub high : k ≤ days_of_years (years_before y) + 306

pub date-InYear :
    (t : FastDate)
    → IsDate t
    → IsYear t.year
    → InYear (fast_days_from_date_constexpr t.year t.month t.day) t.year
unfolding NewYear
date-InYear t v r =
    let c = counted t v r in
    let place =
      months_elim NewYear new_year c.m c.month_in.0 c.month_in.1 c.d c.day_in.0 c.day_in.1 in
    record {
      k = days_of_years c.u + (doy_of_month c.m + c.d);
      count = c.number;
      low = elim (Bool-cases (leb c.m 2)) [
        | inl early ↦
            omega (arith, c.year_is, ap one_if early, place.0 (ap one_if early), r.low, r.high)
        | inr late ↦ omega (arith, c.year_is, ap one_if late, place.3, r.low, r.high)
      ];
      high = elim (Bool-cases (leb c.m 2)) [
        | inl early ↦ omega (arith, c.year_is, ap one_if early, place.2, r.low, r.high)
        | inr late ↦
            omega (arith, c.year_is, ap one_if late, place.1 (ap one_if late), r.low, r.high)
      ];
    }

pub january :
    (y : ℤ) (d : ℕ)
    → IsYear y
    → (1 ≤ d) × (d ≤ 31)
    → fast_days_from_date_constexpr y (pos 1) (pos d)
      ≡ pos (days_of_years (years_before y - 1) + 306 + d) -ℤ pos epoch
unfolding doy_of_month
january y d r h =
    fast_days-closed y 1 d (years_before y - 1) 7_500_000_000 (omega arith, omega arith) h
      (omega (arith, r.low, r.high)) (eq_of_parts _ _ (omega (int_laws, r.low, r.high)))

pub december :
    (y : ℤ) (d : ℕ)
    → IsYear y
    → (1 ≤ d) × (d ≤ 31)
    → fast_days_from_date_constexpr y (pos 12) (pos d)
      ≡ pos (days_of_years (years_before y) + 275 + d) -ℤ pos epoch
unfolding doy_of_month
december y d r h =
    fast_days-closed y 12 d (years_before y) 7_500_000_000 (omega arith, omega arith) h
      (omega (arith, r.low, r.high)) (eq_of_parts _ _ (omega (int_laws, r.low, r.high)))
