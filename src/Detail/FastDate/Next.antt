-- ===== src/Detail/FastDate/Next.antt =====
-- The day after a date of the calendar has the next day number.
use time_shield_cpp.Base.{
  ℕ, ◌+◌, ◌-◌, ◌*◌, ◌≤◌, ◌<◌, ◌≡◌, refl, sym, ap, subst, ◌∙◌, Bool, true, false, arith, ltb, leb,
  if◌then◌else◌, ◌⊎◌, inl, inr, Bool-cases,
}
use time_shield_cpp.Base.Int.{ℤ, pos, pos_part, neg_part, ◌+ℤ◌, ◌-ℤ◌, ltb_ℤ, int_laws}
use time_shield_cpp.Base.Months.{ForMonths, months_elim}
use time_shield_cpp.Calendar.{is_leap, days_in_month, next_day, date}
use time_shield_cpp.Calendar.Leap.{is_leap-forth, leap_size}
use time_shield_cpp.Detail.FastDate.{FastDate, fast_days_from_date_constexpr}
use time_shield_cpp.Detail.FastDate.Table.{doy_of_month, march_index, one_if, one_if-le}
use time_shield_cpp.Detail.FastDate.Days.{days_of_years, fast_days-closed}
use time_shield_cpp.Detail.FastDate.Order.{IsYear}

pub days_in_month_pos : (y : ℤ) (m : ℕ) → 1 ≤ days_in_month y m
unfolding days_in_month
days_in_month_pos y m = ground arith

-- The three ways to the next day.
pub next_day-cases :
    (y : ℤ) (m d : ℕ)
    → m ≤ 12
    → d ≤ days_in_month y m
    → ((d < days_in_month y m) × (next_day (date y m d) ≡ date y m (d + 1)))
      ⊎ ((d ≡ days_in_month y m) × (m < 12) × (next_day (date y m d) ≡ date y (m + 1) 1))
      ⊎ ((d ≡ days_in_month y m) × (m ≡ 12) × (next_day (date y m d) ≡ date (y +ℤ pos 1) 1 1))
unfolding next_day
next_day-cases y m d p q = elim (Bool-cases (ltb d (days_in_month y m))) [
  | inl l ↦ inl (ground arith, rw l (unfold ◌+ℤ◌ in ground arith))
  | inr e ↦ inr (elim (Bool-cases (ltb_ℤ (pos m) (pos 12))) [
    | inl l ↦ inl (ground arith, ground arith, rw (e, l) (unfold ◌+ℤ◌ in ground arith))
    | inr f ↦ inr (ground arith, ground arith, rw (e, f) refl)
  ])
]

-- The number of a date, by the years since March of the year -3000000000000.
number :
    (y : ℤ) (m d u : ℕ)
    → IsYear y
    → (1 ≤ m) × (m ≤ 12)
    → (1 ≤ d) × (d ≤ 31)
    → pos_part y + 3_000_000_000_000 ≡ u + one_if (leb m 2) + neg_part y
    → fast_days_from_date_constexpr y (pos m) (pos d)
      ≡ pos (days_of_years u + doy_of_month m + d) -ℤ pos (719469 + 146097 * 7_500_000_000)
number y m d u r hm hd e =
    fast_days-closed y m d u 7_500_000_000 hm hd (omega (arith, r.low, r.high))
      (omega (int_laws, e))

-- The year in which the month after `m` is counted.
abbrev later : ℕ → ℕ → ℕ
later u m = u + one_if (leb m 2) - one_if (leb (m + 1) 2)

-- The next month begins where this one ends.
MonthStep : ℕ → Type 0
MonthStep m =
    (y : ℤ) (u : ℕ)
    → pos_part y + 3_000_000_000_000 ≡ u + one_if (leb m 2) + neg_part y
    → m < 12
    → days_of_years u + doy_of_month m + days_in_month y m
      ≡ days_of_years (later u m) + doy_of_month (m + 1)

february_step :
    (u : ℕ) (b : Bool)
    → b ≡ leap_size (u + 1)
    → days_of_years u + 337 + (if b then 29 else 28) ≡ days_of_years (u + 1) + 0
february_step u true e = ground arith
february_step u false e = ground arith

month_steps : ForMonths MonthStep
unfolding MonthStep doy_of_month march_index days_in_month
month_steps = record {
  p1 = λ y u e h. omega arith;
  p2 = λ y u e h.
      omega
        (arith, february_step u (is_leap y) (is_leap-forth y (u + 1) 7_500_000_000 (omega arith)));
  p3 = λ y u e h. omega arith;
  p4 = λ y u e h. omega arith;
  p5 = λ y u e h. omega arith;
  p6 = λ y u e h. omega arith;
  p7 = λ y u e h. omega arith;
  p8 = λ y u e h. omega arith;
  p9 = λ y u e h. omega arith;
  p10 = λ y u e h. omega arith;
  p11 = λ y u e h. omega arith;
  p12 = λ y u e h. absurd (omega arith);
}

days_in_month-le31 : (y : ℤ) (m : ℕ) → days_in_month y m ≤ 31
unfolding days_in_month
days_in_month-le31 y m = ground arith

abbrev Numbered : ℤ → FastDate → Type 0
Numbered n t = fast_days_from_date_constexpr t.year t.month t.day ≡ n

december : (doy_of_month 12 ≡ 275) × (doy_of_month 1 ≡ 306)
unfolding doy_of_month march_index
december = (refl, refl)

december_days : (y : ℤ) → days_in_month y 12 ≡ 31
unfolding days_in_month
december_days y = refl

pub next_number :
    (y : ℤ) (m d : ℕ)
    → IsYear y
    → IsYear (y +ℤ pos 1)
    → (1 ≤ m) × (m ≤ 12)
    → (1 ≤ d) × (d ≤ days_in_month y m)
    → Numbered (fast_days_from_date_constexpr y (pos m) (pos d) +ℤ pos 1) (next_day (date y m d))
unfolding MonthStep
next_number y m d r r' hm hd = elim (next_day-cases y m d hm.1 hd.1) [
  | inl (l, e) ↦ subst (Numbered (n +ℤ pos 1)) (sym e) (
      number y m (d + 1) u r hm (omega (arith, days_in_month-le31 y m)) years
      ∙ omega (int_laws, ap pos_part now, ap neg_part now))
  | inr (inl (l, h, e)) ↦ subst (Numbered (n +ℤ pos 1)) (sym e) (
      number y (m + 1) 1 (later u m) r (omega arith) (omega arith)
        (omega (arith, years, falls m, one_if-le (leb m 2)))
      ∙ omega (int_laws, ap pos_part now, ap neg_part now, step y u years h))
  | inr (inr (l, h, e)) ↦ subst (Numbered (n +ℤ pos 1)) (sym e) (
      number (y +ℤ pos 1) 1 1 u r' (omega arith) (omega arith) (omega (int_laws, years, last m h))
      ∙ omega (
        int_laws,
        ap pos_part now,
        ap neg_part now,
        december,
        december_days y,
        ap doy_of_month h,
        ap (days_in_month y) h,
      ))
]
  where
    n : ℤ
    n = fast_days_from_date_constexpr y (pos m) (pos d)

    u : ℕ
    u = pos_part y + 3_000_000_000_000 - neg_part y - one_if (leb m 2)

    years : pos_part y + 3_000_000_000_000 ≡ u + one_if (leb m 2) + neg_part y
    years = omega (arith, r.low, r.high, one_if-le (leb m 2))

    now : n ≡ pos (days_of_years u + doy_of_month m + d) -ℤ pos (719469 + 146097 * 7_500_000_000)
    now = number y m d u r hm (omega (arith, hd, days_in_month-le31 y m)) years

    step : MonthStep m
    step = months_elim MonthStep month_steps m hm.0 hm.1

    falls : (m : ℕ) → one_if (leb (m + 1) 2) ≤ one_if (leb m 2)
    falls m = ground arith

    last : (m : ℕ) → m ≡ 12 → one_if (leb m 2) ≡ 0
    last m e = ground arith
