-- ===== src/Detail/FastDate/Order.antt =====
-- Day numbers order the dates of the calendar: equal numbers come from equal dates, and the day
-- after a date has the next number.
use native.Mathlib.Nat.{add_assoc}
use native.Mathlib.Decide.{dec_lt}
use time_shield_cpp.Base.{
  ℕ, ◌+◌, ◌-◌, ◌*◌, ◌/◌, ◌%◌, ◌≤◌, ◌≡◌, sym, ap, ◌∙◌, true, ◌&&◌, arith, leb, ◌==◌, ◌⊎◌, inl, inr,
  ◌≢◌, Bool-cases,
}
use time_shield_cpp.Base.Int.{ℤ, pos, pos_part, neg_part, ◌-ℤ◌, int_laws}
use time_shield_cpp.Base.Months.{ForMonths, months_elim}
use time_shield_cpp.Calendar.{IsDate, is_leap, days_in_month}
use time_shield_cpp.Calendar.Leap.{is_leap-forth, leap_size}
use time_shield_cpp.Detail.FastDate.{FastDate, fast_days_from_date_constexpr}
use time_shield_cpp.Detail.FastDate.Table.{doy_of_month, march_index, longest, one_if, one_if-le}
use time_shield_cpp.Detail.FastDate.Days.{days_of_years, fast_days-closed}

-- The years for which the sums of the conversions stay far inside a word.
pub record IsYear (y : ℤ) : Type 0 where
  pub low : neg_part y ≤ 2_967_369_602_200
  pub high : pos_part y ≤ 2_967_369_602_200

-- A date by the years before it, counted from March of the year -3000000000000, and its place.
pub record Counted (t : FastDate) : Type 0 where
  pub m : ℕ
  pub d : ℕ
  pub u : ℕ
  pub month_is : t.month ≡ pos m
  pub day_is : t.day ≡ pos d
  pub year_is : pos_part t.year + 3_000_000_000_000 ≡ u + one_if (leb m 2) + neg_part t.year
  pub month_in : (1 ≤ m) × (m ≤ 12)
  pub day_in : (1 ≤ d) × (d ≤ longest m)
  -- February 29th ends a leap year only.
  pub leap_day : m ≡ 2 → d ≡ 29 → leap_size (u + 1) ≡ true
  pub number :
      fast_days_from_date_constexpr t.year t.month t.day
      ≡ pos (days_of_years u + (doy_of_month m + d)) -ℤ pos (719469 + 146097 * 7_500_000_000)

days_in_month-le : (y : ℤ) (m : ℕ) → days_in_month y m ≤ longest m
unfolding days_in_month longest
days_in_month-le y m = ground arith

pub longest-le : (m : ℕ) → longest m ≤ 31
unfolding longest
longest-le m = ground arith

one_if-two : (m : ℕ) → m ≡ 2 → one_if (leb m 2) ≡ 1
one_if-two m e = ground arith

february-leap : (y : ℤ) (m d : ℕ) → d ≤ days_in_month y m → m ≡ 2 → d ≡ 29 → is_leap y ≡ true
unfolding days_in_month
february-leap y m d h two last = ground arith

leap_day_lem :
    (y : ℤ) (m d u : ℕ)
    → d ≤ days_in_month y m
    → pos_part y + 3_000_000_000_000 ≡ u + one_if (leb m 2) + neg_part y
    → m ≡ 2
    → d ≡ 29
    → leap_size (u + 1) ≡ true
leap_day_lem y m d u h e two last =
    sym (is_leap-forth y (u + 1) 7_500_000_000 (omega (arith, one_if-two m two)))
    ∙ february-leap y m d h two last

pub counted : (t : FastDate) → IsDate t → IsYear t.year → Counted t
counted t v r = record {
  m = v.m;
  d = v.d;
  u = u;
  month_is = v.month_is;
  day_is = v.day_is;
  year_is = years;
  month_in = v.month_in;
  day_in = (v.day_in.0, omega (arith, v.day_in.1, days_in_month-le t.year v.m));
  leap_day = leap_day_lem t.year v.m v.d u v.day_in.1 years;
  number =
      rw (v.month_is, v.day_is)
        (fast_days-closed t.year v.m v.d u 7_500_000_000 v.month_in
            (v.day_in.0, omega (arith, v.day_in.1, days_in_month-le t.year v.m, longest-le v.m))
            (omega (arith, r.low, r.high)) (omega (int_laws, years))
          ∙ ap (λ n. pos n -ℤ pos (719469 + 146097 * 7_500_000_000)) (add_assoc _ _ _));
}
  where
    u : ℕ
    u = pos_part t.year + 3_000_000_000_000 - neg_part t.year - one_if (leb v.m 2)

    years : pos_part t.year + 3_000_000_000_000 ≡ u + one_if (leb v.m 2) + neg_part t.year
    years = omega (arith, r.low, r.high, one_if-le (leb v.m 2))

-- The place of a day in its year, and the year's length.
DoyPlace : ℕ → Type 0
DoyPlace m =
    (d : ℕ)
    → 1 ≤ d
    → d ≤ longest m
    → (doy_of_month m + d ≤ 366)
      × ((5 * (doy_of_month m + d - 1) + 2) / 153 ≡ march_index m)
      × ((m ≢ 2) ⊎ (d ≢ 29) → doy_of_month m + d ≤ 365)

doy_place : ForMonths DoyPlace
unfolding DoyPlace doy_of_month march_index longest
doy_place = record {
  p1 = λ d p q. (omega arith, omega arith, λ n. omega arith);
  p2 = λ d p q. (omega arith, omega arith, λ n. omega arith);
  p3 = λ d p q. (omega arith, omega arith, λ n. omega arith);
  p4 = λ d p q. (omega arith, omega arith, λ n. omega arith);
  p5 = λ d p q. (omega arith, omega arith, λ n. omega arith);
  p6 = λ d p q. (omega arith, omega arith, λ n. omega arith);
  p7 = λ d p q. (omega arith, omega arith, λ n. omega arith);
  p8 = λ d p q. (omega arith, omega arith, λ n. omega arith);
  p9 = λ d p q. (omega arith, omega arith, λ n. omega arith);
  p10 = λ d p q. (omega arith, omega arith, λ n. omega arith);
  p11 = λ d p q. (omega arith, omega arith, λ n. omega arith);
  p12 = λ d p q. (omega arith, omega arith, λ n. omega arith);
}

leap_cases : (n : ℕ) → leap_size n ≡ true → (n % 4 ≡ 0) × ((n % 100 ≢ 0) ⊎ (n % 400 ≡ 0))
leap_cases n h = ground arith

years-lt :
    (u x : ℕ)
    → x ≤ 366
    → (x ≤ 365) ⊎ (leap_size (u + 1) ≡ true)
    → days_of_years u + x ≤ days_of_years (u + 1)
years-lt u x h (inl l) = omega arith
years-lt u x h (inr l) = omega (arith, leap_cases (u + 1) l)

pub years_mono : (u v : ℕ) → u ≤ v → days_of_years u ≤ days_of_years v
years_mono u v h = omega arith

module _ {t : FastDate} (c : Counted t) where
  place : DoyPlace c.m
  place = months_elim DoyPlace doy_place c.m c.month_in.0 c.month_in.1

  abbrev doy : ℕ
  doy = doy_of_month c.m + c.d

  index_is : (5 * (doy - 1) + 2) / 153 ≡ march_index c.m
  unfolding DoyPlace
  index_is = (place c.d c.day_in.0 c.day_in.1).1

  -- The day lies within its year.
  fits : days_of_years c.u + doy ≤ days_of_years (c.u + 1)
  unfolding DoyPlace
  fits = elim (Bool-cases (c.m == 2 && c.d == 29)) [
    | inl last ↦
        years-lt c.u doy (place c.d c.day_in.0 c.day_in.1).0
          (inr (c.leap_day (ground arith) (ground arith)))
    | inr other ↦
        years-lt c.u doy (place c.d c.day_in.0 c.day_in.1).0
          (inl ((place c.d c.day_in.0 c.day_in.1).2 (ground arith)))
  ]

same_year :
    (u v x y : ℕ)
    → 1 ≤ x
    → 1 ≤ y
    → days_of_years u + x ≤ days_of_years (u + 1)
    → days_of_years v + y ≤ days_of_years (v + 1)
    → days_of_years u + x ≡ days_of_years v + y
    → u ≡ v
same_year u v x y p q h k e = elim (dec_lt u v) [
  | yes l ↦ absurd (omega (arith, years_mono (u + 1) v (omega arith)))
  | no n ↦ elim (dec_lt v u) [
    | yes l ↦ absurd (omega (arith, years_mono (v + 1) u (omega arith)))
    | no k ↦ omega arith
  ]
]

march_index-inj :
    (m n : ℕ) → (1 ≤ m) × (m ≤ 12) → (1 ≤ n) × (n ≤ 12) → march_index m ≡ march_index n → m ≡ n
unfolding march_index
march_index-inj m n p q e = ground arith

numbers-eq : (a b k : ℕ) → pos a -ℤ pos k ≡ pos b -ℤ pos k → a ≡ b
numbers-eq a b k e = omega (int_laws, ap pos_part e, ap neg_part e)

pub FastDate-eq : (t w : FastDate) → t.year ≡ w.year → t.month ≡ w.month → t.day ≡ w.day → t ≡ w
FastDate-eq t w p q r = λ i. record { year = p i; month = q i; day = r i }

pub fast_days-injective :
    (t w : FastDate) (a : Counted t) (b : Counted w)
    → fast_days_from_date_constexpr t.year t.month t.day
      ≡ fast_days_from_date_constexpr w.year w.month w.day
    → t ≡ w
fast_days-injective t w a b e =
    let sums : days_of_years a.u + doy a ≡ days_of_years b.u + doy b =
      numbers-eq _ _ (719469 + 146097 * 7_500_000_000) (sym a.number ∙ e ∙ b.number) in
    let years : a.u ≡ b.u =
      same_year a.u b.u (doy a) (doy b) (omega (arith, a.day_in.0)) (omega (arith, b.day_in.0))
        (fits a) (fits b) sums in
    let doys : doy a ≡ doy b = omega (arith, sums, ap days_of_years years) in
    let months : a.m ≡ b.m =
      march_index-inj a.m b.m a.month_in b.month_in
        (sym (index_is a) ∙ ap (λ x. (5 * (x - 1) + 2) / 153) doys ∙ index_is b) in
    let days : a.d ≡ b.d = omega (arith, doys, ap doy_of_month months) in
    FastDate-eq t w
      (omega (int_laws, a.year_is, b.year_is, years, ap (λ m. one_if (leb m 2)) months))
      (a.month_is ∙ ap pos months ∙ sym b.month_is) (a.day_is ∙ ap pos days ∙ sym b.day_is)
