-- ===== src/Workdays/Row.antt =====
-- Of three days of a month in a row one is a workday.
use native.Mathlib.Decide.{dec_lt}
use time_shield_cpp.Base.{
  ℕ, ◌+◌, ◌-◌, ◌*◌, ◌≤◌, ◌≡◌, refl, ap, sym, ◌∙◌, true, false, ◌⊎◌, arith, Bool-cases, inl, inr,
  leb,
}
use time_shield_cpp.Base.Int.{
  ℤ, pos, pos_part, neg_part, ◌≤ℤ◌, ◌<ℤ◌, ◌-ℤ◌, ◌+ℤ◌, ◌*ℤ◌, int_laws, eq_of_parts, parts_disjoint,
}
use time_shield_cpp.Constants.{min_year, max_year}
use time_shield_cpp.Calendar.{days_in_month}
use time_shield_cpp.Detail.FloorMath.{floor_mod, floor_div-floor_mod}
use time_shield_cpp.Detail.FastDate.Table.{one_if, one_if-le}
use time_shield_cpp.Detail.FastDate.Days.{fast_days-closed}
use time_shield_cpp.Validation.{is_workday}
use time_shield_cpp.Validation.Dates.{InCalendar}
use time_shield_cpp.Validation.Workdays.{IsMidweek, is_workday-InCalendar}
use time_shield_cpp.UnixTime.{date_to_unix_day, unix_day_to_ts}
use time_shield_cpp.Periods.{weekday_of_ts}
use time_shield_cpp.Periods.Weeks.{day_multiple}

abbrev pub number : ℤ → ℕ → ℕ → ℤ
number y m d = date_to_unix_day y (pos m) (pos d)

-- A month of the calendar that the checks accept.
pub record IsMonth (y : ℤ) (m : ℕ) : Type 0 where
  pub low : min_year ≤ℤ y
  pub high : y ≤ℤ max_year
  pub month_in : (1 ≤ m) × (m ≤ 12)

pub day_shift :
    (y : ℤ) (m d k : ℕ)
    → IsMonth y m
    → 1 ≤ d
    → d + k ≤ 31
    → number y m (d + k) ≡ number y m d +ℤ pos k
unfolding date_to_unix_day
day_shift y m d k v l h =
    let u = pos_part y + 3_000_000_000_000 - neg_part y - one_if (leb m 2) in
    let year : (y ≡ pos (u + one_if (leb m 2)) -ℤ pos (400 * 7_500_000_000)) =
      eq_of_parts _ _ (omega (int_laws, v.low, v.high, one_if-le (leb m 2), parts_disjoint y)) in
    let low : (u ≤ 6_000_000_000_000) = omega (arith, v.low, v.high, parts_disjoint y) in
    fast_days-closed y m (d + k) u 7_500_000_000 v.month_in (omega arith, h) low year
    ∙ eq_of_parts _ _ (omega int_laws)
    ∙ ap (λ n. n +ℤ pos k)
        (sym (fast_days-closed y m d u 7_500_000_000 v.month_in (l, omega arith) low year))

month_day-InCalendar :
    (y : ℤ) (m d : ℕ) → IsMonth y m → 1 ≤ d → d ≤ days_in_month y m → InCalendar y (pos m) (pos d)
month_day-InCalendar y m d v l h = record {
  is_date = record {
    m = m;
    d = d;
    month_is = refl;
    day_is = refl;
    month_in = v.month_in;
    day_in = (l, h);
  };
  low = v.low;
  high = v.high;
}

pub length_in : (y : ℤ) (m : ℕ) → (28 ≤ days_in_month y m) × (days_in_month y m ≤ 31)
unfolding days_in_month
length_in y m = ground arith

midweek-workday :
    (y : ℤ) (m d : ℕ)
    → IsMonth y m
    → 1 ≤ d
    → d ≤ days_in_month y m
    → let w = floor_mod (number y m d +ℤ pos 4) (pos 7) in
      (pos 1 ≤ℤ w) × (w ≤ℤ pos 5) → is_workday y (pos m) (pos d) ≡ true
unfolding IsMidweek weekday_of_ts unix_day_to_ts
midweek-workday y m d v l h w =
    let n = number y m d in
    (is_workday-InCalendar y (pos m) (pos d) (inl (omega (arith, h, length_in y m)))).1
      (month_day-InCalendar y m d v l h, rw ((day_multiple (n *ℤ pos 86400) n refl).0) w)

off-weekend :
    (y : ℤ) (m d : ℕ)
    → IsMonth y m
    → 1 ≤ d
    → d ≤ days_in_month y m
    → is_workday y (pos m) (pos d) ≡ false
    → let w = floor_mod (number y m d +ℤ pos 4) (pos 7) in (pos_part w ≡ 0) ⊎ (6 ≤ pos_part w)
off-weekend y m d v l h off =
    let w = floor_mod (number y m d +ℤ pos 4) (pos 7) in
    elim (dec_lt (pos_part w) 1) [
      | yes sunday ↦ inl (omega arith)
      | no later ↦ elim (dec_lt (pos_part w) 6) [
        | yes midweek ↦
            let f = floor_div-floor_mod (number y m d +ℤ pos 4) 7 (omega arith) in
            let on =
              midweek-workday y m d v l h
                (omega (arith, f.1, parts_disjoint w), omega (arith, f.1, parts_disjoint w)) in
            absurd (ground (arith, on, off))
        | no saturday ↦ inr (omega arith)
      ]
    ]

three_weekdays :
    (n n1 n2 q q1 q2 w w1 w2 : ℤ)
    → n1 ≡ n +ℤ pos 1
    → n2 ≡ n +ℤ pos 2
    → (n +ℤ pos 4 ≡ q *ℤ pos 7 +ℤ w) × (pos 0 ≤ℤ w) × (w <ℤ pos 7)
    → (n1 +ℤ pos 4 ≡ q1 *ℤ pos 7 +ℤ w1) × (pos 0 ≤ℤ w1) × (w1 <ℤ pos 7)
    → (n2 +ℤ pos 4 ≡ q2 *ℤ pos 7 +ℤ w2) × (pos 0 ≤ℤ w2) × (w2 <ℤ pos 7)
    → (pos_part w ≡ 0) ⊎ (6 ≤ pos_part w)
    → (pos_part w1 ≡ 0) ⊎ (6 ≤ pos_part w1)
    → (pos 1 ≤ℤ w2) × (w2 ≤ℤ pos 5)
three_weekdays n n1 n2 q q1 q2 w w1 w2 e1 e2 (f, a, b) (g, c, d) (h, i, j) off off1 =
    let facts : ((pos_part w2 + 5 ≤ 3 + 5) × (1 ≤ pos_part w2)) = (
      omega (
        int_laws,
        ap pos_part e1,
        ap neg_part e1,
        ap pos_part e2,
        ap neg_part e2,
        ap pos_part f,
        ap neg_part f,
        ap pos_part g,
        ap neg_part g,
        ap pos_part h,
        ap neg_part h,
      ),
      omega (
        int_laws,
        ap pos_part e1,
        ap neg_part e1,
        ap pos_part e2,
        ap neg_part e2,
        ap pos_part f,
        ap neg_part f,
        ap pos_part g,
        ap neg_part g,
        ap pos_part h,
        ap neg_part h,
      ),
    ) in
    (omega (arith, facts, parts_disjoint w2), omega (arith, facts, parts_disjoint w2))

-- Of three days in a row one is a workday.
pub three_days :
    (y : ℤ) (m d : ℕ)
    → IsMonth y m
    → 1 ≤ d
    → d + 2 ≤ days_in_month y m
    → (is_workday y (pos m) (pos d) ≡ true)
      ⊎ (is_workday y (pos m) (pos (d + 1)) ≡ true)
      ⊎ (is_workday y (pos m) (pos (d + 2)) ≡ true)
three_days y m d v l h =
    let n = number y m d in
    let long = length_in y m in
    elim (Bool-cases (is_workday y (pos m) (pos d))) [
      | inl on ↦ inl on
      | inr off ↦ elim (Bool-cases (is_workday y (pos m) (pos (d + 1)))) [
        | inl on ↦ inr (inl on)
        | inr off_too ↦
            let a = off-weekend y m d v l (omega arith) off in
            let b = off-weekend y m (d + 1) v (omega arith) (omega arith) off_too in
            let f = floor_div-floor_mod (n +ℤ pos 4) 7 (omega arith) in
            let g = floor_div-floor_mod (number y m (d + 1) +ℤ pos 4) 7 (omega arith) in
            let k = floor_div-floor_mod (number y m (d + 2) +ℤ pos 4) 7 (omega arith) in
            let p = day_shift y m d 1 v l (omega (arith, long, h)) in
            let q = day_shift y m d 2 v l (omega (arith, long, h)) in
            let range = three_weekdays n _ _ _ _ _ _ _ _ p q f g k a b in
            inr (inr (midweek-workday y m (d + 2) v (omega arith) h range))
      ]
    ]
