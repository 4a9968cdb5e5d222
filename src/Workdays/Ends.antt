-- ===== src/Workdays/Ends.antt =====
-- Each month of the calendar has a workday among its first and among its last three days, which
-- the searches find.
use native.Mathlib.Decide.{dec_lt}
use time_shield_cpp.Base.{
  ℕ, zero, suc, ◌+◌, ◌-◌, ◌≤◌, ◌<◌, ◌≡◌, refl, ap, ◌∙◌, true, if◌then◌else◌, arith, Bool-cases, inl,
  inr,
}
use time_shield_cpp.Base.Int.{ℤ, pos}
use time_shield_cpp.Calendar.{days_in_month}
use time_shield_cpp.Validation.{is_workday}
use time_shield_cpp.DateTime.Lengths.{num_days_in_month-days_in_month}
use time_shield_cpp.Workdays.{
  first_workday_loop, first_workday_day, last_workday_loop, last_workday_day,
}
use time_shield_cpp.Workdays.Counts.{workdays_upto, upto-next, upto-workday, some_days}
use time_shield_cpp.Workdays.Row.{IsMonth, length_in, three_days}

-- Where a workday is to come, the search finds one at or before it.
first_workday_loop-upto :
    (y m : ℤ) (c left j : ℕ)
    → workdays_upto y m c ≡ 0
    → c < j
    → j ≤ c + left
    → is_workday y m (pos j) ≡ true
    → let r = first_workday_loop y m (c + 1) left in
      (is_workday y m (pos r) ≡ true) × (r ≤ j) × (1 ≤ r) × (workdays_upto y m r ≡ 1)
unfolding first_workday_loop
first_workday_loop-upto y m c zero j z l h w = absurd (omega arith)
first_workday_loop-upto y m c (suc left) j z l h w =
    elim (Bool-cases (is_workday y m (pos (c + 1)))) [
      | inl on ↦ rw on (
        on,
        omega arith,
        omega arith,
        omega (
          arith,
          upto-workday y m (c + 1) (omega arith) on,
          ap (workdays_upto y m) {x = c + 1 - 1} {y = c} (omega arith),
        ),
      )
      | inr off ↦
          let next =
            upto-next y m c
            ∙ ap (λ b. if b then workdays_upto y m c + 1 else workdays_upto y m c) off
            ∙ z in
          elim (dec_lt (c + 1) j) [
            | yes more ↦
                rw off (first_workday_loop-upto y m (c + 1) left j next more (omega arith) w)
            | no last ↦
                let same = ap (λ d. is_workday y m (pos d)) {x = j} {y = c + 1} (omega arith) in
                absurd (ground (arith, same, off, w))
          ]
    ]

last_workday_loop-upto :
    (y m : ℤ) (days j : ℕ)
    → 1 ≤ j
    → j ≤ days
    → is_workday y m (pos j) ≡ true
    → let r = last_workday_loop y m days in
      (is_workday y m (pos r) ≡ true)
      × (j ≤ r)
      × (r ≤ days)
      × (workdays_upto y m r ≡ workdays_upto y m days)
unfolding last_workday_loop workdays_upto
last_workday_loop-upto y m zero j l h w = absurd (omega arith)
last_workday_loop-upto y m (suc before) j l h w =
    elim (Bool-cases (is_workday y m (pos (suc before)))) [
      | inl on ↦
          rw on (on, h, omega arith, ap (λ b. workdays_upto y m before + (if b then 1 else 0)) on)
      | inr off ↦ elim (dec_lt before j) [
        | yes last ↦
            let same = ap (λ d. is_workday y m (pos d)) {x = j} {y = suc before} (omega arith) in
            absurd (ground (arith, same, off, w))
        | no more ↦
            let rest = last_workday_loop-upto y m before j l (omega arith) w in
            rw off (rest.0, rest.1, omega (arith, rest.2), omega (arith, rest.3))
      ]
    ]

first_of_month :
    (y : ℤ) (m j : ℕ)
    → IsMonth y m
    → (1 ≤ j) × (j ≤ 3)
    → is_workday y (pos m) (pos j) ≡ true
    → let first = first_workday_day y (pos m) in
      (is_workday y (pos m) (pos first) ≡ true) × (first ≤ 3) × (workdays_upto y (pos m) first ≡ 1)
unfolding first_workday_day workdays_upto
first_of_month y m j v h w =
    let long = length_in y m in
    let days = days_in_month y m in
    let r =
      first_workday_loop-upto y (pos m) 0 days j refl (omega arith) (omega (arith, h, long)) w in
    rw
      (
        num_days_in_month-days_in_month y m v.month_in.0 v.month_in.1,
        some_days (pos days) 1 (omega arith) (omega (arith, long)),
      )
      (r.0, omega (arith, r.1, h), r.3)

last_of_month :
    (y : ℤ) (m j : ℕ)
    → IsMonth y m
    → (days_in_month y m ≤ j + 2) × (j ≤ days_in_month y m)
    → is_workday y (pos m) (pos j) ≡ true
    → let last = last_workday_day y (pos m) in
      let days = days_in_month y m in
      (is_workday y (pos m) (pos last) ≡ true)
      × (days ≤ last + 2)
      × (last ≤ days)
      × (workdays_upto y (pos m) last ≡ workdays_upto y (pos m) days)
unfolding last_workday_day
last_of_month y m j v h w =
    let long = length_in y m in
    let days = days_in_month y m in
    let r = last_workday_loop-upto y (pos m) days j (omega (arith, h, long)) h.1 w in
    rw
      (
        num_days_in_month-days_in_month y m v.month_in.0 v.month_in.1,
        some_days (pos days) 1 (omega arith) (omega (arith, long)),
      )
      (r.0, omega (arith, r.1, h), r.2, r.3)

-- In a month from 1 to 12 of a year from MIN_YEAR to MAX_YEAR, the first workday is a workday, is
-- among the first three days and is the first by count; the last workday is a workday, is among
-- the last three days and no workday comes after it.
pub first_workday_day-last_workday_day :
    (y : ℤ) (m : ℕ)
    → IsMonth y m
    → let first = first_workday_day y (pos m) in
      let last = last_workday_day y (pos m) in
      let days = days_in_month y m in
      ((is_workday y (pos m) (pos first) ≡ true)
        × (first ≤ 3)
        × (workdays_upto y (pos m) first ≡ 1))
      × ((is_workday y (pos m) (pos last) ≡ true)
          × (days ≤ last + 2)
          × (last ≤ days)
          × (workdays_upto y (pos m) last ≡ workdays_upto y (pos m) days))
first_workday_day-last_workday_day y m v =
    let long = length_in y m in
    let days = days_in_month y m in
    (
      elim (three_days y m 1 v (omega arith) (omega (arith, long))) [
        | inl on ↦ first_of_month y m 1 v (omega arith, omega arith) on
        | inr (inl on) ↦ first_of_month y m 2 v (omega arith, omega arith) on
        | inr (inr on) ↦ first_of_month y m 3 v (omega arith, omega arith) on
      ],
      elim (three_days y m (days - 2) v (omega (arith, long)) (omega (arith, long))) [
        | inl on ↦ last_of_month y m (days - 2) v (omega (arith, long), omega (arith, long)) on
        | inr (inl on) ↦
            last_of_month y m (days - 2 + 1) v (omega (arith, long), omega (arith, long)) on
        | inr (inr on) ↦
            last_of_month y m (days - 2 + 2) v (omega (arith, long), omega (arith, long)) on
      ],
    )
