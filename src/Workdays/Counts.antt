-- ===== src/Workdays/Counts.antt =====
-- The index of a workday counts the workdays up to it, and its place among the first or the last
-- workdays of the month is told by the workdays before or after it.
use native.Mathlib.Decide.{dec_lt}
use native.Mathlib.Numerals.{add-one}
use time_shield_cpp.Base.{
  ℕ, zero, suc, ◌+◌, ◌-◌, ◌≤◌, ◌<◌, ◌≡◌, refl, ap, sym, ◌∙◌, true, false, if◌then◌else◌, ◌↔◌, arith,
  Bool-cases, inl, inr,
}
use time_shield_cpp.Base.Int.{ℤ, pos, pos_part, ◌≤ℤ◌, ◌-ℤ◌, ◌+ℤ◌, ◌==ℤ◌, leb_ℤ}
use time_shield_cpp.Validation.{is_workday}
use time_shield_cpp.DateTime.{num_days_in_month}
use time_shield_cpp.Workdays.{
  count_loop, count_workdays_in_month, index_loop, workday_index_in_month,
  is_within_first_workdays_of_month, is_within_last_workdays_of_month,
}

-- The workdays from day 1 to `day` of a month.
unfoldable pub workdays_upto : ℤ → ℤ → ℕ → ℕ
workdays_upto y m zero = 0
workdays_upto y m (suc d) = workdays_upto y m d + (if is_workday y m (pos (suc d)) then 1 else 0)

pub upto-next :
    (y m : ℤ) (d : ℕ)
    → workdays_upto y m (d + 1)
      ≡ (if is_workday y m (pos (d + 1)) then workdays_upto y m d + 1 else workdays_upto y m d)
unfolding workdays_upto
upto-next y m d = rw (add-one d) (elim (Bool-cases (is_workday y m (pos (suc d)))) [
  | inl on ↦ rw on (omega arith)
  | inr off ↦ rw off (omega arith)
])

pub upto_mono : (y m : ℤ) (d e : ℕ) → d ≤ e → workdays_upto y m d ≤ workdays_upto y m e
unfolding workdays_upto
upto_mono y m d zero h = ap-le (omega arith)
  where
    ap-le : d ≡ 0 → workdays_upto y m d ≤ 0
    ap-le e = rw e (omega arith)
upto_mono y m d (suc e) h = elim (dec_lt e d) [
  | yes last ↦ rw (the-last last) (omega arith)
  | no before ↦ omega (arith, upto_mono y m d e (omega arith))
]
  where
    the-last : e < d → d ≡ suc e
    the-last l = omega arith

count_loop-upto :
    (y m : ℤ) (d left : ℕ)
    → count_loop y m (d + 1) left (workdays_upto y m d) ≡ workdays_upto y m (d + left)
unfolding count_loop workdays_upto
count_loop-upto y m d zero = ap (workdays_upto y m) {x = d} {y = d + 0} (omega arith)
count_loop-upto y m d (suc left) =
    let next = count_loop-upto y m (d + 1) left in
    rw (sym (upto-next y m d)) (next ∙ ap (workdays_upto y m) (omega arith))

index_loop-upto :
    (y m : ℤ) (day current left : ℕ)
    → is_workday y m (pos day) ≡ true
    → current < day
    → day ≤ current + left
    → index_loop y m (pos day) (current + 1) left (workdays_upto y m current)
      ≡ workdays_upto y m day
unfolding index_loop workdays_upto
index_loop-upto y m day current zero w l h = absurd (omega arith)
index_loop-upto y m day current (suc left) w l h = elim (dec_lt (current + 1) day) [
  | yes later ↦
      let other : ((pos (current + 1) ==ℤ pos day) ≡ false) = ground arith in
      let next = index_loop-upto y m day (current + 1) left w later (omega arith) in
      elim (Bool-cases (is_workday y m (pos (current + 1)))) [
        | inl on ↦
            rw (on, other)
              (ap (index_loop y m (pos day) (current + 1 + 1) left) (
                  sym (
                    upto-next y m current
                    ∙ ap
                        (λ b.
                          if b then workdays_upto y m current + 1 else workdays_upto y m current)
                        on))
                ∙ next)
        | inr off ↦ rw off (
            ap (index_loop y m (pos day) (current + 1 + 1) left) (
              sym (
                upto-next y m current
                ∙ ap (λ b. if b then workdays_upto y m current + 1 else workdays_upto y m current)
                    off))
            ∙ next)
      ]
  | no now ↦
      let here : (current + 1 ≡ day) = omega arith in
      let on : (is_workday y m (pos (current + 1)) ≡ true) =
        ap (λ d. is_workday y m (pos d)) here ∙ w in
      let same : ((pos (current + 1) ==ℤ pos day) ≡ true) = ground arith in
      rw (on, same)
        (sym (
            upto-next y m current
            ∙ ap (λ b. if b then workdays_upto y m current + 1 else workdays_upto y m current) on)
          ∙ ap (workdays_upto y m) here)
]

pub upto-workday :
    (y m : ℤ) (d : ℕ)
    → 1 ≤ d
    → is_workday y m (pos d) ≡ true
    → workdays_upto y m d ≡ workdays_upto y m (d - 1) + 1
unfolding workdays_upto
upto-workday y m zero l w = absurd (omega arith)
upto-workday y m (suc d) l w =
    let same : (workdays_upto y m d ≡ workdays_upto y m (suc d - 1)) =
      ap (workdays_upto y m) {x = d} {y = suc d - 1} (omega arith) in
    rw w (omega (arith, same))

pub some_days : (days : ℤ) (d : ℕ) → 1 ≤ d → pos d ≤ℤ days → leb_ℤ days (pos 0) ≡ false
some_days days d l h = ground arith

count_workdays_in_month-upto :
    (y m : ℤ) (d : ℕ)
    → 1 ≤ d
    → pos d ≤ℤ num_days_in_month y m
    → count_workdays_in_month y m ≡ workdays_upto y m (pos_part (num_days_in_month y m))
unfolding count_workdays_in_month workdays_upto
count_workdays_in_month-upto y m d l h = rw (some_days _ d l h) (
    count_loop-upto y m 0 (pos_part (num_days_in_month y m))
    ∙ ap (workdays_upto y m) {x = 0 + pos_part (num_days_in_month y m)} (omega arith))

workday_index_in_month-upto :
    (y m : ℤ) (d : ℕ)
    → 1 ≤ d
    → pos d ≤ℤ num_days_in_month y m
    → is_workday y m (pos d) ≡ true
    → workday_index_in_month y m (pos d) ≡ workdays_upto y m d
unfolding workday_index_in_month workdays_upto
workday_index_in_month-upto y m d l h w =
    rw (w, some_days _ d l h)
      (index_loop-upto y m d 0 (pos_part (num_days_in_month y m)) w l (omega (arith, h)))

index_zero :
    (y m : ℤ) (d : ℕ) → is_workday y m (pos d) ≡ false → workday_index_in_month y m (pos d) ≡ 0
unfolding workday_index_in_month
index_zero y m d w = rw w refl

-- The tests with the count and the index that they compute.
within_first_cases :
    (y m day : ℤ) (n total index : ℕ)
    → count_workdays_in_month y m ≡ total
    → workday_index_in_month y m day ≡ index
    → (is_within_first_workdays_of_month y m day (pos n) ≡ true)
      ↔ ((1 ≤ index) × (index ≤ n) × (n ≤ total))
unfolding is_within_first_workdays_of_month
within_first_cases y m day n total index e f = (λ h. ground arith, λ h. ground arith)

within_last_cases :
    (y m day : ℤ) (n total index : ℕ)
    → count_workdays_in_month y m ≡ total
    → workday_index_in_month y m day ≡ index
    → (is_within_last_workdays_of_month y m day (pos n) ≡ true)
      ↔ ((1 ≤ index) × (total + 1 ≤ index + n) × (1 ≤ n) × (n ≤ total))
unfolding is_within_last_workdays_of_month ◌-ℤ◌ ◌+ℤ◌
within_last_cases y m day n total index e f = (λ h. ground arith, λ h. ground arith)

-- A day of a month is within the first n workdays exactly if it is a workday, at most n workdays
-- are up to it and the month has n; it is within the last n exactly if it is a workday, at most n
-- workdays are from it to the end of the month and the month has n.
pub is_within_workdays-upto :
    (y m : ℤ) (d n : ℕ)
    → 1 ≤ d
    → pos d ≤ℤ num_days_in_month y m
    → let upto = workdays_upto y m d in
      let before = workdays_upto y m (d - 1) in
      let total = workdays_upto y m (pos_part (num_days_in_month y m)) in
      ((is_within_first_workdays_of_month y m (pos d) (pos n) ≡ true)
        ↔ ((is_workday y m (pos d) ≡ true) × (upto ≤ n) × (n ≤ total)))
      × ((is_within_last_workdays_of_month y m (pos d) (pos n) ≡ true)
          ↔ ((is_workday y m (pos d) ≡ true) × (total ≤ before + n) × (n ≤ total)))
is_within_workdays-upto y m d n l h =
    let total = count_workdays_in_month-upto y m d l h in
    elim (Bool-cases (is_workday y m (pos d))) [
      | inl w ↦
          let index = workday_index_in_month-upto y m d l h w in
          let first = within_first_cases y m (pos d) n _ _ total index in
          let last = within_last_cases y m (pos d) n _ _ total index in
          let step = upto-workday y m d l w in
          let le = upto_mono y m d (pos_part (num_days_in_month y m)) (omega (arith, h)) in
          (
            (
              λ e. (w, (first.0 e).1, (first.0 e).2),
              λ (v, a, b). first.1 (omega (arith, step), a, b),
            ),
            (
              λ e. (w, omega (arith, last.0 e, step), (last.0 e).3),
              λ (v, a, b).
                  last.1
                    (omega (arith, step), omega (arith, step, a), omega (arith, step, a, le), b),
            ),
          )
      | inr off ↦
          let index = index_zero y m d off in
          let first = within_first_cases y m (pos d) n _ _ total index in
          let last = within_last_cases y m (pos d) n _ _ total index in
          (
            (λ e. absurd (omega (arith, first.0 e)), λ (v, a, b). absurd (ground (arith, off, v))),
            (λ e. absurd (omega (arith, last.0 e)), λ (v, a, b). absurd (ground (arith, off, v))),
          )
    ]
