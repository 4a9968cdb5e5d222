-- ===== src/TimeZones/ChangeTimes.antt =====
-- Dates in the order of their day numbers, before and after a day late in March or October.
use native.Mathlib.Decide.{dec_lt}
use time_shield_cpp.Base.{
  ℕ, ◌+◌, ◌-◌, ◌*◌, ◌≤◌, ◌<◌, ◌≡◌, ap, sym, ◌∙◌, leb, arith, ◌⊎◌, inl, inr, Bool-cases, Bool, true,
  false, ◌&&◌, ◌||◌,
}
use time_shield_cpp.Base.Int.{
  ℤ, pos, pos_part, neg_part, ◌+ℤ◌, ◌-ℤ◌, ◌*ℤ◌, ◌≤ℤ◌, ◌<ℤ◌, leb_ℤ, ltb_ℤ, ◌==ℤ◌, int_laws,
  eq_of_parts, parts_disjoint,
}
use time_shield_cpp.Base.Months.{ForMonths, months_elim}
use time_shield_cpp.Constants.{max_year}
use time_shield_cpp.Detail.FastDate.Table.{doy_of_month, one_if, one_if-le}
use time_shield_cpp.Detail.FastDate.Days.{days_of_years, fast_days-closed}
use time_shield_cpp.UnixTime.{date_to_unix_day}
use time_shield_cpp.Workdays.Row.{number}

-- The day number of a date of the year `y` without the constant part.
abbrev place : ℕ → ℕ → ℕ → ℕ
place y m d = days_of_years (y - one_if (leb m 2)) + doy_of_month m + d

-- The days of a month lie on one side of the days from the 22nd to the last of another.
abbrev BeforeAfter : ℕ → ℕ → ℕ → Type 0
BeforeAfter y change m =
    (m < change → place y m 31 < place y change 22) × (change < m → place y change 31 < place y m 1)

around_march : (y : ℕ) → 1 ≤ y → ForMonths (BeforeAfter y 3)
unfolding doy_of_month
around_march y h =
    let last : (days_of_years (y - 1) + 365 ≤ days_of_years y) = omega arith in
    record {
      p1 = (λ l. omega (arith, last), λ l. absurd (omega arith));
      p2 = (λ l. omega (arith, last), λ l. absurd (omega arith));
      p3 = (λ l. absurd (omega arith), λ l. absurd (omega arith));
      p4 = (λ l. absurd (omega arith), λ l. omega arith);
      p5 = (λ l. absurd (omega arith), λ l. omega arith);
      p6 = (λ l. absurd (omega arith), λ l. omega arith);
      p7 = (λ l. absurd (omega arith), λ l. omega arith);
      p8 = (λ l. absurd (omega arith), λ l. omega arith);
      p9 = (λ l. absurd (omega arith), λ l. omega arith);
      p10 = (λ l. absurd (omega arith), λ l. omega arith);
      p11 = (λ l. absurd (omega arith), λ l. omega arith);
      p12 = (λ l. absurd (omega arith), λ l. omega arith);
    }

around_october : (y : ℕ) → 1 ≤ y → ForMonths (BeforeAfter y 10)
unfolding doy_of_month
around_october y h =
    let last : (days_of_years (y - 1) + 365 ≤ days_of_years y) = omega arith in
    record {
      p1 = (λ l. omega (arith, last), λ l. absurd (omega arith));
      p2 = (λ l. omega (arith, last), λ l. absurd (omega arith));
      p3 = (λ l. omega arith, λ l. absurd (omega arith));
      p4 = (λ l. omega arith, λ l. absurd (omega arith));
      p5 = (λ l. omega arith, λ l. absurd (omega arith));
      p6 = (λ l. omega arith, λ l. absurd (omega arith));
      p7 = (λ l. omega arith, λ l. absurd (omega arith));
      p8 = (λ l. omega arith, λ l. absurd (omega arith));
      p9 = (λ l. omega arith, λ l. absurd (omega arith));
      p10 = (λ l. absurd (omega arith), λ l. absurd (omega arith));
      p11 = (λ l. absurd (omega arith), λ l. omega arith);
      p12 = (λ l. absurd (omega arith), λ l. omega arith);
    }

-- The year that `place` takes for a year of the calendar.
abbrev forth : ℤ → ℕ
forth y = pos_part y + 3_000_000_000_000

number-place :
    (y : ℤ) (m d : ℕ)
    → (pos 1 ≤ℤ y) × (y ≤ℤ max_year)
    → (1 ≤ m) × (m ≤ 12)
    → (1 ≤ d) × (d ≤ 31)
    → number y m d ≡ pos (place (forth y) m d) -ℤ pos (719469 + 146097 * 7_500_000_000)
unfolding date_to_unix_day
number-place y m d r month day =
    let small = one_if-le (leb m 2) in
    fast_days-closed y m d (forth y - one_if (leb m 2)) 7_500_000_000 month day
      (omega (arith, r, parts_disjoint y))
      (eq_of_parts _ _ (omega (int_laws, r, small, parts_disjoint y)))

-- Whether a month, a day and an hour are not before others.
abbrev pub not_before : ℤ → ℤ → ℤ → ℤ → ℤ → ℤ → Bool
not_before m d h m' d' h' = ltb_ℤ m' m || ((m ==ℤ m') && (ltb_ℤ d' d || ((d ==ℤ d') && leb_ℤ h' h)))

leb_ℤ-false : (a b : ℤ) → b <ℤ a → leb_ℤ a b ≡ false
leb_ℤ-false a b h = ground arith

leb_ℤ-true : (a b : ℤ) → a ≤ℤ b → leb_ℤ a b ≡ true
leb_ℤ-true a b h = ground arith

-- A moment in the hour `h` of the day `n`, against one o'clock of the day `k`.
module _ (gmt n k h : ℤ) (sec : ℕ) (e : gmt ≡ n *ℤ pos 86400 +ℤ pos sec)
    (in_hour : (neg_part h ≡ 0) × (pos_part h * 3600 ≤ sec) × (sec < pos_part h * 3600 + 3600))
    (in_day : sec < 86400) where
  abbrev one_oclock : ℤ
  one_oclock = k *ℤ pos 86400 +ℤ pos 3600

  day_before : n <ℤ k → leb_ℤ one_oclock gmt ≡ false
  day_before l = leb_ℤ-false one_oclock gmt (
      omega (int_laws, ap pos_part e, ap neg_part e, in_day, l, parts_disjoint n, parts_disjoint k))

  day_after : k <ℤ n → leb_ℤ one_oclock gmt ≡ true
  day_after l = leb_ℤ-true one_oclock gmt (
      omega (int_laws, ap pos_part e, ap neg_part e, in_day, l, parts_disjoint n, parts_disjoint k))

  same_day : n ≡ k → leb_ℤ one_oclock gmt ≡ leb_ℤ (pos 1) h
  same_day s = elim (Bool-cases (leb_ℤ (pos 1) h)) [
    | inl on ↦
        let hours : (1 ≤ pos_part h) = ground (arith, on, in_hour) in
        leb_ℤ-true one_oclock gmt (
          omega
            (int_laws, ap pos_part e, ap neg_part e, in_hour, hours, ap pos_part s, ap neg_part s))
        ∙ sym on
    | inr early ↦
        let hours : (pos_part h ≡ 0) = ground (arith, early, in_hour) in
        leb_ℤ-false one_oclock gmt (
          omega
            (int_laws, ap pos_part e, ap neg_part e, in_hour, hours, ap pos_part s, ap neg_part s))
        ∙ sym early
  ]

-- One o'clock of a day from the 22nd on of March or October has passed exactly if the month, the
-- day and the hour are not before it.
pub not_before-timestamp :
    (y gmt h : ℤ) (m d change day sec : ℕ)
    → (pos 1 ≤ℤ y) × (y ≤ℤ max_year)
    → (1 ≤ m) × (m ≤ 12)
    → (1 ≤ d) × (d ≤ 31)
    → (change ≡ 3) ⊎ (change ≡ 10)
    → (22 ≤ day) × (day ≤ 31)
    → gmt ≡ number y m d *ℤ pos 86400 +ℤ pos sec
    → (neg_part h ≡ 0) × (pos_part h * 3600 ≤ sec) × (sec < pos_part h * 3600 + 3600)
    → sec < 86400
    → leb_ℤ (number y change day *ℤ pos 86400 +ℤ pos 3600) gmt
      ≡ not_before (pos m) (pos d) h (pos change) (pos day) (pos 1)
not_before-timestamp y gmt h m d change day sec r month month_day which late e in_hour in_day =
    let n = number y m d in
    let k = number y change day in
    let n_is = number-place y m d r month month_day in
    let in_year : ((1 ≤ change) × (change ≤ 12)) = elim which [
      | inl march ↦ (omega arith, omega arith)
      | inr october ↦ (omega arith, omega arith)
    ] in
    let k_is = number-place y change day r in_year (omega (arith, late), late.1) in
    let sides : BeforeAfter (forth y) change m = elim which [
      | inl march ↦ rw march (
          months_elim (BeforeAfter (forth y) 3) (around_march (forth y) (omega arith)) m month.0
            month.1)
      | inr october ↦ rw october (
          months_elim (BeforeAfter (forth y) 10) (around_october (forth y) (omega arith)) m month.0
            month.1)
    ] in
    let before = day_before gmt n k h sec e in_hour in_day in
    let after = day_after gmt n k h sec e in_hour in_day in
    elim (dec_lt m change) [
      | yes earlier ↦
          before (
            omega (
              int_laws,
              ap pos_part n_is,
              ap neg_part n_is,
              ap pos_part k_is,
              ap neg_part k_is,
              sides.0 earlier,
              month_day,
              late,
            ))
          ∙ ground arith
      | no not_earlier ↦ elim (dec_lt change m) [
        | yes later ↦
            after (
              omega (
                int_laws,
                ap pos_part n_is,
                ap neg_part n_is,
                ap pos_part k_is,
                ap neg_part k_is,
                sides.1 later,
                month_day,
                late,
              ))
            ∙ ground arith
        | no not_later ↦
            let same : (m ≡ change) = omega arith in
            let shifted : (n +ℤ pos day ≡ k +ℤ pos d) =
              rw (n_is, k_is, same) (eq_of_parts _ _ (omega int_laws)) in
            elim (dec_lt d day) [
              | yes earlier ↦
                  before (
                    omega (
                      int_laws,
                      ap pos_part shifted,
                      ap neg_part shifted,
                      parts_disjoint n,
                      parts_disjoint k,
                    ))
                  ∙ ground arith
              | no not_day_earlier ↦ elim (dec_lt day d) [
                | yes day_later ↦
                    after (
                      omega (
                        int_laws,
                        ap pos_part shifted,
                        ap neg_part shifted,
                        parts_disjoint n,
                        parts_disjoint k,
                      ))
                    ∙ ground arith
                | no not_day_later ↦
                    let same_n : (n ≡ k) = eq_of_parts _ _ (
                      omega (
                        int_laws,
                        ap pos_part shifted,
                        ap neg_part shifted,
                        parts_disjoint n,
                        parts_disjoint k,
                      )) in
                    same_day gmt n k h sec e in_hour in_day same_n ∙ ground arith
              ]
            ]
      ]
    ]
