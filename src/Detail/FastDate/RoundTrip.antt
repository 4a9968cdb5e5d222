-- ===== src/Detail/FastDate/RoundTrip.antt =====
-- `fast_date_from_days` and `fast_days_from_date` undo one another, for all the days of a 64-bit
-- timestamp.
use native.Mathlib.Nat.{add_assoc}
use time_shield_cpp.Base.{
  ℕ, ◌+◌, ◌-◌, ◌*◌, ◌/◌, ◌%◌, ◌≤◌, ◌<◌, ◌≡◌, ap, ◌∙◌, arith, leb, ◌==◌, ◌⊎◌, inl, inr, ◌≢◌,
  Bool-cases,
}
use time_shield_cpp.Base.Int.{ℤ, pos, pos_part, neg_part, ◌-ℤ◌, int_laws}
use time_shield_cpp.Calendar.Leap.{is_leap-back}
use time_shield_cpp.Base.Word.{to_u64}
use time_shield_cpp.Calendar.{IsDate, days_in_month}
use time_shield_cpp.Detail.FastDate.{
  FastDate, d_shift, y_shift, fast_date_from_days, fast_days_from_date_constexpr,
}
use time_shield_cpp.Detail.FastDate.Reverse.{min_rev, max_rev}
use time_shield_cpp.Detail.FastDate.Table.{longest, doy_of_month, last_doy, one_if, one_if-le}
use time_shield_cpp.Detail.FastDate.Word.{HasDate, date_of_word-HasDate}
use time_shield_cpp.Detail.FastDate.Days.{days_of_years, fast_days-closed}

-- The days of all timestamps in int64_t seconds.
pub record IsUnixDay (p_days : ℤ) : Type 0 where
  pub low : neg_part p_days ≤ 106_751_991_167_302
  pub high : pos_part p_days ≤ 106_751_991_167_301

rev_word :
    (p_days : ℤ) → IsUnixDay p_days → pos (to_u64 (pos d_shift -ℤ p_days)) ≡ pos d_shift -ℤ p_days
unfolding ◌-ℤ◌
rev_word p_days h = ground arith

longest-le : (m : ℕ) → longest m ≤ 31
unfolding longest
longest-le m = ground arith

-- Counting years forwards or backwards, one finds the same number of days.
eras_count :
    (rev jul back rest x last : ℕ)
    → (1_598_322_281_403 ≤ back) × (back ≤ 2_182_876_330_657)
    → 4 * jul ≡ 1461 * back + rest
    → rest < 1461
    → rev + back / 100 ≡ jul + back / 400
    → x + rest / 4 ≡ last + 1
    → ((rest % 4 ≡ 0) × (last ≡ 365)) ⊎ ((rest % 4 ≢ 0) × (last ≡ 364))
    → pos (days_of_years (y_shift + 2_200_000_000_000 - back) + x)
        -ℤ pos (719469 + 146097 * 5_500_000_000)
      ≡ pos d_shift -ℤ pos rev
eras_count rev jul back rest x last h e r c f (inl l) = omega int_laws
eras_count rev jul back rest x last h e r c f (inr l) = omega int_laws

last_doy-cases :
    (rest : ℕ) → ((rest % 4 ≡ 0) × (last_doy rest ≡ 365)) ⊎ ((rest % 4 ≢ 0) × (last_doy rest ≡ 364))
unfolding last_doy
last_doy-cases rest = ground arith

-- The days of a decoded word are what is left of the shifted eras.
HasDate-days :
    (rev : ℕ) (t : FastDate)
    → HasDate rev t
    → fast_days_from_date_constexpr t.year t.month t.day ≡ pos d_shift -ℤ pos rev
HasDate-days rev t h =
    rw (h.month_is, h.day_is)
      (fast_days-closed t.year h.m h.d u 5_500_000_000 h.decoded.month_in
          (h.decoded.day_in.0, omega (arith, h.decoded.day_in.1, longest-le h.m))
          (omega (arith, h.place.back_range)) (h.year_is ∙ eras)
        ∙ count)
  where
    u : ℕ
    u = y_shift + 2_200_000_000_000 - h.place.back

    eras :
        pos (y_shift + one_if (leb h.m 2)) -ℤ pos h.place.back
        ≡ pos (u + one_if (leb h.m 2)) -ℤ pos (400 * 5_500_000_000)
    eras = omega (int_laws, h.place.back_range)

    count :
        pos (days_of_years u + doy_of_month h.m + h.d) -ℤ pos (719469 + 146097 * 5_500_000_000)
        ≡ pos d_shift -ℤ pos rev
    count =
        ap (λ n. pos n -ℤ pos (719469 + 146097 * 5_500_000_000))
          (add_assoc (days_of_years u) (doy_of_month h.m) h.d)
        ∙ eras_count rev h.place.jul h.place.back h.place.rest (doy_of_month h.m + h.d)
            (last_doy h.place.rest) h.place.back_range h.place.jul_parts h.place.rest-lt
            h.place.count h.decoded.doy_is (last_doy-cases h.place.rest)

-- A decoded day is in its month: February 29th is decoded in leap years alone.
day_in_month :
    (y : ℤ) (back rest m d : ℕ)
    → pos_part y + back ≡ 400 * 4_726_498_270 + neg_part y ⊎ (m ≢ 2)
    → (back + rest) % 4 ≡ 0
    → (rest ≡ 0 → back % 100 ≡ 0 → back % 400 ≡ 0)
    → (m ≡ 2 → d ≡ 29 → rest ≡ 0)
    → d ≤ longest m
    → d ≤ days_in_month y m
unfolding days_in_month longest
day_in_month y back rest m d (inl e) q l f h = ground (arith, is_leap-back y back 4_726_498_270 e)
day_in_month y back rest m d (inr n) q l f h = ground arith

february_year :
    (y : ℤ) (m back : ℕ)
    → y ≡ pos (y_shift + one_if (leb m 2)) -ℤ pos back
    → pos_part y + back ≡ 400 * 4_726_498_270 + neg_part y ⊎ (m ≢ 2)
february_year y m back e = elim (Bool-cases (m == 2)) [
  | inl t ↦
      let two : m ≡ 2 = ground arith in
      inl (
        omega (
          int_laws,
          ap pos_part (e ∙ ap (λ k. pos (y_shift + one_if (leb k 2)) -ℤ pos back) two),
          ap neg_part (e ∙ ap (λ k. pos (y_shift + one_if (leb k 2)) -ℤ pos back) two),
        ))
  | inr f ↦ inr (ground arith)
]

HasDate-IsDate : (rev : ℕ) (t : FastDate) → HasDate rev t → IsDate t
HasDate-IsDate rev t h = record {
  m = h.m;
  d = h.d;
  month_is = h.month_is;
  day_is = h.day_is;
  month_in = h.decoded.month_in;
  day_in = (
    h.decoded.day_in.0,
    day_in_month t.year h.place.back h.place.rest h.m h.d
        (february_year t.year h.m h.place.back h.year_is) (omega (arith, h.place.jul_parts))
        h.place.leap_end h.decoded.leap_day h.decoded.day_in.1,
  );
}

word_place :
    (p_days : ℤ) (rev : ℕ)
    → IsUnixDay p_days
    → pos rev ≡ pos d_shift -ℤ p_days
    → (min_rev ≤ rev) × (rev ≤ max_rev) × (rev + pos_part p_days ≡ d_shift + neg_part p_days)
word_place p_days rev r e =
    let place : (rev + pos_part p_days ≡ d_shift + neg_part p_days) =
      omega (int_laws, ap pos_part e, ap neg_part e) in
    (omega (arith, r.low, r.high, place), omega (arith, r.low, r.high, place), place)

abbrev word_of_day : ℤ → ℕ
word_of_day p_days = to_u64 (pos d_shift -ℤ p_days)

day-HasDate :
    (p_days : ℤ) → IsUnixDay p_days → HasDate (word_of_day p_days) (fast_date_from_days p_days)
unfolding fast_date_from_days
day-HasDate p_days r =
    let (lo, hi, _) = word_place p_days (word_of_day p_days) r (rev_word p_days r) in
    date_of_word-HasDate (word_of_day p_days) lo hi

-- The date of a day from -106751991167302 to 106751991167301, which has all days of 64-bit
-- timestamps, is a date of the calendar, and the day number of that date is the day.
pub fast_days-from_days :
    (p_days : ℤ)
    → IsUnixDay p_days
    → let t = fast_date_from_days p_days in
      IsDate t × (fast_days_from_date_constexpr t.year t.month t.day ≡ p_days)
fast_days-from_days p_days r =
    let h = day-HasDate p_days r in
    let (_, _, place) = word_place p_days (word_of_day p_days) r (rev_word p_days r) in
    (HasDate-IsDate _ _ h, HasDate-days _ _ h ∙ omega (int_laws, place))

-- The years of the days from -106751991167302 to 106751991167301 are from -292277022658 to
-- 292277026597.
pub fast_date-year :
    (p_days : ℤ)
    → IsUnixDay p_days
    → (neg_part (fast_date_from_days p_days).year ≤ 292_277_022_658)
      × (pos_part (fast_date_from_days p_days).year ≤ 292_277_026_597)
fast_date-year p_days r =
    let h = day-HasDate p_days r in
    omega (
      int_laws,
      ap pos_part h.year_is,
      ap neg_part h.year_is,
      h.place.back_range,
      one_if-le (leb h.m 2),
    )
