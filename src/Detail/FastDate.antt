-- ===== src/Detail/FastDate.antt =====
-- include/time_shield/detail/fast_date.hpp: day numbers of the proleptic Gregorian calendar, day 0
-- being 1970-01-01. An index outside the month table, undefined in C++, reads 0 here.
pub mod Reverse
pub mod Variants
pub mod Walk
pub mod Next
pub mod Order
pub mod RoundTrip
pub mod Days
pub mod Word
pub mod Table
use Prim.Native.Nat.{bit_and}
use time_shield_cpp.Base.{ℕ, ◌/◌, List, [], ◌∷◌, ltb, get_or, if◌then◌else◌}
use time_shield_cpp.Base.Int.{ℤ, pos, pos_part, ◌+ℤ◌, ◌-ℤ◌, ◌*ℤ◌, ◌/ℤ◌, ◌%ℤ◌, leb_ℤ, ltb_ℤ}
use time_shield_cpp.Base.Word.{add64, sub64, mul64, to_u64, to_i64, to_i32}
use time_shield_cpp.Detail.MulHi.{mul_shift_u64, mul_shift_u64_constexpr}

abbrev pub k_doy_from_march : List ℕ
k_doy_from_march = 0 ∷ 31 ∷ 61 ∷ 92 ∷ 122 ∷ 153 ∷ 184 ∷ 214 ∷ 245 ∷ 275 ∷ 306 ∷ 337 ∷ []

pub record DaySplit : Type 0 where
  pub days : ℤ
  pub sec_of_day : ℤ

abbrev pub sec_per_day : ℤ
sec_per_day = pos 86400

unfoldable pub split_unix_day : ℤ → DaySplit
split_unix_day ts =
    let days = ts /ℤ sec_per_day in
    let sec_of_day = ts %ℤ sec_per_day in
    if ltb_ℤ sec_of_day (pos 0)
    then record { days = days -ℤ pos 1; sec_of_day = sec_of_day +ℤ sec_per_day }
    else record { days = days; sec_of_day = sec_of_day }

pub record FastDate : Type 0 where
  pub year : ℤ
  pub month : ℤ
  pub day : ℤ

-- Days of the years before year `yoe` of an era, as the code adds them up.
unfoldable pub unsigned_days : ℕ → ℕ → ℤ → ℤ
unsigned_days y m p_day =
    let era = y / 400 in
    let yoe = sub64 y (mul64 era 400) in
    let doy = add64 (get_or k_doy_from_march m 0) (to_u64 (p_day -ℤ pos 1)) in
    let doe = add64 (sub64 (add64 (mul64 yoe 365) (yoe / 4)) (yoe / 100)) doy in
    to_i64 (add64 (mul64 era 146097) doe) -ℤ pos 719468

unfoldable pub signed_days : ℤ → ℕ → ℤ → ℤ
signed_days y m p_day =
    let era = (y -ℤ pos 399) /ℤ pos 400 in
    let yoe = y -ℤ era *ℤ pos 400 in
    let doy = pos (get_or k_doy_from_march m 0) +ℤ (p_day -ℤ pos 1) in
    let doe = yoe *ℤ pos 365 +ℤ yoe /ℤ pos 4 -ℤ yoe /ℤ pos 100 +ℤ doy in
    era *ℤ pos 146097 +ℤ doe -ℤ pos 719468

unfoldable pub fast_days_from_date_constexpr : ℤ → ℤ → ℤ → ℤ
unfolding unsigned_days signed_days
fast_days_from_date_constexpr p_year p_month p_day =
    let month_adjust = if leb_ℤ p_month (pos 2) then pos 1 else pos 0 in
    let y = p_year -ℤ month_adjust in
    let m0 = p_month -ℤ pos 3 in
    let m = if ltb_ℤ m0 (pos 0) then m0 +ℤ pos 12 else m0 in
    if leb_ℤ (pos 0) y
    then unsigned_days (to_u64 y) (pos_part m) p_day
    else signed_days y (pos_part m) p_day

-- The second variant has the same text.
unfoldable pub fast_days_from_date : ℤ → ℤ → ℤ → ℤ
unfolding unsigned_days signed_days
fast_days_from_date p_year p_month p_day =
    let month_adjust = if leb_ℤ p_month (pos 2) then pos 1 else pos 0 in
    let y = p_year -ℤ month_adjust in
    let m0 = p_month -ℤ pos 3 in
    let m = if ltb_ℤ m0 (pos 0) then m0 +ℤ pos 12 else m0 in
    if leb_ℤ (pos 0) y
    then unsigned_days (to_u64 y) (pos_part m) p_day
    else signed_days y (pos_part m) p_day

-- 146097 * 4726498270 - 719469 and 400 * 4726498270 - 1.
abbrev pub d_shift : ℕ
d_shift = 690_527_217_032_721

abbrev pub y_shift : ℕ
y_shift = 1_890_599_307_999

abbrev pub c1 : ℕ
c1 = 505_054_698_555_331

abbrev pub c2 : ℕ
c2 = 50_504_432_782_230_121

abbrev pub c3 : ℕ
c3 = 8_619_973_866_219_416

abbrev pub ypt_scale : ℕ
ypt_scale = 782_432

abbrev pub ypt_bump_threshold : ℕ
ypt_bump_threshold = 126_464

abbrev pub shift_jan_feb : ℕ
shift_jan_feb = 191_360

abbrev pub shift_other : ℕ
shift_other = 977_792

-- The two variants of each conversion differ in the multiply-high function alone. First the last
-- steps: from the shifted year and the fraction of it to a date.
unfoldable pub date_of_fraction : (ℕ → ℕ → ℕ) → ℕ → ℕ → FastDate
date_of_fraction mul_shift yrs ypt =
    let bump = ltb ypt ypt_bump_threshold in
    let shift = if bump then shift_jan_feb else shift_other in
    let n = sub64 (add64 (mul64 (bit_and yrs 3) 512) shift) ypt in
    let d = mul_shift (bit_and n 0xFFFF) c3 in
    record {
      year = to_i64 (add64 yrs (if bump then 1 else 0));
      month = to_i32 (n / 0x1_0000);
      day = to_i32 (add64 d 1);
    }

unfoldable pub date_of_word : (ℕ → ℕ → ℕ) → ℕ → FastDate
unfolding date_of_fraction
date_of_word mul_shift rev =
    let cen = mul_shift rev c1 in
    let jul = sub64 (add64 rev cen) (cen / 4) in
    let num_hi = mul_shift jul c2 in
    let num_low = mul64 jul c2 in
    let yrs = sub64 y_shift num_hi in
    let ypt = mul_shift ypt_scale num_low in date_of_fraction mul_shift yrs ypt

unfoldable pub fast_date_from_days_constexpr : ℤ → FastDate
unfolding date_of_word
fast_date_from_days_constexpr p_days =
    date_of_word mul_shift_u64_constexpr (to_u64 (pos d_shift -ℤ p_days))

unfoldable pub fast_date_from_days : ℤ → FastDate
unfolding date_of_word
fast_date_from_days p_days = date_of_word mul_shift_u64 (to_u64 (pos d_shift -ℤ p_days))

unfoldable pub year_of_word : (ℕ → ℕ → ℕ) → ℕ → ℤ
year_of_word mul_shift rev =
    let cen = mul_shift rev c1 in
    let jul = sub64 (add64 rev cen) (cen / 4) in
    let num_hi = mul_shift jul c2 in
    let num_low = mul64 jul c2 in
    let yrs = sub64 y_shift num_hi in
    let bump = ltb (mul_shift ypt_scale num_low) ypt_bump_threshold in
    to_i64 (add64 yrs (if bump then 1 else 0))

unfoldable pub fast_year_from_days_constexpr : ℤ → ℤ
unfolding year_of_word
fast_year_from_days_constexpr p_days =
    year_of_word mul_shift_u64_constexpr (to_u64 (pos d_shift -ℤ p_days))

unfoldable pub fast_year_from_days : ℤ → ℤ
unfolding year_of_word
fast_year_from_days p_days = year_of_word mul_shift_u64 (to_u64 (pos d_shift -ℤ p_days))
