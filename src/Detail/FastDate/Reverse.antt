-- ===== src/Detail/FastDate/Reverse.antt =====
-- The fixed-point arithmetic of `fast_date_from_days`, step by step. Days count backwards from the
-- end of an era (`rev`), and each multiplication by a rounded constant is an exact division over
-- the whole range of days that a timestamp can have.
use time_shield_cpp.Base.{ℕ, ◌+◌, ◌-◌, ◌*◌, ◌/◌, ◌%◌, ◌≤◌, ◌<◌, ◌≡◌, refl, arith}
use time_shield_cpp.Base.Word.{mul64}
use time_shield_cpp.Detail.MulHi.{mul_hi_u64}
use time_shield_cpp.Detail.FastDate.{c1, c2}

-- The reversed day counts of all days in the range of a 64-bit timestamp.
abbrev pub min_rev : ℕ
min_rev = 583_775_225_865_420

abbrev pub max_rev : ℕ
max_rev = 797_279_208_200_023

abbrev pub centuries : ℕ → ℕ
centuries rev = (4 * rev - 1) / 146097

pub mul_hi-c1 : (rev : ℕ) → 1 ≤ rev → rev ≤ max_rev → mul_hi_u64 rev c1 ≡ (4 * rev - 1) / 146097
unfolding mul_hi_u64
mul_hi-c1 rev lo hi = omega arith

-- In a calendar with no century rule, reversed days split into years of 365.25 days.
pub mul_hi-c2 : (jul : ℕ) → jul < 1_000_000_000_000_000 → mul_hi_u64 jul c2 ≡ 4 * jul / 1461
unfolding mul_hi_u64
mul_hi-c2 jul hi = omega arith

pub mul64-c2 :
    (jul : ℕ)
    → jul < 1_000_000_000_000_000
    → 4 * mul64 jul c2 ≡ 4 * jul % 1461 * c2 + 317 * (4 * jul / 1461)
mul64-c2 jul hi = omega arith

-- A day counted backwards: `back` years before the last one of the shifted eras, and `rest`
-- quarter days before the end of that year.
pub record Reversed (rev : ℕ) : Type 0 where
  pub jul : ℕ
  pub back : ℕ
  pub rest : ℕ
  pub jul_is : jul ≡ rev + centuries rev - centuries rev / 4
  pub jul_parts : 4 * jul ≡ 1461 * back + rest
  pub jul-lt : jul < 1_000_000_000_000_000
  pub rest-lt : rest < 1461
  pub back_range : (1_598_322_281_403 ≤ back) × (back ≤ 2_182_876_330_657)
  -- A year that is no leap year has no February 29th.
  pub leap_end : rest ≡ 0 → back % 100 ≡ 0 → back % 400 ≡ 0
  -- The days that the centuries without a leap day lack.
  pub count : rev + back / 100 ≡ jul + back / 400

pub reversed : (rev : ℕ) → min_rev ≤ rev → rev ≤ max_rev → Reversed rev
reversed rev lo hi = record {
  jul = rev + centuries rev - centuries rev / 4;
  back = 4 * (rev + centuries rev - centuries rev / 4) / 1461;
  rest = 4 * (rev + centuries rev - centuries rev / 4) % 1461;
  jul_is = refl;
  jul_parts = omega arith;
  jul-lt = omega arith;
  rest-lt = omega arith;
  back_range = omega arith;
  leap_end = λ e f. omega arith;
  count = omega arith;
}
