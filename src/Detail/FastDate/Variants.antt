-- ===== src/Detail/FastDate/Variants.antt =====
-- The variants of each conversion agree: the compile-time ones build the product of two words from
-- its halves, and the ones that return the year alone skip the last steps.
use Prim.Native.Nat.{bit_and}
use time_shield_cpp.Base.{ℕ, ◌/◌, ◌<◌, ◌≡◌, refl, ◌∙◌, arith}
use time_shield_cpp.Base.Bits.{bit_and-mask16}
use time_shield_cpp.Base.Int.{ℤ, pos, negsuc, ◌-ℤ◌}
use time_shield_cpp.Base.Word.{u64_mod, add64, sub64, mul64, to_u64}
use time_shield_cpp.Detail.MulHi.{mul_shift_u64, mul_shift_u64_constexpr, mul_hi_u64_constexpr-eq}
use time_shield_cpp.Detail.FastDate.{
  c1, c2, c3, d_shift, ypt_scale, date_of_fraction, date_of_word, year_of_word, fast_date_from_days,
  fast_date_from_days_constexpr, fast_year_from_days, fast_year_from_days_constexpr,
  fast_days_from_date, fast_days_from_date_constexpr,
}

pub mul_shift_variants :
    (a b : ℕ) → a < u64_mod → b < u64_mod → mul_shift_u64_constexpr a b ≡ mul_shift_u64 a b
unfolding mul_shift_u64_constexpr mul_shift_u64
mul_shift_variants a b p q = mul_hi_u64_constexpr-eq a b p q

low16-variants :
    (n : ℕ) → mul_shift_u64_constexpr (bit_and n 0xFFFF) c3 ≡ mul_shift_u64 (bit_and n 0xFFFF) c3
low16-variants n =
    mul_shift_variants (bit_and n 0xFFFF) c3 (omega (arith, bit_and-mask16 n)) (omega arith)

date_of_fraction-variants :
    (yrs ypt : ℕ)
    → date_of_fraction mul_shift_u64_constexpr yrs ypt ≡ date_of_fraction mul_shift_u64 yrs ypt
unfolding date_of_fraction
date_of_fraction-variants yrs ypt = rw low16-variants refl

date_of_word-variants :
    (rev : ℕ)
    → rev < u64_mod
    → date_of_word mul_shift_u64_constexpr rev ≡ date_of_word mul_shift_u64 rev
unfolding date_of_word
date_of_word-variants rev h = rw (mul_shift_variants rev c1 h (omega arith)) (
    rw
      (mul_shift_variants (sub64 (add64 rev (mul_shift_u64 rev c1)) (mul_shift_u64 rev c1 / 4)) c2
        (omega arith) (omega arith))
      (rw
        (mul_shift_variants ypt_scale
          (mul64 (sub64 (add64 rev (mul_shift_u64 rev c1)) (mul_shift_u64 rev c1 / 4)) c2)
          (omega arith) (omega arith))
        (date_of_fraction-variants _ _)))

year_of_word-variants :
    (rev : ℕ)
    → rev < u64_mod
    → year_of_word mul_shift_u64_constexpr rev ≡ year_of_word mul_shift_u64 rev
unfolding year_of_word
year_of_word-variants rev h = rw (mul_shift_variants rev c1 h (omega arith)) (
    rw
      (mul_shift_variants (sub64 (add64 rev (mul_shift_u64 rev c1)) (mul_shift_u64 rev c1 / 4)) c2
        (omega arith) (omega arith))
      (rw
        (mul_shift_variants ypt_scale
          (mul64 (sub64 (add64 rev (mul_shift_u64 rev c1)) (mul_shift_u64 rev c1 / 4)) c2)
          (omega arith) (omega arith))
        refl))

year_of_word-date :
    (rev : ℕ) → year_of_word mul_shift_u64 rev ≡ (date_of_word mul_shift_u64 rev).year
unfolding year_of_word date_of_word date_of_fraction
year_of_word-date rev = refl

to_u64-lt : (z : ℤ) → to_u64 z < u64_mod
to_u64-lt (pos n) = omega arith
to_u64-lt (negsuc n) = omega arith

-- The constexpr and the runtime conversions agree on all arguments, and the conversions to a year
-- give the year of the date.
pub fast_date-variants :
    (p_days y m d : ℤ)
    → (fast_date_from_days_constexpr p_days ≡ fast_date_from_days p_days)
      × (fast_year_from_days_constexpr p_days ≡ (fast_date_from_days p_days).year)
      × (fast_year_from_days p_days ≡ (fast_date_from_days p_days).year)
      × (fast_days_from_date y m d ≡ fast_days_from_date_constexpr y m d)
unfolding fast_date_from_days_constexpr fast_date_from_days fast_year_from_days_constexpr
    fast_year_from_days fast_days_from_date fast_days_from_date_constexpr
fast_date-variants p_days y m d =
    let h = to_u64-lt (pos d_shift -ℤ p_days) in
    (
      date_of_word-variants _ h,
      year_of_word-variants _ h ∙ year_of_word-date _,
      year_of_word-date _,
      refl,
    )
