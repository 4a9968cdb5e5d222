-- ===== src/Detail/FastDate/Word.antt =====
-- `fast_date_from_days` in the range of a 64-bit timestamp: what its word arithmetic computes.
use Prim.Native.Nat.{bit_and}
use time_shield_cpp.Base.{
  ℕ, ◌+◌, ◌-◌, ◌*◌, ◌/◌, ◌%◌, ◌≤◌, ◌<◌, ◌≡◌, refl, Bool, true, false, arith, ltb, leb,
}
use time_shield_cpp.Base.Bits.{bit_and-three, bit_and-mask16}
use time_shield_cpp.Base.Int.{pos, ◌-ℤ◌}
use time_shield_cpp.Base.Word.{add64, sub64, mul64, to_i64, to_i32}
use time_shield_cpp.Detail.MulHi.{mul_hi_u64, mul_shift_u64}
use time_shield_cpp.Detail.FastDate.{
  FastDate, c2, c3, y_shift, ypt_scale, ypt_bump_threshold, shift_other, date_of_fraction,
  date_of_word,
}
use time_shield_cpp.Detail.FastDate.Reverse.{
  min_rev, max_rev, centuries, Reversed, reversed, mul_hi-c1, mul_hi-c2, mul64-c2,
}
use time_shield_cpp.Detail.FastDate.Table.{
  IsDecoded, n_of, day_of, low_ypt, high_ypt, shift_of, decode, one_if, one_if-le,
}

-- A difference of two words reads back as the signed difference.
signed_difference :
    (a b e : ℕ)
    → a ≤ y_shift
    → b ≤ 2_182_876_330_657
    → e ≤ 1
    → to_i64 (add64 (sub64 a b) e) ≡ pos (a + e) -ℤ pos b
unfolding ◌-ℤ◌
signed_difference a b e p q r = ground arith

small_i32 : (n : ℕ) → n < 0x8000_0000 → to_i32 n ≡ pos n
small_i32 n h = ground arith

-- The date of the reversed day count `rev`: `back` years before the year that ends the eras.
pub record HasDate (rev : ℕ) (t : FastDate) : Type 0 where
  pub place : Reversed rev
  pub m : ℕ
  pub d : ℕ
  pub month_is : t.month ≡ pos m
  pub day_is : t.day ≡ pos d
  pub decoded : IsDecoded place.rest (leb m 2) m d
  pub year_is : t.year ≡ pos (y_shift + one_if (leb m 2)) -ℤ pos place.back

-- The fraction of a year that `num_low` stands for, in the scale of months.
ypt_range :
    (jul back rest : ℕ)
    → 4 * mul64 jul c2 ≡ rest * c2 + 317 * back
    → back ≤ 2_182_876_330_657
    → (low_ypt rest ≤ mul_hi_u64 ypt_scale (mul64 jul c2))
      × (mul_hi_u64 ypt_scale (mul64 jul c2) ≤ high_ypt rest)
unfolding mul_hi_u64
ypt_range jul back rest e h = omega arith

jul_word :
    (rev : ℕ)
    → rev ≤ max_rev
    → sub64 (add64 rev (centuries rev)) (centuries rev / 4)
      ≡ rev + centuries rev - centuries rev / 4
jul_word rev h = omega arith

n_word :
    (back rest shift ypt : ℕ)
    → back ≤ 2_182_876_330_657
    → (back + rest) % 4 ≡ 0
    → ypt ≤ shift
    → shift ≤ shift_other
    → sub64 (add64 (mul64 (sub64 y_shift back % 4) 512) shift) ypt ≡ n_of rest shift ypt
n_word back rest shift ypt h e p q = omega arith

shift_of-le : (b : Bool) → shift_of b ≤ shift_other
shift_of-le true = omega arith
shift_of-le false = omega arith

day_small : (n : ℕ) → to_i32 (add64 (mul_shift_u64 (n % 0x1_0000) c3) 1) ≡ pos (day_of n)
unfolding mul_shift_u64 mul_hi_u64
day_small n = ground arith

module _ (back rest ypt : ℕ) (h : back ≤ 2_182_876_330_657) (e : (back + rest) % 4 ≡ 0) (b : Bool)
    (fits : ypt ≤ shift_of b) where
  packed :
      sub64 (add64 (mul64 (bit_and (sub64 y_shift back) 3) 512) (shift_of b)) ypt
      ≡ n_of rest (shift_of b) ypt
  packed =
      rw (bit_and-three (sub64 y_shift back))
        (n_word back rest (shift_of b) ypt h e fits (shift_of-le b))

  packed-lt : n_of rest (shift_of b) ypt < 0x10_0000
  packed-lt = omega (arith, shift_of-le b)

  month_word :
      to_i32
        (sub64 (add64 (mul64 (bit_and (sub64 y_shift back) 3) 512) (shift_of b)) ypt / 0x1_0000)
      ≡ pos (n_of rest (shift_of b) ypt / 0x1_0000)
  month_word = rw packed (small_i32 _ (omega (arith, packed-lt)))

  day_word :
      to_i32 (
        add64
          (mul_shift_u64
            (bit_and
              (sub64 (add64 (mul64 (bit_and (sub64 y_shift back) 3) 512) (shift_of b)) ypt)
              0xFFFF)
            c3)
          1)
      ≡ pos (day_of (n_of rest (shift_of b) ypt))
  day_word =
      rw (packed, bit_and-mask16 (n_of rest (shift_of b) ypt))
        (day_small (n_of rest (shift_of b) ypt))

fraction-IsDecoded :
    (back rest ypt : ℕ)
    → back ≤ 2_182_876_330_657
    → (back + rest) % 4 ≡ 0
    → rest < 1461
    → low_ypt rest ≤ ypt
    → ypt ≤ high_ypt rest
    → let t = date_of_fraction mul_shift_u64 (sub64 y_shift back) ypt in
      (m : ℕ) × (d : ℕ) × (t.month ≡ pos m)
      × (t.day ≡ pos d)
      × IsDecoded rest (leb m 2) m d
      × (t.year ≡ pos (y_shift + one_if (leb m 2)) -ℤ pos back)
unfolding date_of_fraction
fraction-IsDecoded back rest ypt h e r p q =
    let b = ltb ypt ypt_bump_threshold in
    let n = n_of rest (shift_of b) ypt in
    let (fits, dec) = decode rest ypt r p q in
    (
      n / 0x1_0000,
      day_of n,
      month_word back rest ypt h e b fits,
      day_word back rest ypt h e b fits,
      rw (← dec.bump_is) dec,
      rw (← dec.bump_is) (signed_difference y_shift back (one_if b) (omega arith) h (one_if-le b)),
    )

word_fraction :
    (rev : ℕ) (r : Reversed rev)
    → min_rev ≤ rev
    → rev ≤ max_rev
    → date_of_word mul_shift_u64 rev
      ≡ date_of_fraction mul_shift_u64
          (sub64 y_shift r.back)
          (mul_hi_u64 ypt_scale (mul64 r.jul c2))
unfolding date_of_word mul_shift_u64
word_fraction rev r lo hi =
    rw
      (mul_hi-c1 rev (omega arith) hi, jul_word rev hi, ← r.jul_is, mul_hi-c2 r.jul r.jul-lt, years)
      refl
  where
    years : 4 * r.jul / 1461 ≡ r.back
    years = omega (arith, r.jul_parts, r.rest-lt)

fraction-HasDate :
    (rev : ℕ) (r : Reversed rev)
    → HasDate rev (
        date_of_fraction mul_shift_u64
          (sub64 y_shift r.back)
          (mul_hi_u64 ypt_scale (mul64 r.jul c2)))
fraction-HasDate rev r =
    let low_word : 4 * mul64 r.jul c2 ≡ r.rest * c2 + 317 * r.back =
      omega (arith, mul64-c2 r.jul r.jul-lt, r.jul_parts, r.rest-lt) in
    let range = ypt_range r.jul r.back r.rest low_word r.back_range.1 in
    let (m, d, em, ed, dec, ey) =
      fraction-IsDecoded r.back r.rest (mul_hi_u64 ypt_scale (mul64 r.jul c2)) r.back_range.1
        (omega (arith, r.jul_parts)) r.rest-lt range.0 range.1 in
    record { place = r; m = m; d = d; month_is = em; day_is = ed; decoded = dec; year_is = ey }

-- Every word in the range is decoded to a month, a day and a year.
pub date_of_word-HasDate :
    (rev : ℕ) → min_rev ≤ rev → rev ≤ max_rev → HasDate rev (date_of_word mul_shift_u64 rev)
date_of_word-HasDate rev lo hi =
    let r = reversed rev lo hi in rw (word_fraction rev r lo hi) (fraction-HasDate rev r)
