-- ===== src/Calendar/Leap.antt =====
-- The leap rule by the size of a year, whatever its sign.
use time_shield_cpp.Base.{ℕ, suc, ◌+◌, ◌*◌, ◌%◌, ◌≡◌, refl, Bool, not, ◌&&◌, ◌||◌, arith, ◌==◌}
use time_shield_cpp.Base.Int.{ℤ, pos, negsuc, neg_ℕ, pos_part, neg_part, ◌%ℤ◌, ◌==ℤ◌}
use time_shield_cpp.Calendar.{is_leap}

abbrev pub size : ℤ → ℕ
size y = pos_part y + neg_part y

size-neg_ℕ : (n : ℕ) → (neg_ℕ n ==ℤ pos 0) ≡ (n == 0)
size-neg_ℕ n = ground arith

pub rem-is_zero : (y : ℤ) (k : ℕ) → (y %ℤ pos k ==ℤ pos 0) ≡ (size y % k == 0)
unfolding ◌%ℤ◌
rem-is_zero (pos n) k = ground arith
rem-is_zero (negsuc n) k = ground (arith, size-neg_ℕ (suc n % k))

abbrev pub leap_size : ℕ → Bool
leap_size n = (n % 4 == 0) && (not (n % 100 == 0) || (n % 400 == 0))

pub is_leap-size : (y : ℤ) → is_leap y ≡ leap_size (size y)
unfolding is_leap
is_leap-size y = rw (rem-is_zero y 4, rem-is_zero y 100, rem-is_zero y 400) refl

-- A year is leap if it lies `back` years before one that 400 divides, and `back` is like a leap year.
pub is_leap-back :
    (y : ℤ) (back k : ℕ) → pos_part y + back ≡ 400 * k + neg_part y → is_leap y ≡ leap_size back
is_leap-back y back k e = rw (is_leap-size y) (same y e)
  where
    same : (y : ℤ) → pos_part y + back ≡ 400 * k + neg_part y → leap_size (size y) ≡ leap_size back
    same (pos n) e = ground arith
    same (negsuc n) e = ground arith

-- The rule comes round every 400 years.
pub is_leap-forth :
    (y : ℤ) (w k : ℕ) → pos_part y + 400 * k ≡ w + neg_part y → is_leap y ≡ leap_size w
is_leap-forth y w k e = rw (is_leap-size y) (same y e)
  where
    same : (y : ℤ) → pos_part y + 400 * k ≡ w + neg_part y → leap_size (size y) ≡ leap_size w
    same (pos n) e = ground arith
    same (negsuc n) e = ground arith
