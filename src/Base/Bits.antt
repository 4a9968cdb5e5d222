-- ===== src/Base/Bits.antt =====
-- Masks of consecutive ones, as remainders.
use Prim.Native.Nat.{min, bit_and, digits, bit_and-bitwise}
use native.Mathlib.Nat.{
  pow-succ', div-add-mod, mod-lt, mul-add-mod_self_left, mod-eq_of_lt, zero-mod,
}
use time_shield_cpp.Base.{
  ℕ, zero, suc, ◌+◌, ◌*◌, ◌/◌, ◌%◌, ◌^◌, ◌≤◌, ◌<◌, ◌≡◌, refl, sym, ◌∙◌, arith,
}

-- A remainder is known from a quotient and a small rest.
pub mod_unique : (d q s n : ℕ) → n ≡ d * q + s → s < d → n % d ≡ s
mod_unique d q s n e h = rw e (mul-add-mod_self_left d q s ∙ mod-eq_of_lt h)

-- The digits of `a` below `2 * p`, by the lowest one and the rest.
mod-double : (a p : ℕ) → 0 < p → a % (2 * p) ≡ a / 2 % p * 2 + a % 2
mod-double a p h =
    mod_unique (2 * p) (a / 2 / p) (a / 2 % p * 2 + a % 2) a (omega (arith, div-add-mod (a / 2) p))
      (omega (arith, mod-lt (a / 2) h))

-- `a & (2 ^ k - 1)` with fuel `n`, by the digits of both numbers.
and_digits-mask : (k n a m : ℕ) → a ≤ n → m + 1 ≡ 2 ^ k → digits (λ b. zero) min n a m ≡ a % 2 ^ k
and_digits-mask zero zero zero m h e = refl
and_digits-mask zero (suc n) zero m h e = refl
and_digits-mask zero (suc n) (suc a) m h e =
    omega (arith, and_digits-mask zero n (suc a / 2) (m / 2) (omega arith) (omega arith))
and_digits-mask (suc k) zero zero m h e = sym (zero-mod (2 ^ suc k))
and_digits-mask (suc k) (suc n) zero m h e = sym (zero-mod (2 ^ suc k))
and_digits-mask (suc k) (suc n) (suc a) m h e = rw (pow-succ' 2 k) (
    omega (
      arith,
      and_digits-mask k n (suc a / 2) (m / 2) (omega arith) (omega (arith, pow-succ' 2 k)),
      pow-succ' 2 k,
      mod-double (suc a) (2 ^ k) (omega (arith, pow-succ' 2 k)),
    ))
and_digits-mask k zero (suc a) m h e = absurd (omega arith)

pub bit_and-mask : (a k m : ℕ) → m + 1 ≡ 2 ^ k → bit_and a m ≡ a % 2 ^ k
bit_and-mask a k m e = (λ i. bit_and-bitwise a m i) ∙ and_digits-mask k a a m (omega arith) e

pub bit_and-mask32 : (a : ℕ) → bit_and a 0xffff_ffff ≡ a % 0x1_0000_0000
bit_and-mask32 a = bit_and-mask a 32 0xffff_ffff refl

pub bit_and-mask16 : (a : ℕ) → bit_and a 0xffff ≡ a % 0x1_0000
bit_and-mask16 a = bit_and-mask a 16 0xffff refl

pub bit_and-three : (a : ℕ) → bit_and a 3 ≡ a % 4
bit_and-three a = bit_and-mask a 2 3 refl

pub bit_and-fifteen : (a : ℕ) → bit_and a 15 ≡ a % 16
bit_and-fifteen a = bit_and-mask a 4 15 refl
