-- ===== src/Detail/MulHi.antt =====
-- include/time_shield/detail/mul_hi.hpp: the high word of a 64-bit product.
use Prim.Native.Nat.{bit_and}
use time_shield_cpp.Base.{ℕ, ◌+◌, ◌*◌, ◌/◌, ◌%◌, ◌<◌, ◌≡◌, arith}
use time_shield_cpp.Base.Bits.{bit_and-mask32}
use time_shield_cpp.Base.Word.{u64_mod}

-- The product of the four 32-bit halves, each operation in uint64_t.
unfoldable pub mul_hi_u64_constexpr : ℕ → ℕ → ℕ
mul_hi_u64_constexpr a b =
    let a_low = bit_and a 0xFFFF_FFFF in
    let a_high = a / 0x1_0000_0000 in
    let b_low = bit_and b 0xFFFF_FFFF in
    let b_high = b / 0x1_0000_0000 in
    let p0 = (a_low * b_low) % u64_mod in
    let p1 = (a_low * b_high) % u64_mod in
    let p2 = (a_high * b_low) % u64_mod in
    let p3 = (a_high * b_high) % u64_mod in
    let carry =
      ((p0 / 0x1_0000_0000 + bit_and p1 0xFFFF_FFFF + bit_and p2 0xFFFF_FFFF) % u64_mod)
      / 0x1_0000_0000 in
    (p3 + p1 / 0x1_0000_0000 + p2 / 0x1_0000_0000 + carry) % u64_mod

-- The upper half of the 128-bit product.
unfoldable pub mul_hi_u64 : ℕ → ℕ → ℕ
mul_hi_u64 a b = a * b / u64_mod

unfoldable pub mul_shift_u64 : ℕ → ℕ → ℕ
mul_shift_u64 x c = mul_hi_u64 x c

unfoldable pub mul_shift_u64_constexpr : ℕ → ℕ → ℕ
mul_shift_u64_constexpr x c = mul_hi_u64_constexpr x c

abbrev half : ℕ
half = 0x1_0000_0000

-- The schoolbook sum of partial products has the high word of the whole product.
halves-high :
    (p0 p1 p2 p3 : ℕ)
    → (u64_mod * p3 + half * p1 + half * p2 + p0) / u64_mod
      ≡ p3 + p1 / half + p2 / half + (p0 / half + p1 % half + p2 % half) / half
halves-high p0 p1 p2 p3 = omega arith

mul-lt-mul : (a b m n : ℕ) → a < m → b < n → a * b < m * n
mul-lt-mul a b m n p q = grind arith

product_halves :
    (a b x y u v : ℕ)
    → a ≡ half * x + y
    → b ≡ half * u + v
    → a * b ≡ u64_mod * (x * u) + half * (y * u) + half * (x * v) + y * v
product_halves a b x y u v e f = rw (e, f) (omega arith)

-- For two 64-bit words the sum of partial products, each operation wrapping, is the high word of
-- the 128-bit product.
pub mul_hi_u64_constexpr-eq :
    (a b : ℕ) → a < u64_mod → b < u64_mod → mul_hi_u64_constexpr a b ≡ mul_hi_u64 a b
unfolding mul_hi_u64_constexpr mul_hi_u64
mul_hi_u64_constexpr-eq a b ha hb =
    let al = a % half in
    let bl = b % half in
    let ah = a / half in
    let bh = b / half in
    simp bit_and-mask32 (
      omega (
        arith,
        mul-lt-mul a b u64_mod u64_mod ha hb,
        product_halves a b ah al bh bl (omega arith) (omega arith),
        mul-lt-mul al bl half half (omega arith) (omega arith),
        mul-lt-mul al bh half half (omega arith) (omega arith),
        mul-lt-mul ah bl half half (omega arith) (omega arith),
        mul-lt-mul ah bh half half (omega arith) (omega arith),
        halves-high (al * bl) (al * bh) (ah * bl) (ah * bh),
      ))
