-- ===== src/Detail/FloorMath.antt =====
-- include/time_shield/detail/floor_math.hpp: division and remainder that round down.
use native.Mathlib.Nat.{div-add-mod, mod-lt}
use time_shield_cpp.Base.{
  ℕ, zero, suc, ◌+◌, ◌*◌, ◌/◌, ◌%◌, ◌<◌, ◌≡◌, sym, not, ◌&&◌, arith, if◌then◌else◌,
}
use time_shield_cpp.Base.Int.{
  ℤ, pos, negsuc, neg_ℕ, ◌+ℤ◌, ◌-ℤ◌, ◌*ℤ◌, ◌/ℤ◌, ◌%ℤ◌, ◌≤ℤ◌, ◌<ℤ◌, ◌==ℤ◌, ltb_ℤ, int_laws,
  ltb_ℤ-negsuc, -ℤ-zero, neg_ℕ-sub_one, ==ℤ-negsuc,
}

unfoldable pub floor_div : ℤ → ℤ → ℤ
floor_div a b = a /ℤ b -ℤ (if not ((a %ℤ b) ==ℤ pos 0) && ltb_ℤ a (pos 0) then pos 1 else pos 0)

unfoldable pub floor_mod : ℤ → ℤ → ℤ
floor_mod a b = a %ℤ b +ℤ (if ltb_ℤ (a %ℤ b) (pos 0) then b else pos 0)

-- What `floor_div` and `floor_mod` make of a quotient and a remainder that round towards zero.
IsFloor : ℤ → ℕ → ℤ → ℤ → Type 0
IsFloor a b q r = (a ≡ q *ℤ pos b +ℤ r) × (pos 0 ≤ℤ r) × (r <ℤ pos b)

abbrev floor_quot : ℤ → ℤ → ℤ → ℤ
floor_quot a q r = q -ℤ (if not (r ==ℤ pos 0) && ltb_ℤ a (pos 0) then pos 1 else pos 0)

abbrev floor_rest : ℤ → ℤ → ℤ
floor_rest b r = r +ℤ (if ltb_ℤ r (pos 0) then b else pos 0)

negsuc-IsFloor :
    (a b q r : ℕ)
    → suc a ≡ b * q + r
    → r < b
    → IsFloor
        (negsuc a)
        b
        (floor_quot (negsuc a) (neg_ℕ q) (neg_ℕ r))
        (floor_rest (pos b) (neg_ℕ r))
unfolding IsFloor
negsuc-IsFloor a b zero zero e h = absurd (omega arith)
negsuc-IsFloor a b (suc q) zero e h = rw (-ℤ-zero (negsuc q)) (omega int_laws)
negsuc-IsFloor a b q (suc r) e h =
    rw (ltb_ℤ-negsuc r, ltb_ℤ-negsuc a, ==ℤ-negsuc r, neg_ℕ-sub_one q) (omega int_laws)

-- For a positive divisor `b`, `b` times the quotient and the remainder make up the dividend, and
-- the remainder is from 0 to below `b`.
pub floor_div-floor_mod :
    (a : ℤ) (b : ℕ)
    → 0 < b
    → (a ≡ floor_div a (pos b) *ℤ pos b +ℤ floor_mod a (pos b))
      × (pos 0 ≤ℤ floor_mod a (pos b))
      × (floor_mod a (pos b) <ℤ pos b)
unfolding floor_div floor_mod ◌/ℤ◌ ◌%ℤ◌ IsFloor
floor_div-floor_mod (pos a) b h =
    unfold ◌+ℤ◌ ◌-ℤ◌ ◌*ℤ◌ in ground (arith, div-add-mod a b, mod-lt a h)
floor_div-floor_mod (negsuc a) b h =
    negsuc-IsFloor a b (suc a / b) (suc a % b) (sym (div-add-mod (suc a) b)) (mod-lt (suc a) h)
