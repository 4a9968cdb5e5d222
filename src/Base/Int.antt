-- ===== src/Base/Int.antt =====
-- Signed integers over the native numbers, with the division and remainder of C++, which round
-- towards zero. A signed C++ integer is modelled by the number it stands for.
use time_shield_cpp.Base.{
  ℕ, zero, suc, ◌+◌, ◌-◌, ◌*◌, ◌/◌, ◌%◌, ◌≤◌, ◌<◌, ◌≡◌, refl, ◌⊎◌, Bool, true, false, arith, ltb,
  leb, ◌==◌, if◌then◌else◌,
}

-- `negsuc n` is -(n + 1).
pub data ℤ : Type 0 where
  pos : ℕ → ℤ
  negsuc : ℕ → ℤ

abbrev pub pos_part : ℤ → ℕ
pos_part (pos n) = n
pos_part (negsuc n) = 0

abbrev pub neg_part : ℤ → ℕ
neg_part (pos n) = 0
neg_part (negsuc n) = suc n

-- a - b, as an integer.
abbrev pub sub_ℕ : ℕ → ℕ → ℤ
sub_ℕ a b = if leb b a then pos (a - b) else negsuc (b - a - 1)

-- The integer -n.
abbrev pub neg_ℕ : ℕ → ℤ
neg_ℕ zero = pos 0
neg_ℕ (suc n) = negsuc n

infixl 65 ◌+ℤ◌ ◌-ℤ◌
infixl 70 ◌*ℤ◌ ◌/ℤ◌ ◌%ℤ◌
infix 50 ◌≤ℤ◌ ◌<ℤ◌ ◌==ℤ◌
unfoldable pub ◌+ℤ◌ : ℤ → ℤ → ℤ
a +ℤ b = sub_ℕ (pos_part a + pos_part b) (neg_part a + neg_part b)

unfoldable pub ◌-ℤ◌ : ℤ → ℤ → ℤ
a -ℤ b = sub_ℕ (pos_part a + neg_part b) (neg_part a + pos_part b)

unfoldable pub ◌*ℤ◌ : ℤ → ℤ → ℤ
a *ℤ b =
    sub_ℕ (pos_part a * pos_part b + neg_part a * neg_part b)
      (pos_part a * neg_part b + neg_part a * pos_part b)

-- Division rounds towards zero.
unfoldable pub ◌/ℤ◌ : ℤ → ℤ → ℤ
pos a /ℤ pos b = pos (a / b)
pos a /ℤ negsuc b = neg_ℕ (a / suc b)
negsuc a /ℤ pos b = neg_ℕ (suc a / b)
negsuc a /ℤ negsuc b = pos (suc a / suc b)

-- The remainder has the sign of the dividend.
unfoldable pub ◌%ℤ◌ : ℤ → ℤ → ℤ
pos a %ℤ pos b = pos (a % b)
pos a %ℤ negsuc b = pos (a % suc b)
negsuc a %ℤ pos b = neg_ℕ (suc a % b)
negsuc a %ℤ negsuc b = neg_ℕ (suc a % suc b)

abbrev pub ◌≤ℤ◌ : ℤ → ℤ → Type 0
a ≤ℤ b = pos_part a + neg_part b ≤ pos_part b + neg_part a

abbrev pub ◌<ℤ◌ : ℤ → ℤ → Type 0
a <ℤ b = pos_part a + neg_part b < pos_part b + neg_part a

abbrev pub ltb_ℤ : ℤ → ℤ → Bool
ltb_ℤ a b = ltb (pos_part a + neg_part b) (pos_part b + neg_part a)

abbrev pub leb_ℤ : ℤ → ℤ → Bool
leb_ℤ a b = leb (pos_part a + neg_part b) (pos_part b + neg_part a)

abbrev pub ◌==ℤ◌ : ℤ → ℤ → Bool
a ==ℤ b = (pos_part a + neg_part b) == (pos_part b + neg_part a)

abbrev pub min_ℤ : ℤ → ℤ → ℤ
min_ℤ a b = if leb_ℤ a b then a else b

-- One law for each operation, by which `omega` reads it with the operation shut.
pub +ℤ_parts :
    (a b : ℤ)
    → pos_part (a +ℤ b) + neg_part a + neg_part b ≡ neg_part (a +ℤ b) + pos_part a + pos_part b
unfolding ◌+ℤ◌
+ℤ_parts a b = ground arith

pub -ℤ_parts :
    (a b : ℤ)
    → pos_part (a -ℤ b) + neg_part a + pos_part b ≡ neg_part (a -ℤ b) + pos_part a + neg_part b
unfolding ◌-ℤ◌
-ℤ_parts a b = ground arith

-- One of the two parts is zero.
pub parts_disjoint : (a : ℤ) → (pos_part a ≡ 0) ⊎ (neg_part a ≡ 0)
parts_disjoint (pos n) = omega arith
parts_disjoint (negsuc n) = omega arith

pub eq_of_parts : (a b : ℤ) → pos_part a + neg_part b ≡ pos_part b + neg_part a → a ≡ b
eq_of_parts a b h = ground arith

pub *ℤ-pos_part : (a : ℤ) (k : ℕ) → pos_part (a *ℤ pos k) ≡ pos_part a * k
unfolding ◌*ℤ◌
*ℤ-pos_part (pos n) k = ground arith
*ℤ-pos_part (negsuc n) k = ground arith

pub *ℤ-neg_part : (a : ℤ) (k : ℕ) → neg_part (a *ℤ pos k) ≡ neg_part a * k
unfolding ◌*ℤ◌
*ℤ-neg_part (pos n) k = ground arith
*ℤ-neg_part (negsuc n) k = ground arith

pub /ℤ-pos_part : (a : ℤ) (k : ℕ) → pos_part (a /ℤ pos k) ≡ pos_part a / k
unfolding ◌/ℤ◌
/ℤ-pos_part (pos n) k = refl
/ℤ-pos_part (negsuc n) k = ground arith

pub /ℤ-neg_part : (a : ℤ) (k : ℕ) → neg_part (a /ℤ pos k) ≡ neg_part a / k
unfolding ◌/ℤ◌
/ℤ-neg_part (pos n) k = ground arith
/ℤ-neg_part (negsuc n) k = ground arith

pub %ℤ-pos_part : (a : ℤ) (k : ℕ) → pos_part (a %ℤ pos k) ≡ pos_part a % k
unfolding ◌%ℤ◌
%ℤ-pos_part (pos n) k = refl
%ℤ-pos_part (negsuc n) k = ground arith

pub %ℤ-neg_part : (a : ℤ) (k : ℕ) → neg_part (a %ℤ pos k) ≡ neg_part a % k
unfolding ◌%ℤ◌
%ℤ-neg_part (pos n) k = ground arith
%ℤ-neg_part (negsuc n) k = ground arith

-- The tests of a number against zero, by its sign.
pub ltb_ℤ-negsuc : (n : ℕ) → ltb_ℤ (negsuc n) (pos 0) ≡ true
ltb_ℤ-negsuc n = ground arith

pub ==ℤ-negsuc : (n : ℕ) → (negsuc n ==ℤ pos 0) ≡ false
==ℤ-negsuc n = ground arith

pub neg_ℕ-sub_one : (n : ℕ) → neg_ℕ n -ℤ pos 1 ≡ negsuc n
unfolding ◌-ℤ◌
neg_ℕ-sub_one zero = refl
neg_ℕ-sub_one (suc n) = ground arith

pub -ℤ-zero : (a : ℤ) → a -ℤ pos 0 ≡ a
unfolding ◌-ℤ◌
-ℤ-zero a = ground arith

pub +ℤ-zero : (a : ℤ) → a +ℤ pos 0 ≡ a
unfolding ◌+ℤ◌
+ℤ-zero a = ground arith

pub ruleset int_laws = (
  arith, +ℤ_parts, -ℤ_parts, parts_disjoint, eq_of_parts, *ℤ-pos_part, *ℤ-neg_part, /ℤ-pos_part,
  /ℤ-neg_part, %ℤ-pos_part, %ℤ-neg_part,
)
