-- ===== src/Text/Printed.antt =====
-- The characters that the conversions print for short numbers.
use time_shield_cpp.Base.{
  ℕ, ◌+◌, ◌/◌, ◌%◌, ◌^◌, ◌≤◌, ◌<◌, ◌≡◌, refl, ap, ◌∙◌, true, false, List, [], ◌∷◌, ltb, arith,
  Bool-cases, inl, inr,
}
use time_shield_cpp.Base.Int.{pos}
use time_shield_cpp.Text.{
  zero_char, is_digit, print_digits, print_int, print_two, print_three, read_digits,
  starts_with_digit, read_digits-print_digits,
}

pub read_digits-end :
    (value : ℕ) (tail : List ℕ)
    → starts_with_digit tail ≡ false
    → read_digits value tail ≡ (value, tail)
unfolding read_digits starts_with_digit
read_digits-end value [] h = refl
read_digits-end value (c ∷ p) h = rw h refl

-- A number that is printed before what is no digit.
pub number_read :
    (n : ℕ) (tail : List ℕ)
    → n < 10 ^ 20
    → starts_with_digit tail ≡ false
    → read_digits 0 (print_digits 20 n tail) ≡ (n, tail)
number_read n tail h e = read_digits-print_digits 20 n tail h ∙ read_digits-end n tail e

-- The character of a digit.
abbrev pub digit : ℕ → ℕ
digit n = zero_char + n

two_chars : (a b c d : ℕ) (tail : List ℕ) → a ≡ c → b ≡ d → a ∷ b ∷ tail ≡ c ∷ d ∷ tail
two_chars a b c d tail p q = λ i. p i ∷ q i ∷ tail

pub print_two_lem :
    (k : ℕ) (tail : List ℕ) → k ≤ 99 → print_two k tail ≡ digit (k / 10) ∷ digit (k % 10) ∷ tail
unfolding print_two print_digits
print_two_lem k tail h = elim (Bool-cases (ltb k 10)) [
  | inl small ↦ rw small (
      let lt : (k < 10) = ground (arith, small) in
      two_chars _ _ _ _ tail (omega arith) (omega arith))
  | inr large ↦ let tens : (ltb (k / 10) 10 ≡ true) = ground arith in rw (large, tens) refl
]

pub print_three_lem :
    (k : ℕ) (tail : List ℕ)
    → k ≤ 999
    → print_three k tail ≡ digit (k / 100) ∷ digit (k / 10 % 10) ∷ digit (k % 10) ∷ tail
unfolding print_three print_digits
print_three_lem k tail h = elim (Bool-cases (ltb k 100)) [
  | inl small ↦ rw small (
      let lt : (k < 100) = ground (arith, small) in
      ap (λ t. zero_char ∷ t) (print_two_lem k tail (omega arith)) ∙ λ i.
      number 0 (k / 100) (omega arith) i
      ∷ number (k / 10) (k / 10 % 10) (omega arith) i
      ∷ digit (k % 10)
      ∷ tail)
  | inr large ↦
      let big : (100 ≤ k) = ground (arith, large) in
      let ones : (ltb k 10 ≡ false) = ground arith in
      let tens : (ltb (k / 10) 10 ≡ false) = ground arith in
      let hundreds : (ltb (k / 10 / 10) 10 ≡ true) = ground arith in
      rw (large, ones, tens, hundreds)
        (ap (λ n. digit n ∷ digit (k / 10 % 10) ∷ digit (k % 10) ∷ tail) (omega arith))
]
  where
    number : (a b : ℕ) → a ≡ b → digit a ≡ digit b
    number a b e = ap digit e

pub print_four_lem :
    (n : ℕ) (tail : List ℕ)
    → 1000 ≤ n
    → n ≤ 9999
    → print_int (pos n) tail
      ≡ digit (n / 1000) ∷ digit (n / 100 % 10) ∷ digit (n / 10 % 10) ∷ digit (n % 10) ∷ tail
unfolding print_int print_digits
print_four_lem n tail low high =
    let ones : (ltb n 10 ≡ false) = ground arith in
    let tens : (ltb (n / 10) 10 ≡ false) = ground arith in
    let hundreds : (ltb (n / 10 / 10) 10 ≡ false) = ground arith in
    let thousands : (ltb (n / 10 / 10 / 10) 10 ≡ true) = ground arith in
    rw (ones, tens, hundreds, thousands)
      (λ i.
        digit (same (n / 10 / 10 / 10) (n / 1000) (omega arith) i)
        ∷ digit (same (n / 10 / 10 % 10) (n / 100 % 10) (omega arith) i)
        ∷ digit (n / 10 % 10)
        ∷ digit (n % 10)
        ∷ tail)
  where
    same : (a b : ℕ) → a ≡ b → a ≡ b
    same a b e = e

pub two_number :
    (k : ℕ) (tail : List ℕ)
    → k ≤ 99
    → starts_with_digit tail ≡ false
    → read_digits 0 (print_two k tail) ≡ (k, tail)
unfolding read_digits
two_number k tail h e =
    let tens : (is_digit (digit (k / 10)) ≡ true) = ground arith in
    let ones : (is_digit (digit (k % 10)) ≡ true) = ground arith in
    rw (print_two_lem k tail h, tens, ones, read_digits-end _ tail e)
      (ap (λ n. (n, tail)) (omega arith))
