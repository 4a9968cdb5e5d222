-- ===== src/Text.antt =====
-- What the code uses of the C library on text: characters are their codes, std::isdigit in the C
-- locale, and the conversions %d and %.2d of std::snprintf for numbers below 10^20.
pub mod Printed
use time_shield_cpp.Base.{
  ℕ, zero, suc, ◌+◌, ◌-◌, ◌*◌, ◌/◌, ◌%◌, ◌^◌, ◌<◌, ◌≡◌, ap, ◌∙◌, Bool, true, false, ◌&&◌, List, [],
  ◌∷◌, ltb, leb, if◌then◌else◌, arith, Bool-cases, inl, inr,
}
use time_shield_cpp.Base.Int.{ℤ, pos, negsuc}

abbrev pub plus_char : ℕ
plus_char = 43

abbrev pub minus_char : ℕ
minus_char = 45

abbrev pub zero_char : ℕ
zero_char = 48

abbrev pub is_digit : ℕ → Bool
is_digit c = leb 48 c && leb c 57

unfoldable pub length : List ℕ → ℕ
length [] = 0
length (c ∷ p) = suc (length p)

unfoldable pub take : ℕ → List ℕ → List ℕ
take zero p = []
take (suc n) [] = []
take (suc n) (c ∷ p) = c ∷ take n p

unfoldable pub drop : ℕ → List ℕ → List ℕ
drop zero p = p
drop (suc n) [] = []
drop (suc n) (c ∷ p) = drop n p

unfoldable pub is_end : List ℕ → Bool
is_end [] = true
is_end (c ∷ p) = false

-- The digits of a number before a text, where `count` digits are enough.
unfoldable pub print_digits : ℕ → ℕ → List ℕ → List ℕ
print_digits zero n tail = tail
print_digits (suc count) n tail =
    let rest = print_digits count (n / 10) ((zero_char + n % 10) ∷ tail) in
    if ltb n 10 then (zero_char + n) ∷ tail else rest

-- %d
unfoldable pub print_int : ℤ → List ℕ → List ℕ
unfolding print_digits
print_int (pos n) tail = print_digits 20 n tail
print_int (negsuc n) tail = minus_char ∷ print_digits 20 (suc n) tail

-- %.2d
unfoldable pub print_two : ℕ → List ℕ → List ℕ
unfolding print_digits
print_two n tail = if ltb n 10 then zero_char ∷ (zero_char + n) ∷ tail else print_digits 20 n tail

-- %.3d
unfoldable pub print_three : ℕ → List ℕ → List ℕ
unfolding print_digits print_two
print_three n tail = if ltb n 100 then zero_char ∷ print_two n tail else print_digits 20 n tail

-- The loop that reads digits into a value.
unfoldable pub read_digits : ℕ → List ℕ → ℕ × List ℕ
read_digits value [] = (value, [])
read_digits value (c ∷ p) =
    let rest = read_digits (value * 10 + (c - zero_char)) p in
    if is_digit c then rest else (value, c ∷ p)

unfoldable pub starts_with_digit : List ℕ → Bool
starts_with_digit [] = false
starts_with_digit (c ∷ p) = is_digit c

read_digit :
    (value n v : ℕ) (tail : List ℕ)
    → n < 10
    → value * 10 + n ≡ v
    → read_digits value ((zero_char + n) ∷ tail) ≡ read_digits v tail
unfolding read_digits
read_digit value n v tail h e =
    let digit : (is_digit (zero_char + n) ≡ true) = ground arith in
    rw digit (ap (λ k. read_digits k tail) (omega arith))

-- Reading what was printed.
pub read_digits-print_digits :
    (count n : ℕ) (tail : List ℕ)
    → n < 10 ^ count
    → read_digits 0 (print_digits count n tail) ≡ read_digits n tail
unfolding print_digits
read_digits-print_digits zero n tail h = ap (λ k. read_digits k tail) {x = 0} {y = n} (omega arith)
read_digits-print_digits (suc count) n tail h = elim (Bool-cases (ltb n 10)) [
  | inl small ↦ rw small (read_digit 0 n n tail (ground (arith, small)) (omega arith))
  | inr large ↦ rw large (
      read_digits-print_digits count (n / 10) ((zero_char + n % 10) ∷ tail) (omega arith)
      ∙ read_digit (n / 10) (n % 10) n tail (omega arith) (omega arith))
]

digits_before :
    (count n d : ℕ) (tail : List ℕ)
    → d < 10
    → starts_with_digit (print_digits count n ((zero_char + d) ∷ tail)) ≡ true
unfolding print_digits starts_with_digit
digits_before zero n d tail h = ground arith
digits_before (suc count) n d tail h = elim (Bool-cases (ltb n 10)) [
  | inl small ↦ rw small (ground (arith, small))
  | inr large ↦
      rw large (digits_before count (n / 10) (n % 10) ((zero_char + d) ∷ tail) (omega arith))
]

pub starts_with_digit-print_digits :
    (n : ℕ) (tail : List ℕ) → starts_with_digit (print_digits 20 n tail) ≡ true
unfolding print_digits starts_with_digit
starts_with_digit-print_digits n tail = elim (Bool-cases (ltb n 10)) [
  | inl small ↦ rw small (ground (arith, small))
  | inr large ↦ rw large (digits_before 19 (n / 10) (n % 10) tail (omega arith))
]
