-- ===== src/Parser/Timeframe/Numbers.antt =====
-- The numbers of a timeframe and their products: bounded by int64_t, and otherwise exact.
use native.Mathlib.Nat.{div-add-mod, mod-lt, mul_comm, mul-suc}
use time_shield_cpp.Base.{
  ℕ, zero, suc, ◌+◌, ◌-◌, ◌*◌, ◌/◌, ◌%◌, ◌≤◌, ◌<◌, ◌≡◌, refl, ap, ◌∙◌, Bool, Bool-cases, true,
  false, ◌&&◌, List, [], ◌∷◌, ltb, leb, if◌then◌else◌, Option, some, none, ◌>>=◌, ◌>>◌, guard,
  arith, inl, inr,
}
use time_shield_cpp.Text.{zero_char}
use time_shield_cpp.Parser.{is_ascii_digit}
use time_shield_cpp.Parser.Timeframe.{
  max_value, int64_loop, try_parse_positive_int64, try_multiply_positive_int64, every,
}

-- The number that digits stand for, after `value`, of any size.
abbrev pub decimal : ℕ → List ℕ → ℕ
decimal value [] = value
decimal value (c ∷ p) = decimal (value * 10 + (c - zero_char)) p

le-decimal : (value : ℕ) (p : List ℕ) → value ≤ decimal value p
le-decimal value [] = omega arith
le-decimal value (c ∷ p) = omega (arith, le-decimal (value * 10 + (c - zero_char)) p)

-- A result, where it is at most the greatest of int64_t.
abbrev pub bounded : Bool → ℕ → Option ℕ
bounded ok n = if ok && leb n max_value then some n else none

digit_range : (c : ℕ) → is_ascii_digit c ≡ true → c - zero_char ≤ 9
digit_range c h = ground arith

bounded_over : (b : Bool) (n : ℕ) → max_value < n → none ≡ bounded b n
bounded_over true n h = let over : (leb n max_value ≡ false) = ground arith in rw over refl
bounded_over false n h = refl

int64_loop-decimal :
    (value : ℕ) (p : List ℕ)
    → value ≤ max_value
    → int64_loop value p ≡ bounded (every is_ascii_digit p) (decimal value p)
unfolding int64_loop every
int64_loop-decimal value [] h =
    let fits : (leb value max_value ≡ true) = ground arith in rw fits refl
int64_loop-decimal value (c ∷ p) h = elim (Bool-cases (is_ascii_digit c)) [
  | inr other ↦ rw other refl
  | inl is_digit ↦
      let small = digit_range c is_digit in
      let next = value * 10 + (c - zero_char) in
      elim (Bool-cases (ltb ((max_value - (c - zero_char)) / 10) value)) [
        | inl over ↦
            let big : (max_value < next) = ground (arith, over, small) in
            rw (is_digit, over)
              (bounded_over (every is_ascii_digit p) (decimal next p)
                (omega (arith, big, le-decimal next p)))
        | inr fits ↦
            let kept : (next ≤ max_value) = ground (arith, fits, small) in
            rw (is_digit, fits) (int64_loop-decimal next p kept)
      ]
]

-- A text is read as a positive number exactly if it consists of digits that stand for a number
-- from 1 to the greatest of int64_t, and as that number.
pub try_parse_positive_int64-decimal :
    (p : List ℕ)
    → try_parse_positive_int64 p
      ≡ bounded (every is_ascii_digit p && ltb 0 (decimal 0 p)) (decimal 0 p)
unfolding try_parse_positive_int64 every
try_parse_positive_int64-decimal [] = refl
try_parse_positive_int64-decimal (c ∷ p) =
    ap (λ o. o >>= λ value. guard (ltb 0 value) >> some value)
      (int64_loop-decimal 0 (c ∷ p) (omega arith))
    ∙ checked (every is_ascii_digit (c ∷ p)) (decimal 0 (c ∷ p))
  where
    checked :
        (b : Bool) (n : ℕ)
        → (bounded b n >>= λ value. guard (ltb 0 value) >> some value) ≡ bounded (b && ltb 0 n) n
    checked true n = elim (Bool-cases (leb n max_value)) [
      | inr over ↦ elim (Bool-cases (ltb 0 n)) [
        | inl p ↦ rw (over, p) refl
        | inr p ↦ rw (over, p) refl
      ]
      | inl fits ↦ elim (Bool-cases (ltb 0 n)) [
        | inl p ↦ rw (fits, p) refl
        | inr p ↦ rw (fits, p) refl
      ]
    ]
    checked false n = refl

product_over : (a b q r : ℕ) → b * q + r ≡ max_value → r < b → q < a → max_value < a * b
product_over a b q r e small over =
    let step : (b * (q + 1) ≤ b * a) = grind arith in
    let same : (b * a ≡ a * b) = mul_comm b a in omega (arith, e, small, step, same, mul-suc b q)

product_fits : (a b q r : ℕ) → b * q + r ≡ max_value → a ≤ q → a * b ≤ max_value
product_fits a b q r e fits =
    let step : (b * a ≤ b * q) = grind arith in
    let same : (b * a ≡ a * b) = mul_comm b a in omega (arith, e, step, same)

-- Two positive factors are multiplied exactly where the product is in range.
pub try_multiply_positive_int64-bounded :
    (a b : ℕ) → try_multiply_positive_int64 a b ≡ bounded (ltb 0 a && ltb 0 b) (a * b)
unfolding try_multiply_positive_int64
try_multiply_positive_int64-bounded zero b = refl
try_multiply_positive_int64-bounded (suc a) zero =
    let second : (ltb 0 (suc a) ≡ true) = ground arith in
    let first : (leb (suc a) 0 ≡ false) = ground arith in rw (first, second) refl
try_multiply_positive_int64-bounded (suc a) (suc b) =
    let q = max_value / suc b in
    let e = div-add-mod max_value (suc b) in
    let rest = mod-lt max_value {m = suc b} (omega arith) in
    let p : (ltb 0 (suc a) ≡ true) = ground arith in
    let p' : (leb (suc a) 0 ≡ false) = ground arith in
    let r : (ltb 0 (suc b) ≡ true) = ground arith in
    let r' : (leb (suc b) 0 ≡ false) = ground arith in
    elim (Bool-cases (ltb q (suc a))) [
      | inl over ↦
          let above : (q < suc a) = ground (arith, over) in
          let big = product_over (suc a) (suc b) q (max_value % suc b) e rest above in
          let test : (leb (suc a * suc b) max_value ≡ false) = ground (arith, big) in
          rw (p, p', r, r', over, test) refl
      | inr fits ↦
          let below : (suc a ≤ q) = ground (arith, fits) in
          let small = product_fits (suc a) (suc b) q (max_value % suc b) e below in
          let test : (leb (suc a * suc b) max_value ≡ true) = ground (arith, small) in
          rw (p, p', r, r', fits, test) refl
    ]
