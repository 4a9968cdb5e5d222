-- ===== src/Ntp/Samples/Majority.antt =====
-- More than half of the values decide where the median is.
use time_shield_cpp.Base.{
  ℕ, ◌+◌, ◌*◌, ◌/◌, ◌%◌, ◌≤◌, ◌<◌, ◌≡◌, refl, ap, Bool, Bool-cases, true, false, ◌&&◌, List, [],
  ◌∷◌, ◌==◌, Option, some, inl, inr, arith,
}
use time_shield_cpp.Base.Int.{ℤ, pos, ◌+ℤ◌, ◌/ℤ◌, ◌≤ℤ◌, ltb_ℤ, leb_ℤ, int_laws, parts_disjoint}
use time_shield_cpp.Ntp.Samples.{size, largest, middle_of_two, median}
use time_shield_cpp.Ntp.Samples.Counts.{
  one_if, count, count-le, count-all, count-size, IsSplitAt, split_at-some, IsNthElement,
}

abbrev pub inside : ℤ → ℤ → ℤ → Bool
inside lo hi x = leb_ℤ lo x && leb_ℤ x hi

largest-le : (m x : ℤ) (xs : List ℤ) → count (λ y. ltb_ℤ m y) (x ∷ xs) ≡ 0 → largest x xs ≤ℤ m
unfolding largest count
largest-le m x [] e = ground arith
largest-le m x (y ∷ xs) e = elim (Bool-cases (ltb_ℤ x y)) [
  | inl less ↦ rw less (largest-le m y xs (ground arith))
  | inr more ↦ rw more (largest-le m x xs (ground arith))
]

largest-ge : (lo x : ℤ) (xs : List ℤ) → 0 < count (λ y. leb_ℤ lo y) (x ∷ xs) → lo ≤ℤ largest x xs
unfolding largest count
largest-ge lo x [] e = ground arith
largest-ge lo x (y ∷ xs) e = elim (Bool-cases (ltb_ℤ x y)) [
  | inl less ↦ rw less (largest-ge lo y xs (ground arith))
  | inr more ↦ rw more (largest-ge lo x xs (ground arith))
]

mean_between :
    (lo hi a b : ℤ)
    → (lo ≤ℤ a) × (a ≤ℤ hi)
    → (lo ≤ℤ b) × (b ≤ℤ hi)
    → (lo ≤ℤ (a +ℤ b) /ℤ pos 2) × ((a +ℤ b) /ℤ pos 2 ≤ℤ hi)
mean_between lo hi a b (p, q) (r, s) =
    let sum = a +ℤ b in
    (
      omega (int_laws, parts_disjoint sum, parts_disjoint lo, parts_disjoint a, parts_disjoint b),
      omega (int_laws, parts_disjoint sum, parts_disjoint hi, parts_disjoint a, parts_disjoint b),
    )

module _ (lo hi : ℤ) (n : ℕ) (xs before : List ℤ) (x : ℤ) (after : List ℤ)
    (s : IsSplitAt (n / 2) xs before x after) (length_is : size xs ≡ n)
    (majority : n < count (inside lo hi) xs * 2) (low : count (λ y. ltb_ℤ x y) before ≡ 0)
    (high : count (λ y. ltb_ℤ y x) after ≡ 0) where
  sizes : size before + 1 + size after ≡ n
  sizes =
      omega
        (arith, s.counted (λ y. true), count-all xs, count-all before, count-all after, length_is)

  counts :
      n < (count (inside lo hi) before + one_if (inside lo hi x) + count (inside lo hi) after) * 2
  counts = omega (arith, s.counted (inside lo hi), majority)

  middle_high_enough : lo ≤ℤ x
  middle_high_enough = elim (Bool-cases (leb_ℤ lo x)) [
    | inl e ↦ ground (arith, e)
    | inr e ↦
        let out : (inside lo hi x ≡ false) = rw e refl in
        let none_before =
          count-le (inside lo hi) (λ y. ltb_ℤ x y) before (λ y i. ground (arith, e, i)) in
        let rest = count-size (inside lo hi) after in
        absurd (omega (arith, ap one_if out, none_before, low, rest, counts, sizes, s.place))
  ]

  middle_low_enough : x ≤ℤ hi
  middle_low_enough = elim (Bool-cases (leb_ℤ x hi)) [
    | inl e ↦ ground (arith, e)
    | inr e ↦
        let out : (inside lo hi x ≡ false) = ground (arith, e) in
        let none_after =
          count-le (inside lo hi) (λ y. ltb_ℤ y x) after (λ y i. ground (arith, e, i)) in
        let rest = count-size (inside lo hi) before in
        absurd (omega (arith, ap one_if out, none_after, high, rest, counts, sizes, s.place))
  ]

  some_before : n % 2 ≡ 0 → 0 < count (λ y. leb_ℤ lo y) before
  some_before even =
      let fewer = count-le (inside lo hi) (λ y. leb_ℤ lo y) before (λ y i. ground (arith, i)) in
      let rest = count-size (inside lo hi) after in
      let one : (one_if (inside lo hi x) ≤ 1) = ground arith in
      omega (arith, fewer, rest, one, counts, sizes, s.place, even)

abbrev pub IsBetween : ℤ → ℤ → Option ℤ → Type 0
IsBetween lo hi o = (m : ℤ) × (o ≡ some m) × (lo ≤ℤ m) × (m ≤ℤ hi)

middle_of_two-IsBetween :
    (lo hi x : ℤ) (before : List ℤ)
    → count (λ y. ltb_ℤ x y) before ≡ 0
    → 0 < count (λ y. leb_ℤ lo y) before
    → (lo ≤ℤ x) × (x ≤ℤ hi)
    → IsBetween lo hi (middle_of_two before x)
unfolding middle_of_two count
middle_of_two-IsBetween lo hi x [] low found r = absurd (omega (arith, found))
middle_of_two-IsBetween lo hi x (b ∷ before) low found r =
    let top = largest-le x b before low in
    let bottom = largest-ge lo b before found in
    let mean = mean_between lo hi (largest b before) x (bottom, omega (arith, top, r)) r in
    (_, refl, mean.0, mean.1)

-- Where more than half of the values are in an interval, their median is in it.
pub median-majority :
    (nth_element : ℕ → List ℤ → List ℤ) (values : List ℤ) (lo hi : ℤ)
    → IsNthElement nth_element
    → size values < count (inside lo hi) values * 2
    → (m : ℤ) × (median nth_element values ≡ some m) × (lo ≤ℤ m) × (m ≤ℤ hi)
unfolding median
median-majority nth_element values lo hi nth majority =
    let n = size values in
    let left = nth_element (n / 2) values in
    let same = nth.same_values (n / 2) values in
    let length_is : (size left ≡ n) =
      omega (arith, same (λ y. true), count-all left, count-all values) in
    let most = count-size (inside lo hi) values in
    let (before, x, after, e, s) = split_at-some (n / 2) left (omega arith) in
    let low = nth.before_most (n / 2) values before x after e in
    let high = nth.after_least (n / 2) values before x after e in
    let agree : (n < count (inside lo hi) left * 2) =
      omega (arith, majority, same (inside lo hi)) in
    let bottom = middle_high_enough lo hi n left before x after s length_is agree low high in
    let top = middle_low_enough lo hi n left before x after s length_is agree low high in
    elim (Bool-cases (n % 2 == 1)) [
      | inl odd ↦ rw (e, odd) (x, refl, bottom, top)
      | inr even ↦
          rw (e, even)
            (middle_of_two-IsBetween lo hi x before low
              (some_before lo hi n left before x after s length_is agree low high
                (ground (arith, even)))
              (bottom, top))
    ]
