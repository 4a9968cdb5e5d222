-- ===== src/Ntp/Samples/Trim.antt =====
-- median_mad_trim stays near more than half of the values.
use time_shield_cpp.Base.{
  ℕ, ◌*◌, ◌/◌, ◌≤◌, ◌<◌, ◌≡◌, refl, Bool-cases, true, List, [], ◌∷◌, some, inl, inr, arith,
}
use time_shield_cpp.Base.Int.{
  ℤ, pos, ◌+ℤ◌, ◌-ℤ◌, ◌*ℤ◌, ◌≤ℤ◌, ◌==ℤ◌, leb_ℤ, int_laws, +ℤ_parts, -ℤ_parts,
}
use time_shield_cpp.Ntp.Samples.{
  size, deviation, deviations, kept, after_median, median_unless_empty, trim, median_mad_trim,
}
use time_shield_cpp.Ntp.Samples.Counts.{count, count-all, IsNthElement}
use time_shield_cpp.Ntp.Samples.Majority.{inside, IsBetween, median-majority}

pub size-deviations : (med : ℤ) (xs : List ℤ) → size (deviations med xs) ≡ size xs
unfolding deviations size
size-deviations med [] = refl
size-deviations med (x ∷ xs) = omega (arith, size-deviations med xs)

deviation-inside :
    (lo hi med x : ℤ)
    → (lo ≤ℤ med) × (med ≤ℤ hi)
    → inside lo hi x ≡ true
    → inside (pos 0) (hi -ℤ lo) (deviation med x) ≡ true
unfolding deviation
deviation-inside lo hi med x r e =
    ground (arith, -ℤ_parts hi lo, -ℤ_parts x med, -ℤ_parts med x, r, e)

count-deviations :
    (lo hi med : ℤ) (xs : List ℤ)
    → (lo ≤ℤ med) × (med ≤ℤ hi)
    → count (inside lo hi) xs ≤ count (inside (pos 0) (hi -ℤ lo)) (deviations med xs)
unfolding count deviations
count-deviations lo hi med [] r = omega arith
count-deviations lo hi med (x ∷ xs) r =
    let rest = count-deviations lo hi med xs r in
    elim (Bool-cases (inside lo hi x)) [
      | inl e ↦ rw (e, deviation-inside lo hi med x r e) (omega (arith, rest))
      | inr e ↦ rw e (omega (arith, rest))
    ]

near : (med t x : ℤ) → leb_ℤ (deviation med x) t ≡ true → inside (med -ℤ t) (med +ℤ t) x ≡ true
unfolding deviation
near med t x e = ground (arith, -ℤ_parts med t, +ℤ_parts med t, -ℤ_parts x med, -ℤ_parts med x, e)

kept-near :
    (med t : ℤ) (xs : List ℤ)
    → count (inside (med -ℤ t) (med +ℤ t)) (kept med t xs) ≡ size (kept med t xs)
unfolding count kept size
kept-near med t [] = refl
kept-near med t (x ∷ xs) = elim (Bool-cases (leb_ℤ (deviation med x) t)) [
  | inl e ↦ rw (e, near med t x e) (omega (arith, kept-near med t xs))
  | inr e ↦ rw e (kept-near med t xs)
]

unless_empty-IsBetween :
    (nth_element : ℕ → List ℤ → List ℤ) (lo hi med : ℤ) (xs : List ℤ)
    → IsNthElement nth_element
    → (lo ≤ℤ med) × (med ≤ℤ hi)
    → count (inside lo hi) xs ≡ size xs
    → IsBetween lo hi (median_unless_empty nth_element med xs)
unfolding median_unless_empty size
unless_empty-IsBetween nth_element lo hi med [] nth r all = (med, refl, r.0, r.1)
unless_empty-IsBetween nth_element lo hi med (x ∷ xs) nth r all =
    median-majority nth_element (x ∷ xs) lo hi nth (omega (arith, all))

trim-IsBetween :
    (nth_element : ℕ → List ℤ → List ℤ) (med mad : ℤ) (xs : List ℤ)
    → IsNthElement nth_element
    → pos 0 ≤ℤ mad
    → IsBetween (med -ℤ mad *ℤ pos 3) (med +ℤ mad *ℤ pos 3) (trim nth_element med mad xs)
unfolding trim
trim-IsBetween nth_element med mad xs nth nonneg =
    let t = mad *ℤ pos 3 in
    let r : ((med -ℤ t ≤ℤ med) × (med ≤ℤ med +ℤ t)) =
      (omega (int_laws, nonneg), omega (int_laws, nonneg)) in
    elim (Bool-cases (mad ==ℤ pos 0)) [
      | inl e ↦ rw e (med, refl, r.0, r.1)
      | inr e ↦ rw e (
          unless_empty-IsBetween nth_element (med -ℤ t) (med +ℤ t) med (kept med t xs) nth r
            (kept-near med t xs))
    ]

-- Where more than half of the offsets are in an interval, median_mad_trim gives a result, which
-- is outside of the interval by at most three times its length. std::nth_element keeps the values
-- and puts one at its place in the order.
pub median_mad_trim-majority :
    (nth_element : ℕ → List ℤ → List ℤ) (values : List ℤ) (lo hi : ℤ)
    → IsNthElement nth_element
    → size values < count (inside lo hi) values * 2
    → (r : ℤ) × (median_mad_trim nth_element values ≡ some r)
      × (lo -ℤ (hi -ℤ lo) *ℤ pos 3 ≤ℤ r)
      × (r ≤ℤ hi +ℤ (hi -ℤ lo) *ℤ pos 3)
unfolding median_mad_trim after_median
median_mad_trim-majority nth_element values lo hi nth majority =
    let left = nth_element (size values / 2) values in
    let same = nth.same_values (size values / 2) values in
    let length_is : (size left ≡ size values) =
      omega (arith, same (λ y. true), count-all left, count-all values) in
    let (med, e, low, high) = median-majority nth_element values lo hi nth majority in
    let more = count-deviations lo hi med left (low, high) in
    let (mad, f, nonneg, small) =
      median-majority nth_element (deviations med left) (pos 0) (hi -ℤ lo) nth
        (omega (arith, size-deviations med left, length_is, same (inside lo hi), majority, more)) in
    let (r, g, bottom, top) = trim-IsBetween nth_element med mad left nth nonneg in
    (
      r,
      rw (e, f) g,
      omega (int_laws, bottom, low, high, small),
      omega (int_laws, top, low, high, small),
    )
