-- ===== src/Ntp/Samples/Counts.antt =====
-- Counts of the values for which a test holds, and std::nth_element by such counts.
use time_shield_cpp.Base.{
  ℕ, zero, suc, ◌+◌, ◌≤◌, ◌<◌, ◌≡◌, refl, Bool, Bool-cases, true, List, [], ◌∷◌, if◌then◌else◌,
  some, inl, inr, arith,
}
use time_shield_cpp.Base.Int.{ℤ, ltb_ℤ}
use time_shield_cpp.Ntp.Samples.{size, split_at}

abbrev pub one_if : Bool → ℕ
one_if b = if b then 1 else 0

unfoldable pub count : (ℤ → Bool) → List ℤ → ℕ
count test [] = 0
count test (x ∷ xs) = one_if (test x) + count test xs

pub count-le :
    (test other : ℤ → Bool) (xs : List ℤ)
    → ((x : ℤ) → test x ≡ true → other x ≡ true)
    → count test xs ≤ count other xs
unfolding count
count-le test other [] h = omega arith
count-le test other (x ∷ xs) h =
    let rest = count-le test other xs h in
    elim (Bool-cases (test x)) [
      | inl e ↦ rw (e, h x e) (omega (arith, rest))
      | inr e ↦ rw e (omega (arith, rest))
    ]

pub count-all : (xs : List ℤ) → count (λ x. true) xs ≡ size xs
unfolding count size
count-all [] = refl
count-all (x ∷ xs) = omega (arith, count-all xs)

pub count-size : (test : ℤ → Bool) (xs : List ℤ) → count test xs ≤ size xs
count-size test xs = omega (arith, count-le test (λ x. true) xs (λ x e. refl), count-all xs)

-- What split_at takes apart.
pub record IsSplitAt (n : ℕ) (xs before : List ℤ) (x : ℤ) (after : List ℤ) : Type 0 where
  pub place : size before ≡ n
  pub counted :
      (test : ℤ → Bool) → count test xs ≡ count test before + one_if (test x) + count test after

pub split_at-some :
    (n : ℕ) (xs : List ℤ)
    → n < size xs
    → (before : List ℤ) × (x : ℤ) × (after : List ℤ) × (split_at n xs ≡ some (before, x, after))
      × IsSplitAt n xs before x after
unfolding split_at size count
split_at-some n [] h = absurd (omega arith)
split_at-some zero (x ∷ xs) h =
    ([], x, xs, refl, record { place = refl; counted = λ test. omega arith })
split_at-some (suc n) (x ∷ xs) h =
    let (before, y, after, e, s) = split_at-some n xs (omega arith) in
    (
      x ∷ before,
      y,
      after,
      rw e refl,
      record { place = omega (arith, s.place); counted = λ test. omega (arith, s.counted test) },
    )

-- What std::nth_element promises for each position: the values are the same ones, none before the
-- position is greater than the value there, and none after it is less.
pub record IsNthElement (nth_element : ℕ → List ℤ → List ℤ) : Type 0 where
  pub same_values :
      (n : ℕ) (xs : List ℤ) (test : ℤ → Bool) → count test (nth_element n xs) ≡ count test xs
  pub before_most :
      (n : ℕ) (xs before : List ℤ) (x : ℤ) (after : List ℤ)
      → split_at n (nth_element n xs) ≡ some (before, x, after)
      → count (λ y. ltb_ℤ x y) before ≡ 0
  pub after_least :
      (n : ℕ) (xs before : List ℤ) (x : ℤ) (after : List ℤ)
      → split_at n (nth_element n xs) ≡ some (before, x, after)
      → count (λ y. ltb_ℤ y x) after ≡ 0
