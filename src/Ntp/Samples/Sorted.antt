-- ===== src/Ntp/Samples/Sorted.antt =====
-- Sorting the values is one way to do what std::nth_element promises.
use time_shield_cpp.Base.{
  ℕ, zero, suc, ◌+◌, ◌≤◌, ◌≡◌, refl, subst, Bool, Bool-cases, List, [], ◌∷◌, if◌then◌else◌, Option,
  some, none, ◌>>=◌, inl, inr, arith,
}
use time_shield_cpp.Base.Int.{ℤ, ltb_ℤ, leb_ℤ}
use time_shield_cpp.Ntp.Samples.{split_at}
use time_shield_cpp.Ntp.Samples.Counts.{one_if, count, count-le, IsNthElement}

unfoldable insert : ℤ → List ℤ → List ℤ
insert x [] = x ∷ []
insert x (y ∷ ys) = if leb_ℤ x y then x ∷ y ∷ ys else y ∷ insert x ys

unfoldable pub sort : List ℤ → List ℤ
unfolding insert
sort [] = []
sort (x ∷ xs) = insert x (sort xs)

count-insert :
    (test : ℤ → Bool) (x : ℤ) (ys : List ℤ)
    → count test (insert x ys) ≡ one_if (test x) + count test ys
unfolding count insert
count-insert test x [] = refl
count-insert test x (y ∷ ys) = elim (Bool-cases (leb_ℤ x y)) [
  | inl e ↦ rw e refl
  | inr e ↦ rw e (omega (arith, count-insert test x ys))
]

count-sort : (test : ℤ → Bool) (xs : List ℤ) → count test (sort xs) ≡ count test xs
unfolding count sort
count-sort test [] = refl
count-sort test (x ∷ xs) = omega (arith, count-insert test x (sort xs), count-sort test xs)

-- No value is less than one before it.
abbrev IsSorted : List ℤ → Type 0
IsSorted [] = Unit {0}
IsSorted (x ∷ xs) = (count (λ y. ltb_ℤ y x) xs ≡ 0) × IsSorted xs

insert-IsSorted : (x : ℤ) (ys : List ℤ) → IsSorted ys → IsSorted (insert x ys)
unfolding insert count
insert-IsSorted x [] s = (refl, tt)
insert-IsSorted x (y ∷ ys) (least, s) = elim (Bool-cases (leb_ℤ x y)) [
  | inl e ↦
      let fewer = count-le (λ z. ltb_ℤ z x) (λ z. ltb_ℤ z y) ys (λ z h. ground (arith, e, h)) in
      let first : (one_if (ltb_ℤ y x) ≡ 0) = ground (arith, e) in
      rw e ((omega (arith, fewer, least, first), (least, s)))
  | inr e ↦
      let first : (one_if (ltb_ℤ x y) ≡ 0) = ground (arith, e) in
      rw e
        ((omega (arith, count-insert (λ z. ltb_ℤ z y) x ys, least, first), insert-IsSorted x ys s))
]

sort-IsSorted : (xs : List ℤ) → IsSorted (sort xs)
unfolding sort
sort-IsSorted [] = tt
sort-IsSorted (x ∷ xs) = insert-IsSorted x (sort xs) (sort-IsSorted xs)

split_inverse :
    (o : Option (List ℤ × ℤ × List ℤ)) (h : ℤ) (r : List ℤ × ℤ × List ℤ)
    → (o >>= λ (before, y, after). some (h ∷ before, y, after)) ≡ some r
    → (t : List ℤ × ℤ × List ℤ) × (o ≡ some t) × ((h ∷ t.0, t.1, t.2) ≡ r)
split_inverse none h r e = absurd (cc e)
split_inverse (some t) h r e = (t, refl, cc e)

abbrev IsAround : List ℤ → List ℤ × ℤ × List ℤ → Type 0
IsAround xs (before, x, after) =
    (count (λ y. ltb_ℤ x y) before ≡ 0)
    × (count (λ y. ltb_ℤ y x) after ≡ 0)
    × ((test : ℤ → Bool) → one_if (test x) ≤ count test xs)

sorted-IsAround :
    (n : ℕ) (xs : List ℤ) (r : List ℤ × ℤ × List ℤ)
    → IsSorted xs
    → split_at n xs ≡ some r
    → IsAround xs r
unfolding split_at count
sorted-IsAround n [] r s e = absurd (cc e)
sorted-IsAround zero (x ∷ xs) r s e =
    let same : (([], x, xs) ≡ r) = cc e in
    subst (IsAround (x ∷ xs)) same (refl, s.0, λ test. omega arith)
sorted-IsAround (suc n) (x ∷ xs) r (least, s) e =
    let (t, f, same) = split_inverse (split_at n xs) x r e in
    let (low, high, there) = sorted-IsAround n xs t s f in
    let first : (one_if (ltb_ℤ t.1 x) ≡ 0) = omega (arith, there (λ y. ltb_ℤ y x), least) in
    subst (IsAround (x ∷ xs)) same
      (omega (arith, low, first), high, λ test. omega (arith, there test))

pub sort-IsNthElement : IsNthElement (λ n xs. sort xs)
sort-IsNthElement = record {
  same_values = λ n xs test. count-sort test xs;
  before_most = λ n xs before x after e.
      (sorted-IsAround n (sort xs) (before, x, after) (sort-IsSorted xs) e).0;
  after_least = λ n xs before x after e.
      (sorted-IsAround n (sort xs) (before, x, after) (sort-IsSorted xs) e).1;
}
