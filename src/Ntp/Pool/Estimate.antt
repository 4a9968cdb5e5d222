-- ===== src/Ntp/Pool/Estimate.antt =====
-- The offset of a pool from its samples.
use time_shield_cpp.Base.{
  ℕ, ◌*◌, ◌/◌, ◌%◌, ◌≤◌, ◌<◌, ◌≡◌, refl, Bool, Bool-cases, true, false, List, [], ◌∷◌, ltb, ◌==◌,
  some, inl, inr, arith,
}
use time_shield_cpp.Base.Int.{ℤ, pos, ◌≤ℤ◌, ◌==ℤ◌}
use time_shield_cpp.Ntp.Samples.{
  NtpSample, size, middle_of_two, median, after_median, deviations, median_unless_empty, trim,
  median_mad_trim, accepted_offsets,
}
use time_shield_cpp.Ntp.Samples.Counts.{count, count-all, split_at-some, IsNthElement}
use time_shield_cpp.Ntp.Samples.Majority.{inside, median-majority}
use time_shield_cpp.Ntp.Samples.Trim.{size-deviations}
use time_shield_cpp.Ntp.Servers.{
  Aggregation, by_median, by_best_delay, by_median_mad_trim, Smoothing, take_new, NtpPoolConfig,
  NtpClientPool,
}
use time_shield_cpp.Ntp.Pool.{estimate_of, store, update_from_samples, apply_samples}

-- Where the pool takes the median without smoothing, enough samples are accepted, and the offsets
-- of more than half of the accepted samples are in an interval, apply_samples updates the pool to
-- an offset in that interval, whatever the others say, remembers the samples and leaves the
-- servers as they are. std::nth_element keeps the values and puts one at its place in the order.
pub apply_samples-majority :
    (nth_element : ℕ → List ℤ → List ℤ) (samples : List NtpSample) (pool : NtpClientPool)
    (lo hi : ℤ)
    → IsNthElement nth_element
    → pool.cfg.aggregation ≡ by_median
    → pool.cfg.smoothing ≡ take_new
    → pool.cfg.min_valid_samples ≤ size (accepted_offsets samples)
    → size (accepted_offsets samples) < count (inside lo hi) (accepted_offsets samples) * 2
    → (next : NtpClientPool) × (apply_samples nth_element samples pool ≡ some (true, next))
      × (lo ≤ℤ next.offset_us)
      × (next.offset_us ≤ℤ hi)
      × (next.last_samples ≡ samples)
      × (next.servers ≡ pool.servers)
unfolding apply_samples update_from_samples estimate_of store
apply_samples-majority nth_element samples pool lo hi nth by new enough majority =
    let (m, e, low, high) =
      median-majority nth_element (accepted_offsets samples) lo hi nth majority in
    let valid : (ltb (size (accepted_offsets samples)) pool.cfg.min_valid_samples ≡ false) =
      ground (arith, enough) in
    (
      record pool { offset_us = m; last_samples = samples },
      rw (valid, by, new, e) refl,
      low,
      high,
      refl,
      refl,
    )

middle_of_two-some :
    (before : List ℤ) (x : ℤ) → 1 ≤ size before → (m : ℤ) × (middle_of_two before x ≡ some m)
unfolding middle_of_two size
middle_of_two-some [] x h = absurd (omega arith)
middle_of_two-some (b ∷ before) x h = (_, refl)

size-nth_element :
    (nth_element : ℕ → List ℤ → List ℤ) (n : ℕ) (xs : List ℤ)
    → IsNthElement nth_element
    → size (nth_element n xs) ≡ size xs
size-nth_element nth_element n xs nth =
    omega (arith, nth.same_values n xs (λ x. true), count-all (nth_element n xs), count-all xs)

median-some :
    (nth_element : ℕ → List ℤ → List ℤ) (values : List ℤ)
    → IsNthElement nth_element
    → 1 ≤ size values
    → (m : ℤ) × (median nth_element values ≡ some m)
unfolding median
median-some nth_element values nth h =
    let n = size values in
    let same = size-nth_element nth_element (n / 2) values nth in
    let (before, x, after, e, s) =
      split_at-some (n / 2) (nth_element (n / 2) values) (omega arith) in
    elim (Bool-cases (n % 2 == 1)) [
      | inl odd ↦ rw (e, odd) (x, refl)
      | inr even ↦
          let rest : (n % 2 ≡ 0) = ground (arith, even) in
          rw (e, even) (middle_of_two-some before x (omega (arith, s.place, rest)))
    ]

unless_empty-some :
    (nth_element : ℕ → List ℤ → List ℤ) (med : ℤ) (xs : List ℤ)
    → IsNthElement nth_element
    → (m : ℤ) × (median_unless_empty nth_element med xs ≡ some m)
unfolding median_unless_empty size
unless_empty-some nth_element med [] nth = (med, refl)
unless_empty-some nth_element med (x ∷ xs) nth = median-some nth_element (x ∷ xs) nth (omega arith)

median_mad_trim-some :
    (nth_element : ℕ → List ℤ → List ℤ) (values : List ℤ)
    → IsNthElement nth_element
    → 1 ≤ size values
    → (m : ℤ) × (median_mad_trim nth_element values ≡ some m)
unfolding median_mad_trim after_median trim
median_mad_trim-some nth_element values nth h =
    let left = nth_element (size values / 2) values in
    let same = size-nth_element nth_element (size values / 2) values nth in
    let (med, e) = median-some nth_element values nth h in
    let (mad, f) =
      median-some nth_element (deviations med left) nth
        (omega (arith, size-deviations med left, same)) in
    elim (Bool-cases (mad ==ℤ pos 0)) [
      | inl g ↦ rw (e, f, g) (med, refl)
      | inr g ↦ rw (e, f, g) (unless_empty-some nth_element med _ nth)
    ]

estimate_of-some :
    (nth_element : ℕ → List ℤ → List ℤ) (aggregation : Aggregation) (samples : List NtpSample)
    (offsets : List ℤ)
    → IsNthElement nth_element
    → 1 ≤ size offsets
    → (m : ℤ) × (estimate_of nth_element aggregation samples offsets ≡ some m)
unfolding estimate_of
estimate_of-some nth_element by_best_delay samples offsets nth h = (_, refl)
estimate_of-some nth_element by_median_mad_trim samples offsets nth h =
    median_mad_trim-some nth_element offsets nth h
estimate_of-some nth_element by_median samples offsets nth h = median-some nth_element offsets nth h

stored :
    (smoothing : Smoothing) (m : ℤ) (pool : NtpClientPool)
    → (store smoothing m pool).servers ≡ pool.servers
unfolding store
stored Smoothing.keep_old m pool = refl
stored (Smoothing.mix f) m pool = refl
stored take_new m pool = refl

pub update_from_samples_total :
    (nth_element : ℕ → List ℤ → List ℤ) (samples : List NtpSample) (cfg : NtpPoolConfig)
    (pool : NtpClientPool)
    → IsNthElement nth_element
    → 1 ≤ cfg.min_valid_samples
    → (updated : Bool) × (next : NtpClientPool) × (update_from_samples nth_element samples cfg pool
        ≡ some (updated, next))
      × (next.servers ≡ pool.servers)
unfolding update_from_samples
update_from_samples_total nth_element samples cfg pool nth h =
    let offsets = accepted_offsets samples in
    elim (Bool-cases (ltb (size offsets) cfg.min_valid_samples)) [
      | inl few ↦ rw few (false, pool, refl, refl)
      | inr enough ↦
          let (m, e) =
            estimate_of-some nth_element cfg.aggregation samples offsets nth
              (ground (arith, enough)) in
          rw (enough, e) (true, store cfg.smoothing m pool, refl, stored cfg.smoothing m pool)
    ]
