-- ===== src/Ntp/Samples.antt =====
-- include/time_shield/ntp_client_pool.hpp: the estimates of the offset from a list of samples. The
-- call of std::nth_element is a function of the position and the values, which gives the values in
-- the order that the call leaves.
pub mod Counts
pub mod Majority
pub mod Trim
pub mod Best
pub mod Sorted
use time_shield_cpp.Base.{
  ℕ, zero, suc, ◌/◌, ◌%◌, Bool, true, false, not, ◌&&◌, List, [], ◌∷◌, ◌==◌, if◌then◌else◌, Option,
  some, none, ◌>>=◌,
}
use time_shield_cpp.Base.Int.{ℤ, pos, ◌+ℤ◌, ◌-ℤ◌, ◌*ℤ◌, ◌/ℤ◌, ltb_ℤ, leb_ℤ, ◌==ℤ◌}

pub record NtpSample : Type 0 where
  pub host : List ℕ
  pub port : ℤ
  pub is_ok : Bool
  pub error_code : ℤ
  pub stratum : ℤ
  pub offset_us : ℤ
  pub delay_us : ℤ
  pub max_delay_us : ℤ

unfoldable pub size : List ℤ → ℕ
size [] = 0
size (x ∷ xs) = suc (size xs)

-- The value at a position, with the values before and after it; `none` where it is out of range.
unfoldable pub split_at : ℕ → List ℤ → Option (List ℤ × ℤ × List ℤ)
split_at n [] = none
split_at zero (x ∷ xs) = some ([], x, xs)
split_at (suc n) (x ∷ xs) = split_at n xs >>= λ (before, y, after). some (x ∷ before, y, after)

-- std::max_element, from a first value on.
unfoldable pub largest : ℤ → List ℤ → ℤ
largest best [] = best
largest best (x ∷ xs) = largest (if ltb_ℤ best x then x else best) xs

-- The mean of the middle value and the greatest of those before it.
unfoldable pub middle_of_two : List ℤ → ℤ → Option ℤ
unfolding largest
middle_of_two [] mid = none
middle_of_two (x ∷ xs) mid = some ((largest x xs +ℤ mid) /ℤ pos 2)

unfoldable pub deviation : ℤ → ℤ → ℤ
deviation med value = if ltb_ℤ med value then value -ℤ med else med -ℤ value

-- The loop over the deviations.
unfoldable pub deviations : ℤ → List ℤ → List ℤ
unfolding deviation
deviations med [] = []
deviations med (value ∷ rest) = deviation med value ∷ deviations med rest

-- The loop over the values that are kept.
unfoldable pub kept : ℤ → ℤ → List ℤ → List ℤ
unfolding deviation
kept med threshold [] = []
kept med threshold (value ∷ offsets) =
    let rest = kept med threshold offsets in
    if leb_ℤ (deviation med value) threshold then value ∷ rest else rest

module _ (nth_element : ℕ → List ℤ → List ℤ) where
  -- `none` for no values, where the code reads past their end.
  unfoldable pub median : List ℤ → Option ℤ
  unfolding size split_at middle_of_two
  median values =
      let mid_index = size values / 2 in
      split_at mid_index (nth_element mid_index values) >>= λ (before, mid, after).
      if size values % 2 == 1 then some mid else middle_of_two before mid

  -- The values as a call of `median` leaves them.
  unfoldable pub after_median : List ℤ → List ℤ
  unfolding size
  after_median values = nth_element (size values / 2) values

  unfoldable pub median_unless_empty : ℤ → List ℤ → Option ℤ
  unfolding median
  median_unless_empty med [] = some med
  median_unless_empty med (value ∷ rest) = median (value ∷ rest)

  -- The end of median_mad_trim, from the median of the deviations.
  unfoldable pub trim : ℤ → ℤ → List ℤ → Option ℤ
  unfolding kept median_unless_empty
  trim med mad offsets =
      if mad ==ℤ pos 0 then some med else median_unless_empty med (kept med (mad *ℤ pos 3) offsets)

  unfoldable pub median_mad_trim : List ℤ → Option ℤ
  unfolding median after_median deviations trim
  median_mad_trim values = do
    med ← median values
    let offsets = after_median values
    let deviations_left = deviations med offsets
    mad ← median deviations_left
    trim med mad offsets

-- Whether a sample counts: the two tests at the top of the loops.
unfoldable pub is_accepted : NtpSample → Bool
is_accepted sample =
    if not sample.is_ok
    then false
    else not (ltb_ℤ (pos 0) sample.max_delay_us && ltb_ℤ sample.max_delay_us sample.delay_us)

-- The loop over the offsets.
unfoldable pub accepted_offsets : List NtpSample → List ℤ
unfolding is_accepted
accepted_offsets [] = []
accepted_offsets (sample ∷ samples) =
    let rest = accepted_offsets samples in
    if is_accepted sample then sample.offset_us ∷ rest else rest

unfoldable pub better : NtpSample → NtpSample → NtpSample
better sample best =
    if ltb_ℤ (pos 0) sample.delay_us
      && (ltb_ℤ (pos 0) best.delay_us && ltb_ℤ sample.delay_us best.delay_us)
    then sample
    else best

-- The loop of best_delay_offset, once it has a best sample.
unfoldable pub best_loop : NtpSample → List NtpSample → NtpSample
unfolding is_accepted better
best_loop best [] = best
best_loop best (sample ∷ samples) =
    best_loop (if is_accepted sample then better sample best else best) samples

unfoldable pub best_delay_offset : List NtpSample → ℤ
unfolding is_accepted best_loop
best_delay_offset [] = pos 0
best_delay_offset (sample ∷ samples) =
    let rest = best_delay_offset samples in
    let from_here = (best_loop sample samples).offset_us in
    if is_accepted sample then from_here else rest
