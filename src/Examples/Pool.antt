-- ===== src/Examples/Pool.antt =====
-- The theorems on the pool of NTP servers, with a sort for std::nth_element and the order kept for
-- std::shuffle.
use time_shield_cpp.Base.{
  ℕ, ◌*◌, ◌^◌, ◌≡◌, refl, inl, true, false, Bool, List, [], ◌∷◌, some, arith,
}
use time_shield_cpp.Base.Int.{ℤ, pos, negsuc, ◌+ℤ◌, ◌-ℤ◌, ◌*ℤ◌, ◌≤ℤ◌, min_ℤ, int_laws}
use time_shield_cpp.Ntp.Samples.{
  NtpSample, size, is_accepted, accepted_offsets, best_delay_offset, median_mad_trim,
}
use time_shield_cpp.Ntp.Samples.Counts.{count}
use time_shield_cpp.Ntp.Samples.Trim.{median_mad_trim-majority}
use time_shield_cpp.Ntp.Samples.Best.{IsOneOf, IsLeast, best_delay_offset-IsLeast}
use time_shield_cpp.Ntp.Samples.Sorted.{sort, sort-IsNthElement}
use time_shield_cpp.Ntp.Servers.{
  NtpServerConfig, by_median, take_new, NtpClientPool, new_server, server_at,
}
use time_shield_cpp.Ntp.Pool.{Query, apply_samples, measure_n}
use time_shield_cpp.Ntp.Pool.Estimate.{apply_samples-majority}
use time_shield_cpp.Ntp.Pool.Backoff.{queried_all, backoff-failures}
use time_shield_cpp.Ntp.Pool.Measure.{IsKept, measure_n-IsKept}

abbrev nth : ℕ → List ℤ → List ℤ
nth n xs = sort xs

abbrev ticks : ℤ → ℤ
ticks ms = ms *ℤ pos 1_000_000

abbrev sample : ℤ → ℤ → NtpSample
sample offset delay = record {
  host = [];
  port = pos 123;
  is_ok = true;
  error_code = pos 0;
  stratum = pos 2;
  offset_us = offset;
  delay_us = delay;
  max_delay_us = pos 250_000;
}

-- Two samples that agree, and one that is far off.
abbrev three_samples : List NtpSample
three_samples =
    sample (pos 20) (pos 9_000)
    ∷ sample (pos 900_000) (pos 7_000)
    ∷ sample (pos 10) (pos 8_000)
    ∷ []

abbrev server : NtpServerConfig
server = record {
  host = [];
  port = pos 123;
  min_interval = pos 15_000;
  max_delay = pos 250;
  backoff_initial = pos 15_000;
  backoff_max = pos 600_000;
}

abbrev one_server : NtpClientPool
one_server = record {
  cfg = record {
    sample_servers = 5;
    min_valid_samples = 3;
    aggregation = by_median;
    smoothing = take_new;
  };
  servers = new_server server ∷ [];
  last_samples = [];
  offset_us = pos 0;
}

-- A query from tick 5 to tick 9, whose client throws.
abbrev failing : Query
failing = record {
  started = pos 5;
  finished = pos 9;
  client = record {
    is_thrown = true;
    is_ok = false;
    last_error_code = pos 0;
    offset_us = pos 0;
    delay_us = pos 0;
    stratum = negsuc 0;
  };
}

apply_samples-majority_example :
    (next : NtpClientPool) × (apply_samples nth three_samples one_server ≡ some (true, next))
    × (pos 10 ≤ℤ next.offset_us)
    × (next.offset_us ≤ℤ pos 20)
    × (next.last_samples ≡ three_samples)
    × (next.servers ≡ new_server server ∷ [])
unfolding accepted_offsets is_accepted size count
apply_samples-majority_example =
    apply_samples-majority nth three_samples one_server (pos 10) (pos 20) sort-IsNthElement refl
      refl (omega arith) (omega arith)

median_mad_trim-majority_example :
    (r : ℤ) × (median_mad_trim nth (pos 10 ∷ pos 30 ∷ pos 9_000 ∷ pos 20 ∷ []) ≡ some r)
    × (pos 10 -ℤ (pos 30 -ℤ pos 10) *ℤ pos 3 ≤ℤ r)
    × (r ≤ℤ pos 30 +ℤ (pos 30 -ℤ pos 10) *ℤ pos 3)
unfolding size count
median_mad_trim-majority_example =
    median_mad_trim-majority nth (pos 10 ∷ pos 30 ∷ pos 9_000 ∷ pos 20 ∷ []) (pos 10) (pos 30)
      sort-IsNthElement (omega arith)

best_delay_offset-IsLeast_example :
    (best : NtpSample) × (best_delay_offset three_samples ≡ best.offset_us)
    × (is_accepted best ≡ true)
    × IsOneOf best three_samples
    × IsLeast best.delay_us three_samples
unfolding accepted_offsets is_accepted size
best_delay_offset-IsLeast_example =
    best_delay_offset-IsLeast three_samples
      ((λ e. omega arith), ((λ e. omega arith), ((λ e. omega arith), tt))) (omega arith)

backoff-failures_example :
    (queried_all ticks (failing ∷ failing ∷ failing ∷ []) (new_server server)).backoff
    ≡ min_ℤ (pos 600_000) (pos (15_000 * 2 ^ 2))
unfolding new_server
backoff-failures_example =
    backoff-failures ticks failing (failing ∷ failing ∷ []) (new_server server) 15_000 600_000
      (refl, (refl, (refl, tt))) refl refl refl (omega arith, omega arith)

measure_n-IsKept_example :
    (updated : Bool) × (next : NtpClientPool) × (measure_n ticks nth
        (λ is. is)
        5
        (pos 3)
        (λ i. failing)
        one_server
      ≡ some (updated, next))
    × IsKept ticks (pos 3) (pos 5) (new_server server) (server_at 0 next.servers)
unfolding new_server server_at
measure_n-IsKept_example =
    measure_n-IsKept ticks nth (λ is. is) 5 (pos 3) (λ i. failing) one_server 0 (new_server server)
      (λ a b h. omega (int_laws, h)) sort-IsNthElement (λ P is h. h) (λ k. omega arith)
      (omega arith) refl
      (record {
        initial = omega arith;
        greatest = omega arith;
        running = inl refl;
        nonneg = (omega arith, omega arith);
      })
