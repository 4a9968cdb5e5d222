-- ===== src/Ntp/Pool.antt =====
-- include/time_shield/ntp_client_pool.hpp: the class NtpClientPoolT. Its methods are run one after
-- the other. What they take from outside is an argument: the readings of the steady clock, the
-- answers of the clients, the shuffle by the random generator, and the casts of std::chrono.
pub mod Estimate
pub mod Backoff
pub mod Pace
pub mod Pick
pub mod Measure
use time_shield_cpp.Base.{
  ℕ, zero, suc, ◌+◌, Bool, true, false, not, ◌&&◌, List, [], ◌∷◌, ltb, if◌then◌else◌, Option, some,
  none, ◌>>=◌,
}
use time_shield_cpp.Base.Int.{ℤ, pos, negsuc, ◌+ℤ◌, ◌*ℤ◌, ◌/ℤ◌, leb_ℤ, ltb_ℤ, ◌==ℤ◌, min_ℤ}
use time_shield_cpp.Text.{length, take}
use time_shield_cpp.Ntp.Samples.{
  NtpSample, size, median, median_mad_trim, accepted_offsets, best_delay_offset,
}
use time_shield_cpp.Ntp.Servers.{
  NtpServerConfig, Aggregation, by_median, by_best_delay, by_median_mad_trim, Smoothing, keep_old,
  mix, take_new, NtpPoolConfig, ServerState, NtpClientPool, server_at, set_server,
}

-- The loop over the servers, from one index on.
unfoldable pub eligible_from : ℤ → ℕ → List ServerState → List ℕ
eligible_from now_point i [] = []
eligible_from now_point i (s ∷ servers) =
    let rest = eligible_from now_point (suc i) servers in
    if leb_ℤ s.next_allowed now_point then i ∷ rest else rest

unfoldable pub pick_servers_locked : (List ℕ → List ℕ) → ℤ → ℕ → NtpClientPool → List ℕ
unfolding eligible_from length take
pick_servers_locked shuffle now_point servers_to_sample pool =
    elim (eligible_from now_point 0 pool.servers) [
      | [] ↦ []
      | i ∷ rest ↦
          let eligible = shuffle (i ∷ rest) in
          if ltb servers_to_sample (length eligible)
          then take servers_to_sample eligible
          else eligible
    ]

-- What a client gives after its query, which throws or returns whether it is successful.
pub record ClientAnswer : Type 0 where
  pub is_thrown : Bool
  pub is_ok : Bool
  pub last_error_code : ℤ
  pub offset_us : ℤ
  pub delay_us : ℤ
  pub stratum : ℤ

unfoldable pub sample_of : NtpServerConfig → ClientAnswer → NtpSample
sample_of cfg client =
    let is_ok = not client.is_thrown && client.is_ok in
    record {
      host = cfg.host;
      port = cfg.port;
      is_ok = is_ok;
      error_code =
          if client.last_error_code ==ℤ pos 0 && not is_ok
          then negsuc 0
          else client.last_error_code;
      stratum = client.stratum;
      offset_us = client.offset_us;
      delay_us = client.delay_us;
      max_delay_us = if ltb_ℤ (pos 0) cfg.max_delay then cfg.max_delay *ℤ pos 1_000 else pos 0;
    }

-- The next backoff after a failure.
unfoldable pub next_backoff : NtpServerConfig → ℤ → ℤ
next_backoff cfg backoff =
    if backoff ==ℤ pos 0 then cfg.backoff_initial else min_ℤ cfg.backoff_max (backoff *ℤ pos 2)

-- A query's readings of the steady clock, at its start and its end, and the client's answer.
pub record Query : Type 0 where
  pub started : ℤ
  pub finished : ℤ
  pub client : ClientAnswer

module _ (of_ms : ℤ → ℤ) where
  -- The first section of query_one.
  unfoldable pub reserve : ℤ → ServerState → ServerState
  reserve now state = record state { next_allowed = now +ℤ of_ms state.cfg.min_interval }

  unfoldable pub update_server_state_after_query : NtpSample → ℤ → ServerState → ServerState
  unfolding next_backoff
  update_server_state_after_query sample now state =
      let seen = record state {
        is_last_ok = sample.is_ok;
        last_error = sample.error_code;
        last_offset_us = sample.offset_us;
        last_delay_us = sample.delay_us;
      } in
      if sample.is_ok
      then record seen { fail_count = pos 0; backoff = pos 0 }
      else let backoff = next_backoff state.cfg state.backoff in
        record seen {
          fail_count = state.fail_count +ℤ pos 1;
          backoff = backoff;
          next_allowed = now +ℤ of_ms backoff;
        }

  unfoldable pub queried : Query → ServerState → ServerState
  unfolding reserve update_server_state_after_query sample_of
  queried query state =
      update_server_state_after_query (sample_of state.cfg query.client) query.finished
        (reserve query.started state)

  -- `none` where the index is out of range.
  unfoldable pub query_one : ℕ → Query → NtpClientPool → Option (NtpSample × NtpClientPool)
  unfolding queried sample_of server_at set_server
  query_one index query pool = server_at index pool.servers >>= λ state. some (
    sample_of state.cfg query.client,
    record pool { servers = set_server index (queried query state) pool.servers },
  )

  -- The loop over the picked servers.
  unfoldable pub query_all :
      List ℕ → (ℕ → Query) → NtpClientPool → Option (List NtpSample × NtpClientPool)
  unfolding query_one
  query_all [] queries pool = some ([], pool)
  query_all (index ∷ picked) queries pool = do
    (sample, next) ← query_one index (queries index) pool
    (samples, last) ← query_all picked queries next
    some (sample ∷ samples, last)

-- The clamp of smoothing_alpha and what follows it.
unfoldable pub store : Smoothing → ℤ → NtpClientPool → NtpClientPool
store take_new estimate pool = record pool { offset_us = estimate }
store (mix rounded) estimate pool = record pool { offset_us = rounded pool.offset_us estimate }
store keep_old estimate pool = pool

module _ (nth_element : ℕ → List ℤ → List ℤ) where
  -- The switch of update_from_samples.
  unfoldable pub estimate_of : Aggregation → List NtpSample → List ℤ → Option ℤ
  unfolding best_delay_offset median_mad_trim median
  estimate_of by_best_delay samples offsets = some (best_delay_offset samples)
  estimate_of by_median_mad_trim samples offsets = median_mad_trim nth_element offsets
  estimate_of by_median samples offsets = median nth_element offsets

  -- `none` where the code reads past the end of no offsets.
  unfoldable pub update_from_samples :
      List NtpSample → NtpPoolConfig → NtpClientPool → Option (Bool × NtpClientPool)
  unfolding accepted_offsets size estimate_of store
  update_from_samples samples cfg pool =
      let offsets = accepted_offsets samples in
      if ltb (size offsets) cfg.min_valid_samples
      then some (false, pool)
      else (estimate_of cfg.aggregation samples offsets >>= λ estimate.
          some (true, store cfg.smoothing estimate pool))

  unfoldable pub apply_samples : List NtpSample → NtpClientPool → Option (Bool × NtpClientPool)
  unfolding update_from_samples
  apply_samples samples pool = update_from_samples samples pool.cfg pool >>= λ (is_updated, next).
      some (is_updated, record next { last_samples = samples })

module _ (of_ms : ℤ → ℤ) (nth_element : ℕ → List ℤ → List ℤ) (shuffle : List ℕ → List ℕ) where
  unfoldable pub measure_n : ℕ → ℤ → (ℕ → Query) → NtpClientPool → Option (Bool × NtpClientPool)
  unfolding pick_servers_locked query_all update_from_samples
  measure_n servers_to_sample now_point queries pool = do
    let picked = pick_servers_locked shuffle now_point servers_to_sample pool
    (samples, after) ← query_all of_ms picked queries pool
    (is_updated, next) ← update_from_samples nth_element samples pool.cfg after
    some (is_updated, record next { last_samples = samples })

  unfoldable pub measure : ℤ → (ℕ → Query) → NtpClientPool → Option (Bool × NtpClientPool)
  unfolding measure_n
  measure now_point queries pool = measure_n pool.cfg.sample_servers now_point queries pool
