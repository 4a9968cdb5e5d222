-- ===== src/Ntp/Servers.antt =====
-- include/time_shield/ntp_client_pool.hpp: the configuration and the state of the pool, its list of
-- servers, and the times by its offset.
use time_shield_cpp.Base.{ℕ, zero, suc, Bool, false, List, [], ◌∷◌, Option, some, none}
use time_shield_cpp.Base.Int.{ℤ, pos, ◌+ℤ◌, ◌/ℤ◌}
use time_shield_cpp.Ntp.Samples.{NtpSample}

-- Intervals are in milliseconds.
pub record NtpServerConfig : Type 0 where
  pub host : List ℕ
  pub port : ℤ
  pub min_interval : ℤ
  pub max_delay : ℤ
  pub backoff_initial : ℤ
  pub backoff_max : ℤ

-- Median, BestDelay and MedianMadTrim.
pub data Aggregation : Type 0 where
  by_median : Aggregation
  by_best_delay : Aggregation
  by_median_mad_trim : Aggregation

-- What a smoothing_alpha of at most 0, between 0 and 1, and of at least 1 does; between them the old
-- and the new offset are mixed in floating point, whose result is given.
pub data Smoothing : Type 0 where
  keep_old : Smoothing
  mix : (ℤ → ℤ → ℤ) → Smoothing
  take_new : Smoothing

pub record NtpPoolConfig : Type 0 where
  pub sample_servers : ℕ
  pub min_valid_samples : ℕ
  pub aggregation : Aggregation
  pub smoothing : Smoothing

-- next_allowed is a time point of the steady clock, in its ticks.
pub record ServerState : Type 0 where
  pub cfg : NtpServerConfig
  pub next_allowed : ℤ
  pub backoff : ℤ
  pub fail_count : ℤ
  pub last_offset_us : ℤ
  pub last_delay_us : ℤ
  pub last_error : ℤ
  pub is_last_ok : Bool

pub record NtpClientPool : Type 0 where
  pub cfg : NtpPoolConfig
  pub servers : List ServerState
  pub last_samples : List NtpSample
  pub offset_us : ℤ

unfoldable pub new_server : NtpServerConfig → ServerState
new_server server_cfg = record {
  cfg = server_cfg;
  next_allowed = pos 0;
  backoff = pos 0;
  fail_count = pos 0;
  last_offset_us = pos 0;
  last_delay_us = pos 0;
  last_error = pos 0;
  is_last_ok = false;
}

unfoldable pub new_pool : NtpPoolConfig → NtpClientPool
new_pool cfg = record { cfg = cfg; servers = []; last_samples = []; offset_us = pos 0 }

-- The loop of set_servers.
unfoldable pub new_servers : List NtpServerConfig → List ServerState
unfolding new_server
new_servers [] = []
new_servers (server_cfg ∷ rest) = new_server server_cfg ∷ new_servers rest

unfoldable pub set_servers : List NtpServerConfig → NtpClientPool → NtpClientPool
unfolding new_servers
set_servers servers pool = record pool { servers = new_servers servers }

-- A server at the end of the list.
unfoldable pub push_back : ServerState → List ServerState → List ServerState
push_back state [] = state ∷ []
push_back state (s ∷ servers) = s ∷ push_back state servers

unfoldable pub add_server : NtpServerConfig → NtpClientPool → NtpClientPool
unfolding push_back new_server
add_server server_cfg pool = record pool {
  servers = push_back (new_server server_cfg) pool.servers;
}

unfoldable pub clear_servers : NtpClientPool → NtpClientPool
clear_servers pool = record pool { servers = [] }

unfoldable pub set_config : NtpPoolConfig → NtpClientPool → NtpClientPool
set_config cfg pool = record pool { cfg = cfg }

-- The times by the pool's offset, where the clock shows `now_us`.
unfoldable pub utc_time_us : ℤ → NtpClientPool → ℤ
utc_time_us now_us pool = now_us +ℤ pool.offset_us

unfoldable pub utc_time_ms : ℤ → NtpClientPool → ℤ
unfolding utc_time_us
utc_time_ms now_us pool = utc_time_us now_us pool /ℤ pos 1_000

unfoldable pub utc_time_sec : ℤ → NtpClientPool → ℤ
unfolding utc_time_us
utc_time_sec now_us pool = utc_time_us now_us pool /ℤ pos 1_000_000

unfoldable pub server_at : ℕ → List ServerState → Option ServerState
server_at index [] = none
server_at zero (s ∷ servers) = some s
server_at (suc index) (s ∷ servers) = server_at index servers

unfoldable pub set_server : ℕ → ServerState → List ServerState → List ServerState
set_server index state [] = []
set_server zero state (s ∷ servers) = state ∷ servers
set_server (suc index) state (s ∷ servers) = s ∷ set_server index state servers
