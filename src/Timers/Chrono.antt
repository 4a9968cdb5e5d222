-- ===== src/Timers/Chrono.antt =====
-- std::chrono as the timers use it: time points and durations of the steady clock are counts of its
-- ticks, and the casts between units are given.
use time_shield_cpp.Base.Int.{ℤ, pos, ◌*ℤ◌, ◌/ℤ◌}

-- time_point::max(), and duration_cast from and to seconds and milliseconds.
pub record Chrono : Type 0 where
  pub max_time : ℤ
  pub of_sec : ℤ → ℤ
  pub of_ms : ℤ → ℤ
  pub to_sec : ℤ → ℤ
  pub to_ms : ℤ → ℤ

-- A clock of nanoseconds.
abbrev pub nanoseconds : Chrono
nanoseconds = record {
  max_time = pos 9_223_372_036_854_775_807;
  of_sec = λ s. s *ℤ pos 1_000_000_000;
  of_ms = λ s. s *ℤ pos 1_000_000;
  to_sec = λ n. n /ℤ pos 1_000_000_000;
  to_ms = λ n. n /ℤ pos 1_000_000;
}
