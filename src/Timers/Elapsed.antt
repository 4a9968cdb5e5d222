-- ===== src/Timers/Elapsed.antt =====
-- include/time_shield/ElapsedTimer.hpp. Each method that changes the timer returns the new one.
pub mod Laps
use time_shield_cpp.Base.{Bool, true, false, not, if◌then◌else◌}
use time_shield_cpp.Base.Int.{ℤ, pos, ◌-ℤ◌, leb_ℤ}
use time_shield_cpp.Timers.Chrono.{Chrono}

pub record ElapsedTimer : Type 0 where
  pub start_time : ℤ
  pub is_running : Bool

-- The default constructor.
unfoldable pub new_timer : ElapsedTimer
new_timer = record { start_time = pos 0; is_running = false }

unfoldable pub start : ℤ → ElapsedTimer → ElapsedTimer
start now t = record { start_time = now; is_running = true }

-- The constructor from a flag.
unfoldable pub new_started : Bool → ℤ → ElapsedTimer
new_started start_immediately now = if start_immediately then start now new_timer else new_timer

unfoldable pub restart : ℤ → ElapsedTimer → ElapsedTimer × ℤ
restart now t =
    let delta = if t.is_running then now -ℤ t.start_time else pos 0 in
    (record { start_time = now; is_running = true }, delta)

unfoldable pub invalidate : ElapsedTimer → ElapsedTimer
invalidate t = record t { is_running = false }

-- elapsed(time_point)
unfoldable pub elapsed : ElapsedTimer → ℤ → ℤ
elapsed t now = if not t.is_running then pos 0 else now -ℤ t.start_time

module _ (c : Chrono) where
  open c use {of_sec, of_ms, to_sec, to_ms}

  unfoldable pub restart_ms : ℤ → ElapsedTimer → ElapsedTimer × ℤ
  restart_ms now_ms t =
      let now = of_ms now_ms in
      let delta = if t.is_running then now -ℤ t.start_time else pos 0 in
      (record { start_time = now; is_running = true }, to_ms delta)

  unfoldable pub restart_sec : ℤ → ElapsedTimer → ElapsedTimer × ℤ
  restart_sec now_sec t =
      let now = of_sec now_sec in
      let delta = if t.is_running then now -ℤ t.start_time else pos 0 in
      (record { start_time = now; is_running = true }, to_sec delta)

  unfoldable pub elapsed_ms : ElapsedTimer → ℤ → ℤ
  elapsed_ms t now = to_ms (elapsed t now)

  unfoldable pub elapsed_sec : ElapsedTimer → ℤ → ℤ
  elapsed_sec t now = to_sec (elapsed t now)

  -- elapsed_ms(ts_ms_t) and elapsed_sec(ts_t)
  unfoldable pub elapsed_ms_at : ElapsedTimer → ℤ → ℤ
  elapsed_ms_at t now_ms = to_ms (elapsed t (of_ms now_ms))

  unfoldable pub elapsed_sec_at : ElapsedTimer → ℤ → ℤ
  elapsed_sec_at t now_sec = to_sec (elapsed t (of_sec now_sec))

  unfoldable pub has_expired : ElapsedTimer → ℤ → ℤ → Bool
  has_expired t timeout_ms now =
      if not t.is_running
      then false
      else if leb_ℤ timeout_ms (pos 0)
      then true
      else leb_ℤ timeout_ms (elapsed_ms t now)

  unfoldable pub has_expired_sec : ElapsedTimer → ℤ → ℤ → Bool
  has_expired_sec t timeout_sec now =
      if not t.is_running
      then false
      else if leb_ℤ timeout_sec (pos 0)
      then true
      else leb_ℤ (of_sec timeout_sec) (elapsed t now)

  unfoldable pub ms_since_reference : ElapsedTimer → ℤ
  ms_since_reference t = if not t.is_running then pos 0 else to_ms t.start_time
