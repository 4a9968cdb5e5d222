-- ===== src/Timers/Deadline.antt =====
-- include/time_shield/DeadlineTimer.hpp. Each method that changes the timer returns the new one.
pub mod Limits
use time_shield_cpp.Base.{Bool, true, false, not, ◌&&◌, ◌||◌, if◌then◌else◌}
use time_shield_cpp.Base.Int.{ℤ, pos, ◌+ℤ◌, ◌-ℤ◌, ◌==ℤ◌, leb_ℤ, ltb_ℤ}
use time_shield_cpp.Timers.Chrono.{Chrono}

pub record DeadlineTimer : Type 0 where
  pub deadline : ℤ
  pub is_running : Bool

-- The default constructor.
unfoldable pub new_timer : DeadlineTimer
new_timer = record { deadline = pos 0; is_running = false }

-- start(time_point)
unfoldable pub start_at : ℤ → DeadlineTimer → DeadlineTimer
start_at deadline t = record { deadline = deadline; is_running = true }

unfoldable pub stop : DeadlineTimer → DeadlineTimer
stop t = record { deadline = pos 0; is_running = false }

-- has_expired(time_point)
unfoldable pub has_expired : DeadlineTimer → ℤ → Bool
has_expired t now = t.is_running && leb_ℤ t.deadline now

-- remaining_time(time_point)
unfoldable pub remaining_time : DeadlineTimer → ℤ → ℤ
remaining_time t now = if not t.is_running || leb_ℤ t.deadline now then pos 0 else t.deadline -ℤ now

module _ (c : Chrono) where
  open c use {max_time, of_sec, of_ms, to_sec, to_ms}

  -- start(duration), whose cast to the clock's ticks is given.
  unfoldable pub start : (ℤ → ℤ) → ℤ → ℤ → DeadlineTimer → DeadlineTimer
  unfolding start_at
  start cast timeout now t =
      if leb_ℤ timeout (pos 0)
      then start_at now t
      else let ticks = cast timeout in
        let safe_duration = if leb_ℤ ticks (pos 0) then pos 1 else ticks in
        let max_offset = max_time -ℤ now in
        if leb_ℤ max_offset safe_duration
        then start_at max_time t
        else start_at (now +ℤ safe_duration) t

  unfoldable pub start_sec : ℤ → ℤ → DeadlineTimer → DeadlineTimer
  start_sec timeout_sec now t = start of_sec timeout_sec now t

  unfoldable pub start_ms : ℤ → ℤ → DeadlineTimer → DeadlineTimer
  start_ms timeout_ms now t = start of_ms timeout_ms now t

  -- from_timeout(duration)
  unfoldable pub from_timeout : (ℤ → ℤ) → ℤ → ℤ → DeadlineTimer
  from_timeout cast timeout now = start cast timeout now new_timer

  unfoldable pub from_timeout_sec : ℤ → ℤ → DeadlineTimer
  from_timeout_sec timeout_sec now = start_sec timeout_sec now new_timer

  unfoldable pub from_timeout_ms : ℤ → ℤ → DeadlineTimer
  from_timeout_ms timeout_ms now = start_ms timeout_ms now new_timer

  unfoldable pub set_forever : DeadlineTimer → DeadlineTimer
  set_forever t = record { deadline = max_time; is_running = true }

  unfoldable pub is_forever : DeadlineTimer → Bool
  is_forever t = t.is_running && (t.deadline ==ℤ max_time)

  unfoldable pub deadline_ms : DeadlineTimer → ℤ
  deadline_ms t = to_ms t.deadline

  unfoldable pub deadline_sec : DeadlineTimer → ℤ
  deadline_sec t = to_sec t.deadline

  unfoldable pub has_expired_ms : DeadlineTimer → ℤ → Bool
  has_expired_ms t now_ms = has_expired t (of_ms now_ms)

  unfoldable pub has_expired_sec : DeadlineTimer → ℤ → Bool
  has_expired_sec t now_sec = has_expired t (of_sec now_sec)

  unfoldable pub remaining_time_ms : DeadlineTimer → ℤ → ℤ
  remaining_time_ms t now = to_ms (remaining_time t now)

  unfoldable pub remaining_time_sec : DeadlineTimer → ℤ → ℤ
  remaining_time_sec t now = to_sec (remaining_time t now)

  unfoldable pub add : ℤ → ℤ → DeadlineTimer → DeadlineTimer
  add extend_by now t =
      if not t.is_running || leb_ℤ extend_by (pos 0)
      then t
      else let base = if ltb_ℤ now t.deadline then t.deadline else now in
        let max_offset = max_time -ℤ base in
        let safe_offset = if ltb_ℤ extend_by max_offset then extend_by else max_offset in
        record t { deadline = base +ℤ safe_offset }

  unfoldable pub add_sec : ℤ → ℤ → DeadlineTimer → DeadlineTimer
  add_sec extend_by_sec now t =
      if leb_ℤ extend_by_sec (pos 0) then t else add (of_sec extend_by_sec) now t

  unfoldable pub add_ms : ℤ → ℤ → DeadlineTimer → DeadlineTimer
  add_ms extend_by_ms now t =
      if leb_ℤ extend_by_ms (pos 0) then t else add (of_ms extend_by_ms) now t
