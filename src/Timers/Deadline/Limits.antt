-- ===== src/Timers/Deadline/Limits.antt =====
-- Deadlines stay within the clock's range, and a timer expires neither early nor late.
use time_shield_cpp.Base.{◌≡◌, true, false, ◌↔◌, arith, ◌⊎◌, List, [], ◌∷◌}
use time_shield_cpp.Base.Int.{ℤ, pos, ◌+ℤ◌, ◌-ℤ◌, ◌≤ℤ◌, ◌<ℤ◌, min_ℤ}
use time_shield_cpp.Timers.Chrono.{Chrono}
use time_shield_cpp.Timers.Deadline.{
  DeadlineTimer, new_timer, start_at, stop, has_expired, remaining_time, start, set_forever, add,
}

-- What a caller may do with a timer at a time that the clock shows.
pub data Call : Type 0 where
  starts : (ℤ → ℤ) → ℤ → Call
  starts_at : ℤ → Call
  adds : ℤ → Call
  stops : Call
  forevers : Call

abbrev pub IsReading : Chrono → ℤ → Type 0
IsReading c now = (pos 0 ≤ℤ now) × (now ≤ℤ c.max_time)

-- A deadline that the caller gives is a time point.
abbrev pub IsCall : Chrono → Call → Type 0
IsCall c (starts_at deadline) = IsReading c deadline
IsCall c _ = Unit {0}

unfoldable pub after : Chrono → DeadlineTimer → ℤ × Call → DeadlineTimer
after c t (now, starts cast timeout) = start c cast timeout now t
after c t (now, starts_at deadline) = start_at deadline t
after c t (now, adds extend_by) = add c extend_by now t
after c t (now, stops) = stop t
after c t (now, forevers) = set_forever c t

-- The deadline is a time point that is not negative, and a stopped timer has none.
pub record Inv (c : Chrono) (t : DeadlineTimer) : Type 0 where
  pub range : IsReading c t.deadline
  pub stopped : t.is_running ≡ false → t.deadline ≡ pos 0

new_timer-Inv : (c : Chrono) → pos 0 ≤ℤ c.max_time → Inv c new_timer
unfolding new_timer
new_timer-Inv c h = ground arith

after-Inv :
    (c : Chrono) (t : DeadlineTimer) (now : ℤ) (call : Call)
    → IsReading c now
    → IsCall c call
    → Inv c t
    → Inv c (after c t (now, call))
unfolding after start start_at stop set_forever add ◌+ℤ◌ ◌-ℤ◌
after-Inv c t now (starts cast timeout) r k v = ground arith
after-Inv c t now (starts_at deadline) r k v = ground arith
after-Inv c t now (adds extend_by) r k v = ground arith
after-Inv c t now stops r k v = ground arith
after-Inv c t now forevers r k v = ground arith

unfoldable pub run : Chrono → DeadlineTimer → List (ℤ × Call) → DeadlineTimer
unfolding after
run c t [] = t
run c t (call ∷ calls) = run c (after c t call) calls

abbrev pub AllCalls : Chrono → List (ℤ × Call) → Type 0
AllCalls c [] = Unit {0}
AllCalls c (call ∷ calls) = IsReading c call.0 × IsCall c call.1 × AllCalls c calls

run-keeps :
    (c : Chrono) (t : DeadlineTimer) (calls : List (ℤ × Call))
    → AllCalls c calls
    → Inv c t
    → Inv c (run c t calls)
unfolding run
run-keeps c t [] h v = v
run-keeps c t ((now, call) ∷ calls) (r, k, h) v =
    run-keeps c (after c t (now, call)) calls h (after-Inv c t now call r k v)

-- After any calls of start, add, stop and set_forever on a new timer, at times from 0 to the
-- clock's last one and with deadlines in that range, the deadline is in it, and a timer that is
-- not running has the deadline 0.
pub run-Inv :
    (c : Chrono) (calls : List (ℤ × Call))
    → pos 0 ≤ℤ c.max_time
    → AllCalls c calls
    → Inv c (run c new_timer calls)
run-Inv c calls m h = run-keeps c new_timer calls h (new_timer-Inv c m)

-- A timer started with a positive timeout, of a positive number of ticks, has expired exactly
-- when that many ticks have passed or the clock is at its last time, so that a deadline beyond
-- that time does not wrap.
pub has_expired-start :
    (c : Chrono) (cast : ℤ → ℤ) (timeout now later : ℤ) (t : DeadlineTimer)
    → IsReading c now
    → IsReading c later
    → pos 0 <ℤ timeout
    → pos 0 <ℤ cast timeout
    → (has_expired (start c cast timeout now t) later ≡ true)
      ↔ ((now +ℤ cast timeout ≤ℤ later) ⊎ (later ≡ c.max_time))
unfolding has_expired start start_at ◌+ℤ◌ ◌-ℤ◌
has_expired-start c cast timeout now later t r l p q = (λ h. ground arith, λ h. ground arith)

-- For a running timer whose deadline is in range, the remaining time is 0 exactly when it has
-- expired, is never negative, reaches to the deadline, and once it has passed the timer has
-- expired.
pub remaining_time-has_expired :
    (c : Chrono) (t : DeadlineTimer) (now : ℤ)
    → IsReading c now
    → Inv c t
    → t.is_running ≡ true
    → ((has_expired t now ≡ true) ↔ (remaining_time t now ≡ pos 0))
      × (pos 0 ≤ℤ remaining_time t now)
      × (t.deadline ≤ℤ now +ℤ remaining_time t now)
      × (has_expired t (now +ℤ remaining_time t now) ≡ true)
unfolding has_expired remaining_time ◌+ℤ◌ ◌-ℤ◌
remaining_time-has_expired c t now r v on =
    ((λ h. ground arith, λ h. ground arith), ground arith, ground arith, ground arith)

-- Extending a running timer by a positive duration adds it to the remaining time, up to the last
-- time of the clock.
pub remaining_time-add :
    (c : Chrono) (t : DeadlineTimer) (extend_by now : ℤ)
    → IsReading c now
    → Inv c t
    → t.is_running ≡ true
    → pos 0 <ℤ extend_by
    → remaining_time (add c extend_by now t) now
      ≡ min_ℤ (remaining_time t now +ℤ extend_by) (c.max_time -ℤ now)
unfolding add remaining_time ◌+ℤ◌ ◌-ℤ◌
remaining_time-add c t extend_by now r v on p = ground arith
