-- ===== src/Examples/Timers.antt =====
-- The theorems on the timers and their scheduler at concrete arguments.
use time_shield_cpp.Base.{◌≡◌, ◌↔◌, ◌⊎◌, refl, true, arith}
use time_shield_cpp.Base.Int.{pos, ◌+ℤ◌, ◌≤ℤ◌}
use time_shield_cpp.Timers.Chrono.{nanoseconds}
use time_shield_cpp.Timers.Deadline.{new_timer, has_expired, start}
use time_shield_cpp.Timers.Deadline.Limits.{has_expired-start}
use time_shield_cpp.Timers.Scheduler.{
  TimerScheduler, new_scheduler, create_timer_state, start_timer, stop_timer, set_single_shot,
  collect_due_timers_locked, push,
}
use time_shield_cpp.Timers.Scheduler.Entries.{flying}
use time_shield_cpp.Timers.Scheduler.Steps
use time_shield_cpp.Timers.Scheduler.Reach.{
  Reach, initially, next, creates, starts, collects, Reach-Inv,
}
use time_shield_cpp.Timers.Scheduler.Batch.{
  Running, Sequential, at_first, then_next, Sequential-Running,
}
use time_shield_cpp.Timers.Scheduler.Due.{collect-start}

has_expired-start_example :
    (has_expired (start nanoseconds (λ d. d) (pos 10) (pos 100) new_timer) (pos 110) ≡ true)
    ↔ ((pos 100 +ℤ pos 10 ≤ℤ pos 110) ⊎ (pos 110 ≡ pos 9_223_372_036_854_775_807))
has_expired-start_example =
    has_expired-start nanoseconds (λ d. d) (pos 10) (pos 100) (pos 110) new_timer
      (omega arith, omega arith) (omega arith, omega arith) (omega arith) (omega arith)

-- The definitions that the runs of the scheduler compute.
methods : Unit {0}
unfolding new_scheduler create_timer_state start_timer collect_due_timers_locked stop_timer
    set_single_shot push
methods = tt

-- Two timers, of which the first is to fire at 5 and the second at 6.
abbrev two_created : TimerScheduler
two_created = (create_timer_state (create_timer_state new_scheduler).0).0

two_created-Reach : Reach nanoseconds 2 two_created
two_created-Reach = next (next initially (creates new_scheduler)) (creates _)

abbrev one_started : TimerScheduler
one_started = start_timer 1 (pos 5) two_created

one_started-Reach : Reach nanoseconds 3 one_started
unfolding methods
one_started-Reach = next two_created-Reach (starts two_created 1 (pos 5) (omega arith))

abbrev two_started : TimerScheduler
two_started = start_timer 2 (pos 6) one_started

abbrev two_due : TimerScheduler
two_due = collect_due_timers_locked (pos 7) two_started

two_due-Reach : Reach nanoseconds 5 two_due
unfolding methods
two_due-Reach =
    next (next one_started-Reach (starts one_started 2 (pos 6) (omega arith)))
      (collects two_started (pos 7))

two_due-Sequential : Sequential nanoseconds 5 two_due
unfolding methods
two_due-Sequential =
    let created = then_next (then_next at_first (creates new_scheduler) tt) (creates _) tt in
    let first = then_next created (starts two_created 1 (pos 5) (omega arith)) tt in
    let second = then_next first (starts one_started 2 (pos 6) (omega arith)) tt in
    then_next second (collects two_started (pos 7)) refl

Reach-Inv_example : Steps.Inv 5 two_due
Reach-Inv_example = Reach-Inv (omega arith) two_due-Reach

Sequential-Running_example : Running two_due
Sequential-Running_example = Sequential-Running (omega arith) two_due-Sequential

collect-start_example :
    flying 1 1 (collect_due_timers_locked (pos 7) (start_timer 1 (pos 5) two_created)).due ≡ 1
unfolding methods
collect-start_example =
    collect-start 1 (pos 5) (pos 7) (omega arith) two_created-Reach (omega arith) refl (omega arith)
