-- ===== src/Timers/Scheduler/Waiting.antt =====
-- What a thread that stops a timer can rely on.
use time_shield_cpp.Base.{
  ℕ, ◌<◌, ◌≡◌, Bool, false, List, [], ◌∷◌, ◌==◌, arith, Bool-cases, inl, inr,
}
use time_shield_cpp.Base.Int.{ℤ, ltb_ℤ}
use time_shield_cpp.Timers.Chrono.{Chrono}
use time_shield_cpp.Timers.Scheduler.{
  ScheduledTimer, TimerScheduler, create_timer_state, destroy_timer_state, start_timer, stop_timer,
  collect_item, collect_loop, collect_due_timers_locked, finalize_timer, set_interval,
  set_single_shot, set_owner, stop_scheduler, deactivate_orphan,
}
use time_shield_cpp.Timers.Scheduler.Reach.{
  Step, creates, starts, stops, destroys, sets_interval, sets_single_shot, sets_owner, stops_all,
  deactivates, collects, finalizes,
}

-- The timer is stopped and its callback is not being executed.
pub record IsQuiet (id : ℕ) (s : TimerScheduler) : Type 0 where
  pub known : id < s.next_id
  pub inactive : (s.timers id).is_active ≡ false
  pub idle : (s.timers id).is_running ≡ false

abbrev pub is_start : {c : Chrono} {s s' : TimerScheduler} → ℕ → Step c s s' → Bool
is_start j (starts s id when h) = id == j
is_start j st = false

collect_item-IsQuiet :
    (id : ℕ) (item : ScheduledTimer) (s : TimerScheduler)
    → IsQuiet id s
    → IsQuiet id (collect_item item s)
unfolding collect_item
collect_item-IsQuiet id item s v = ground arith

collect_loop-IsQuiet :
    (id : ℕ) (now : ℤ) (q : List ScheduledTimer) (s : TimerScheduler)
    → IsQuiet id s
    → IsQuiet id (collect_loop now q s)
unfolding collect_loop
collect_loop-IsQuiet id now [] s v = record {
  known = v.known;
  inactive = v.inactive;
  idle = v.idle;
}
collect_loop-IsQuiet id now (top ∷ rest) s v = elim (Bool-cases (ltb_ℤ now top.fire_time)) [
  | inl later ↦ rw later (record { known = v.known; inactive = v.inactive; idle = v.idle })
  | inr due ↦
      rw due
        (collect_loop-IsQuiet id now rest (collect_item top s) (collect_item-IsQuiet id top s v))
]

-- A timer that is stopped and whose callback has ended stays so in every step that does not start
-- it: what stop_and_wait waits for is final.
pub Step-IsQuiet :
    {c : Chrono} {s s' : TimerScheduler} (id : ℕ) (st : Step c s s')
    → is_start id st ≡ false
    → IsQuiet id s
    → IsQuiet id s'
unfolding create_timer_state start_timer stop_timer destroy_timer_state set_interval set_single_shot
    set_owner stop_scheduler deactivate_orphan collect_due_timers_locked finalize_timer
Step-IsQuiet id (creates s) e v = ground arith
Step-IsQuiet id (starts s j when h) e v = ground arith
Step-IsQuiet id (stops s j) e v = ground arith
Step-IsQuiet id (destroys s j) e v = ground arith
Step-IsQuiet id (sets_interval s j i) e v = ground arith
Step-IsQuiet id (sets_single_shot s j b) e v = ground arith
Step-IsQuiet id (sets_owner s j b) e v = ground arith
Step-IsQuiet id (stops_all s) e v = ground arith
Step-IsQuiet id (deactivates s j _) e v = ground arith
Step-IsQuiet id (collects s now) e v = collect_loop-IsQuiet id now s.queue s v
Step-IsQuiet id (finalizes s before d later _) e v = ground arith
