-- ===== src/Timers/Scheduler/Reach.antt =====
-- The steps that threads and callbacks take, each under the mutex of the scheduler, in any order.
use time_shield_cpp.Base.{ℕ, suc, ◌+◌, ◌<◌, ◌≡◌, refl, ap, ◌∙◌, Bool, List, ◌∷◌, ◌++◌, false, arith}
use time_shield_cpp.Base.Int.{ℤ, ◌+ℤ◌}
use time_shield_cpp.Base.Word.{u64_mod}
use time_shield_cpp.Timers.Chrono.{Chrono}
use time_shield_cpp.Timers.Scheduler.{
  ScheduledTimer, DueTimer, TimerScheduler, next_generation, new_scheduler, create_timer_state,
  destroy_timer_state, start_timer, stop_timer, collect_due_timers_locked, finalize_timer,
  set_interval, set_single_shot, set_owner, stop_scheduler, deactivate_orphan,
}
use time_shield_cpp.Timers.Scheduler.Entries.{is_entry, queued, flying, queued-push, flying-middle}
use time_shield_cpp.Timers.Scheduler.Steps.{
  Inv, create-Entries, start-Entries, stop-Entries, destroy-Entries, set_interval-Entries,
  set_single_shot-Entries, set_owner-Entries, stop_scheduler-Entries, deactivate_orphan-Entries,
  collect-Entries, Entries-suc,
}

-- `due` has what is collected and not finalized yet of all batches: several threads may be in
-- process(), and a callback may call it. So any element of it may be finalized next. An orphan is
-- deactivated outside of the mutex, with the effect of a step before or after a section under it.
pub data Step (c : Chrono) : TimerScheduler → TimerScheduler → Type 0 where
  creates : (s : TimerScheduler) → Step c s (create_timer_state s).0
  starts :
      (s : TimerScheduler) (id : ℕ) (when : ℤ) → id < s.next_id → Step c s (start_timer id when s)
  stops : (s : TimerScheduler) (id : ℕ) → Step c s (stop_timer id s)
  destroys : (s : TimerScheduler) (id : ℕ) → Step c s (destroy_timer_state id s)
  sets_interval :
      (s : TimerScheduler) (id : ℕ) (interval : ℤ) → Step c s (set_interval id interval s)
  sets_single_shot : (s : TimerScheduler) (id : ℕ) (b : Bool) → Step c s (set_single_shot id b s)
  sets_owner : (s : TimerScheduler) (id : ℕ) (b : Bool) → Step c s (set_owner id b s)
  stops_all : (s : TimerScheduler) → Step c s (stop_scheduler s)
  deactivates :
      (s : TimerScheduler) (id : ℕ) → s.is_registered id ≡ false → Step c s (deactivate_orphan id s)
  collects : (s : TimerScheduler) (now : ℤ) → Step c s (collect_due_timers_locked now s)
  finalizes :
      (s : TimerScheduler) (before : List DueTimer) (d : DueTimer) (later : List DueTimer)
      → s.due ≡ before ++ d ∷ later
      → Step c s (finalize_timer c d (record s { due = before ++ later }))

pub data Reach (c : Chrono) : ℕ → TimerScheduler → Type 0 where
  initially : Reach c 0 new_scheduler
  next : {n : ℕ} {s s' : TimerScheduler} → Reach c n s → Step c s s' → Reach c (suc n) s'

-- `rest` is the batches without `d`.
finalize-Entries :
    (c : Chrono) (n : ℕ) (s : TimerScheduler) (d : DueTimer) (rest : List DueTimer)
    → Inv n s
    → suc n < u64_mod
    → ((j g : ℕ) → flying j g s.due ≡ is_entry j g d.state d.generation + flying j g rest)
    → Inv (suc n) (finalize_timer c d (record s { due = rest }))
unfolding finalize_timer flying
finalize-Entries c n s d rest v few fly =
    let id = d.state in
    let t = s.timers id in
    let g' = next_generation t in
    let item : ScheduledTimer = record {
      fire_time = d.fire_time +ℤ c.of_ms t.interval_ms;
      timer_id = id;
      generation = g';
    } in
    let bump : (g' ≡ t.generation + 1) = omega (arith, v.small id) in
    record {
      small = λ j. ground (arith, v.small j, v.small id, bump);
      once = λ j. ground (
        arith,
        v.once j,
        v.above id g',
        bump,
        fly j (s.timers j).generation,
        fly j g',
        queued-push j g' item s.queue,
        queued-push j (s.timers j).generation item s.queue,
      );
      live = λ j. ground (
        arith,
        v.live j,
        v.above id g',
        bump,
        fly j (s.timers j).generation,
        fly j g',
        queued-push j g' item s.queue,
        queued-push j (s.timers j).generation item s.queue,
      );
      above = λ j g. ground (arith, v.above j g, bump, fly j g, queued-push j g item s.queue);
      fresh = λ j g. ground (
        arith,
        v.fresh j g,
        fly j g,
        v.fresh d.state d.generation,
        fly d.state d.generation,
        queued-push j g item s.queue,
      );
    }

pub Step-Inv :
    {c : Chrono} {n : ℕ} {s s' : TimerScheduler}
    → suc n < u64_mod
    → Step c s s'
    → Inv n s
    → Inv (suc n) s'
Step-Inv {n} few (creates s) v = unfold create_timer_state in create-Entries n s v few
Step-Inv {n} few (starts s id when h) v = start-Entries n s v few id when h
Step-Inv {n} few (stops s id) v = stop-Entries n s v few id
Step-Inv {n} few (destroys s id) v = destroy-Entries n s v few id
Step-Inv {n} few (sets_interval s id i) v = set_interval-Entries n s v few id i
Step-Inv {n} few (sets_single_shot s id b) v = set_single_shot-Entries n s v few id b
Step-Inv {n} few (sets_owner s id b) v = set_owner-Entries n s v few id b
Step-Inv {n} few (stops_all s) v = stop_scheduler-Entries n s v few
Step-Inv {n} few (deactivates s id _) v = deactivate_orphan-Entries n s v few id
Step-Inv {n} few (collects s now) v = Entries-suc (collect-Entries n now s v)
Step-Inv {c} {n} few (finalizes s before d later e) v =
    finalize-Entries c n s d (before ++ later) v few
      (λ j g. ap (flying j g) e ∙ flying-middle j g before d later)

new_scheduler-Inv : Inv 0 new_scheduler
unfolding new_scheduler queued flying
new_scheduler-Inv = record {
  small = λ id. omega arith;
  once = λ id. omega arith;
  live = λ id h k. ground arith;
  above = λ id g h. refl;
  fresh = λ id g h. refl;
}

-- After fewer than 2^64 steps of threads and callbacks in any order, each timer that is active
-- and registered has one entry of its generation in the queue or the batches, no timer has two,
-- and no entry is of a later generation or of an id that is not given yet.
pub Reach-Inv : {c : Chrono} {n : ℕ} {s : TimerScheduler} → n < u64_mod → Reach c n s → Inv n s
Reach-Inv few initially = new_scheduler-Inv
Reach-Inv few (next r st) = Step-Inv few st (Reach-Inv (omega arith) r)
