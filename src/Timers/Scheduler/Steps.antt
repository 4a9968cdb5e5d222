-- ===== src/Timers/Scheduler/Steps.antt =====
-- An active timer stands in the queue or in the batch once, with its own generation, whatever the
-- threads do to the scheduler between two sections under its mutex.
use time_shield_cpp.Base.{
  ℕ, suc, ◌+◌, ◌≤◌, ◌<◌, ◌≡◌, refl, Bool, true, List, [], ◌∷◌, arith, Bool-cases, inl, inr,
}
use time_shield_cpp.Base.Int.{ℤ, ltb_ℤ}
use time_shield_cpp.Base.Word.{u64_mod}
use time_shield_cpp.Timers.Scheduler.{
  ScheduledTimer, DueTimer, TimerScheduler, next_generation, create_timer_state,
  destroy_timer_state, start_timer, stop_timer, collect_item, collect_loop,
  collect_due_timers_locked, set_interval, set_single_shot, set_owner, stop_scheduler,
  deactivate_orphan,
}
use time_shield_cpp.Timers.Scheduler.Entries.{queued, flying, queued-push, flying-append}

abbrev pub total : ℕ → ℕ → List ScheduledTimer → List DueTimer → ℕ
total id g q due = queued id g q + flying id g due

-- What holds of a queue and a scheduler after at most `n` steps.
pub record Entries (n : ℕ) (q : List ScheduledTimer) (s : TimerScheduler) : Type 0 where
  pub small : (id : ℕ) → (s.timers id).generation ≤ n
  pub once : (id : ℕ) → total id (s.timers id).generation q s.due ≤ 1
  pub live :
      (id : ℕ)
      → (s.timers id).is_active ≡ true
      → s.is_registered id ≡ true
      → total id (s.timers id).generation q s.due ≡ 1
  pub above : (id g : ℕ) → (s.timers id).generation < g → total id g q s.due ≡ 0
  pub fresh : (id g : ℕ) → s.next_id ≤ id → total id g q s.due ≡ 0

abbrev pub Inv : ℕ → TimerScheduler → Type 0
Inv n s = Entries n s.queue s

module _ (n : ℕ) (s : TimerScheduler) (v : Inv n s) (few : suc n < u64_mod) where
  pub create-Entries : Entries (suc n) s.queue (create_timer_state s).0
  unfolding create_timer_state
  create-Entries = record {
    small = λ id. ground (arith, v.small id);
    once = λ id. ground (arith, v.once id, v.fresh id 0);
    live = λ id. ground (arith, v.live id);
    above = λ id g. ground (arith, v.above id g, v.fresh id g);
    fresh = λ id g. ground (arith, v.fresh id g);
  }

  pub start-Entries :
      (id : ℕ) (when : ℤ)
      → id < s.next_id
      → Entries (suc n) (start_timer id when s).queue (start_timer id when s)
  unfolding start_timer
  start-Entries id when h =
      let g' = next_generation (s.timers id) in
      let item : ScheduledTimer = record { fire_time = when; timer_id = id; generation = g' } in
      let bump : (g' ≡ (s.timers id).generation + 1) = omega (arith, v.small id) in
      record {
        small = λ j. ground (arith, v.small j, v.small id, bump);
        once = λ j. ground (
          arith,
          v.once j,
          v.above id g',
          bump,
          queued-push j g' item s.queue,
          queued-push j (s.timers j).generation item s.queue,
        );
        live = λ j. ground (
          arith,
          v.live j,
          v.above id g',
          bump,
          queued-push j g' item s.queue,
          queued-push j (s.timers j).generation item s.queue,
        );
        above = λ j g. ground (arith, v.above j g, bump, queued-push j g item s.queue);
        fresh = λ j g. ground (arith, v.fresh j g, queued-push j g item s.queue);
      }

  pub stop-Entries : (id : ℕ) → Inv (suc n) (stop_timer id s)
  unfolding stop_timer
  stop-Entries id =
      let g' = next_generation (s.timers id) in
      let bump : (g' ≡ (s.timers id).generation + 1) = omega (arith, v.small id) in
      record {
        small = λ j. ground (arith, v.small j, v.small id, bump);
        once = λ j. ground (arith, v.once j, v.above id g', bump);
        live = λ j. ground (arith, v.live j);
        above = λ j g. ground (arith, v.above j g, bump);
        fresh = λ j g. ground (arith, v.fresh j g);
      }

  pub destroy-Entries : (id : ℕ) → Inv (suc n) (destroy_timer_state id s)
  unfolding destroy_timer_state
  destroy-Entries id =
      let g' = next_generation (s.timers id) in
      let bump : (g' ≡ (s.timers id).generation + 1) = omega (arith, v.small id) in
      record {
        small = λ j. ground (arith, v.small j, v.small id, bump);
        once = λ j. ground (arith, v.once j, v.above id g', bump);
        live = λ j. ground (arith, v.live j);
        above = λ j g. ground (arith, v.above j g, bump);
        fresh = λ j g. ground (arith, v.fresh j g);
      }

  -- A step that changes neither generations nor entries, and makes no timer active.
  quiet-Entries :
      (s' : TimerScheduler)
      → s'.queue ≡ s.queue
      → s'.due ≡ s.due
      → s'.next_id ≡ s.next_id
      → ((id : ℕ) → (s'.timers id).generation ≡ (s.timers id).generation)
      → ((id : ℕ)
          → (s'.timers id).is_active ≡ true
          → s'.is_registered id ≡ true
          → ((s.timers id).is_active ≡ true) × (s.is_registered id ≡ true))
      → Inv (suc n) s'
  quiet-Entries s' q d i g a = rw (q) (record {
    small = λ j. omega (arith, v.small j, g j);
    once = λ j. rw (g j, d) (v.once j);
    live = λ j h k. rw (g j, d) (v.live j (a j h k).0 (a j h k).1);
    above = λ j k h. rw d (v.above j k (omega (arith, g j)));
    fresh = λ j k h. rw d (v.fresh j k (omega (arith, i)));
  })

  pub set_interval-Entries : (id : ℕ) (interval : ℤ) → Inv (suc n) (set_interval id interval s)
  unfolding set_interval
  set_interval-Entries id interval =
      quiet-Entries _ refl refl refl (λ j. ground arith) (λ j h k. ground arith)

  pub set_single_shot-Entries : (id : ℕ) (b : Bool) → Inv (suc n) (set_single_shot id b s)
  unfolding set_single_shot
  set_single_shot-Entries id b =
      quiet-Entries _ refl refl refl (λ j. ground arith) (λ j h k. ground arith)

  pub set_owner-Entries : (id : ℕ) (b : Bool) → Inv (suc n) (set_owner id b s)
  unfolding set_owner
  set_owner-Entries id b =
      quiet-Entries _ refl refl refl (λ j. ground arith) (λ j h k. ground arith)

  pub stop_scheduler-Entries : Inv (suc n) (stop_scheduler s)
  unfolding stop_scheduler
  stop_scheduler-Entries = quiet-Entries _ refl refl refl (λ j. refl) (λ j h k. ground arith)

  pub deactivate_orphan-Entries : (id : ℕ) → Inv (suc n) (deactivate_orphan id s)
  unfolding deactivate_orphan
  deactivate_orphan-Entries id =
      quiet-Entries _ refl refl refl (λ j. ground arith) (λ j h k. ground arith)

-- A round of the collecting loop takes its item from the queue.
pub collect_item-Entries :
    (n : ℕ) (item : ScheduledTimer) (q : List ScheduledTimer) (s : TimerScheduler)
    → Entries n (item ∷ q) s
    → Entries n q (collect_item item s)
unfolding collect_item queued
collect_item-Entries n item q s v =
    let id = item.timer_id in
    let d : DueTimer = record {
      fire_time = item.fire_time;
      generation = item.generation;
      state = id;
    } in
    record {
      small = λ j. ground (arith, v.small j);
      once = λ j. ground (arith, v.once j, flying-append j (s.timers j).generation s.due d);
      live = λ j. ground (arith, v.live j, flying-append j (s.timers j).generation s.due d);
      above = λ j g. ground (arith, v.above j g, flying-append j g s.due d);
      fresh = λ j g. ground (arith, v.fresh j g, flying-append j g s.due d);
    }

-- The queue of the record itself does not count.
pub Entries-queue :
    (n : ℕ) (q r : List ScheduledTimer) (s : TimerScheduler)
    → Entries n q s
    → Entries n q (record s { queue = r })
Entries-queue n q r s v = record {
  small = v.small;
  once = v.once;
  live = v.live;
  above = v.above;
  fresh = v.fresh;
}

collect_loop-Entries :
    (n : ℕ) (now : ℤ) (q : List ScheduledTimer) (s : TimerScheduler)
    → Entries n q s
    → Inv n (collect_loop now q s)
unfolding collect_loop
collect_loop-Entries n now [] s v = Entries-queue n [] [] s v
collect_loop-Entries n now (top ∷ rest) s v = elim (Bool-cases (ltb_ℤ now top.fire_time)) [
  | inl later ↦ rw later (Entries-queue n (top ∷ rest) (top ∷ rest) s v)
  | inr due ↦
      rw due
        (collect_loop-Entries n now rest (collect_item top s) (collect_item-Entries n top rest s v))
]

pub collect-Entries :
    (n : ℕ) (now : ℤ) (s : TimerScheduler) → Inv n s → Inv n (collect_due_timers_locked now s)
unfolding collect_due_timers_locked
collect-Entries n now s v = collect_loop-Entries n now s.queue s v

pub Entries-suc :
    {n : ℕ} {q : List ScheduledTimer} {s : TimerScheduler} → Entries n q s → Entries (suc n) q s
Entries-suc v = record {
  small = λ j. omega (arith, v.small j);
  once = v.once;
  live = v.live;
  above = v.above;
  fresh = v.fresh;
}
