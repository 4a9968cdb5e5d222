-- ===== src/Timers/Scheduler/Batch.antt =====
-- A timer is running as long as it stands in the batch, and it stands there once.
use time_shield_cpp.Base.{
  ℕ, suc, ◌+◌, ◌≤◌, ◌<◌, ◌≡◌, refl, ap, sym, ◌∙◌, subst, true, false, List, [], ◌∷◌, ◌++◌, ◌==◌,
  if◌then◌else◌, arith, Bool-cases, inl, inr,
}
use time_shield_cpp.Base.Int.{ℤ, ltb_ℤ}
use time_shield_cpp.Base.Word.{u64_mod}
use time_shield_cpp.Timers.Chrono.{Chrono}
use time_shield_cpp.Timers.Scheduler.{
  ScheduledTimer, DueTimer, TimerScheduler, new_scheduler, create_timer_state, destroy_timer_state,
  start_timer, stop_timer, collect_item, collect_loop, collect_due_timers_locked, finalize_timer,
  set_interval, set_single_shot, set_owner, stop_scheduler, deactivate_orphan,
}
use time_shield_cpp.Timers.Scheduler.Entries.{queued, flying, flying-append}
use time_shield_cpp.Timers.Scheduler.Steps.{Entries, Inv, collect_item-Entries}
use time_shield_cpp.Timers.Scheduler.Reach.{
  Step, creates, starts, stops, destroys, sets_interval, sets_single_shot, sets_owner, stops_all,
  deactivates, collects, finalizes, Reach, initially, next, Reach-Inv,
}

-- How often a timer stands in a batch.
unfoldable pub in_batch : ℕ → List DueTimer → ℕ
in_batch id [] = 0
in_batch id (d ∷ ds) = (if d.state == id then 1 else 0) + in_batch id ds

pub record Running (s : TimerScheduler) : Type 0 where
  pub once : (id : ℕ) → in_batch id s.due ≤ 1
  pub set : (id : ℕ) → 1 ≤ in_batch id s.due → (s.timers id).is_running ≡ true
  pub reset : (id : ℕ) → in_batch id s.due ≡ 0 → (s.timers id).is_running ≡ false

in_batch-append :
    (id : ℕ) (ds : List DueTimer) (d : DueTimer)
    → in_batch id (ds ++ d ∷ []) ≡ (if d.state == id then 1 else 0) + in_batch id ds
unfolding in_batch
in_batch-append id [] d = refl
in_batch-append id (x ∷ ds) d = omega (arith, in_batch-append id ds d)

in_batch-middle :
    (id : ℕ) (before : List DueTimer) (d : DueTimer) (later : List DueTimer)
    → in_batch id (before ++ d ∷ later)
      ≡ (if d.state == id then 1 else 0) + in_batch id (before ++ later)
unfolding in_batch
in_batch-middle id [] d later = refl
in_batch-middle id (x ∷ before) d later = omega (arith, in_batch-middle id before d later)

-- A timer without an entry of any generation is not in the batch.
in_batch_zero : (id : ℕ) (ds : List DueTimer) → ((g : ℕ) → flying id g ds ≡ 0) → in_batch id ds ≡ 0
unfolding in_batch flying
in_batch_zero id [] h = refl
in_batch_zero id (d ∷ ds) h =
    ground (arith, h d.generation, in_batch_zero id ds (λ g. omega (arith, h g)))

-- During the loop, what has been collected is of the current generation.
record Collecting (n : ℕ) (q : List ScheduledTimer) (s : TimerScheduler) : Type 0 where
  entries : Entries n q s
  running : Running s
  current : (id : ℕ) → in_batch id s.due ≤ flying id (s.timers id).generation s.due

collect_item-Collecting :
    (n : ℕ) (item : ScheduledTimer) (q : List ScheduledTimer) (s : TimerScheduler)
    → Collecting n (item ∷ q) s
    → Collecting n q (collect_item item s)
unfolding collect_item queued
collect_item-Collecting n item q s v =
    let id = item.timer_id in
    let r = v.running in
    let d : DueTimer = record {
      fire_time = item.fire_time;
      generation = item.generation;
      state = id;
    } in
    record {
      entries = collect_item-Entries n item q s v.entries;
      running = record {
        once =
            λ j. ground (arith, r.once j, v.current j, v.entries.once j, in_batch-append j s.due d);
        set = λ j. ground (arith, r.set j, in_batch-append j s.due d);
        reset = λ j. ground (arith, r.reset j, in_batch-append j s.due d);
      };
      current = λ j. ground (
        arith,
        v.current j,
        in_batch-append j s.due d,
        flying-append j (s.timers j).generation s.due d,
      );
    }

collect_loop-Running :
    (n : ℕ) (now : ℤ) (q : List ScheduledTimer) (s : TimerScheduler)
    → Collecting n q s
    → Running (collect_loop now q s)
unfolding collect_loop
collect_loop-Running n now [] s v = record {
  once = v.running.once;
  set = v.running.set;
  reset = v.running.reset;
}
collect_loop-Running n now (top ∷ rest) s v = elim (Bool-cases (ltb_ℤ now top.fire_time)) [
  | inl later ↦
      rw later (record { once = v.running.once; set = v.running.set; reset = v.running.reset })
  | inr due ↦ rw due (
      collect_loop-Running n now rest (collect_item top s) (collect_item-Collecting n top rest s v))
]

collect-Running :
    (n : ℕ) (now : ℤ) (s : TimerScheduler)
    → Inv n s
    → s.due ≡ []
    → Running s
    → Running (collect_due_timers_locked now s)
unfolding collect_due_timers_locked in_batch
collect-Running n now s v e r =
    collect_loop-Running n now s.queue s
      (record { entries = v; running = r; current = λ id. omega (arith, ap (in_batch id) e) })

finalize-Running :
    (c : Chrono) (s : TimerScheduler) (before : List DueTimer) (d : DueTimer)
    (later : List DueTimer)
    → s.due ≡ before ++ d ∷ later
    → Running s
    → Running (finalize_timer c d (record s { due = before ++ later }))
unfolding finalize_timer in_batch
finalize-Running c s before d later e r =
    let rest : ((j : ℕ)
        → in_batch j s.due ≡ (if d.state == j then 1 else 0) + in_batch j (before ++ later)) =
      λ j. ap (in_batch j) e ∙ in_batch-middle j before d later in
    record {
      once = λ j. ground (arith, r.once j, rest j);
      set = λ j. ground (arith, r.set j, r.once j, rest j);
      reset = λ j. ground (arith, r.reset j, rest j);
    }

-- A step that changes neither the batch nor a flag.
quiet-Running :
    (s s' : TimerScheduler)
    → s'.due ≡ s.due
    → ((id : ℕ) → (s'.timers id).is_running ≡ (s.timers id).is_running)
    → Running s
    → Running s'
quiet-Running s s' d f r = record {
  once = λ j. rw d (r.once j);
  set = λ j h. f j ∙ r.set j (subst (λ x. 1 ≤ in_batch j x) d h);
  reset = λ j h. f j ∙ r.reset j (sym (ap (in_batch j) d) ∙ h);
}

-- Batches do not overlap: one is collected when the last one has been executed.
abbrev pub IsAlone : {c : Chrono} {s s' : TimerScheduler} → Step c s s' → Type 0
IsAlone (collects s now) = s.due ≡ []
IsAlone st = Unit {0}

-- What is reached by steps of which all are such.
pub data Sequential (c : Chrono) : ℕ → TimerScheduler → Type 0 where
  at_first : Sequential c 0 new_scheduler
  then_next :
      {n : ℕ} {s s' : TimerScheduler}
      → Sequential c n s
      → (st : Step c s s') → IsAlone st
      → Sequential c (suc n) s'

Sequential-Reach : {c : Chrono} {n : ℕ} {s : TimerScheduler} → Sequential c n s → Reach c n s
Sequential-Reach at_first = initially
Sequential-Reach (then_next r st a) = next (Sequential-Reach r) st

Step-Running :
    {c : Chrono} {n : ℕ} {s s' : TimerScheduler}
    → Inv n s
    → (st : Step c s s') → IsAlone st
    → Running s
    → Running s'
unfolding create_timer_state start_timer stop_timer destroy_timer_state set_interval set_single_shot
    set_owner stop_scheduler deactivate_orphan
Step-Running v (creates s) a r =
    let zero_at =
      in_batch_zero s.next_id s.due (λ g. omega (arith, v.fresh s.next_id g (omega arith))) in
    record {
      once = r.once;
      set = λ j. ground (arith, r.set j, zero_at);
      reset = λ j. ground (arith, r.reset j);
    }
Step-Running v (starts s id when h) a r = quiet-Running s _ refl (λ j. ground arith) r
Step-Running v (stops s id) a r = quiet-Running s _ refl (λ j. ground arith) r
Step-Running v (destroys s id) a r = quiet-Running s _ refl (λ j. ground arith) r
Step-Running v (sets_interval s id i) a r = quiet-Running s _ refl (λ j. ground arith) r
Step-Running v (sets_single_shot s id b) a r = quiet-Running s _ refl (λ j. ground arith) r
Step-Running v (sets_owner s id b) a r = quiet-Running s _ refl (λ j. ground arith) r
Step-Running v (stops_all s) a r = quiet-Running s _ refl (λ j. ground arith) r
Step-Running v (deactivates s id _) a r = quiet-Running s _ refl (λ j. ground arith) r
Step-Running {n} v (collects s now) e r = collect-Running n now s v e r
Step-Running {c} v (finalizes s before d later e) a r = finalize-Running c s before d later e r

-- After fewer than 2^64 steps, where a batch is collected only when the last one has been
-- executed, a timer stands in the batch of due timers at most once, and it is marked as running
-- exactly while it stands there.
pub Sequential-Running :
    {c : Chrono} {n : ℕ} {s : TimerScheduler} → n < u64_mod → Sequential c n s → Running s
unfolding new_scheduler in_batch
Sequential-Running few at_first = record {
  once = λ j. omega arith;
  set = λ j h. absurd (omega arith);
  reset = λ j h. refl;
}
Sequential-Running few (then_next r st a) =
    Step-Running (Reach-Inv (omega arith) (Sequential-Reach r)) st a
      (Sequential-Running (omega arith) r)
