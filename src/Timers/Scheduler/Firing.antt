-- ===== src/Timers/Scheduler/Firing.antt =====
-- The queue is in the order of the fire times, and a due timer is collected.
use time_shield_cpp.Base.{ℕ, ◌≡◌, refl, ◌∙◌, List, [], ◌∷◌, ◌==◌, arith, Bool-cases, inl, inr}
use time_shield_cpp.Base.Int.{ℤ, ltb_ℤ, ◌≤ℤ◌, ◌<ℤ◌}
use time_shield_cpp.Timers.Chrono.{Chrono}
use time_shield_cpp.Timers.Scheduler.{
  ScheduledTimer, DueTimer, TimerScheduler, push, new_scheduler, create_timer_state,
  destroy_timer_state, start_timer, stop_timer, collect_item, collect_loop,
  collect_due_timers_locked, finalize_timer, set_interval, set_single_shot, set_owner,
  stop_scheduler, deactivate_orphan,
}
use time_shield_cpp.Timers.Scheduler.Reach.{
  Step, creates, starts, stops, destroys, sets_interval, sets_single_shot, sets_owner, stops_all,
  deactivates, collects, finalizes, Reach, initially, next,
}

abbrev pub From : ℤ → List ScheduledTimer → Type 0
From lo [] = Unit {0}
From lo (x ∷ q) = (lo ≤ℤ x.fire_time) × From x.fire_time q

abbrev pub IsOrdered : List ScheduledTimer → Type 0
IsOrdered [] = Unit {0}
IsOrdered (x ∷ q) = From x.fire_time q

abbrev pub AllLater : ℤ → List ScheduledTimer → Type 0
AllLater now [] = Unit {0}
AllLater now (x ∷ q) = (now <ℤ x.fire_time) × AllLater now q

From-push :
    (lo : ℤ) (item : ScheduledTimer) (q : List ScheduledTimer)
    → lo ≤ℤ item.fire_time
    → From lo q
    → From lo (push item q)
unfolding push
From-push lo item [] h v = (h, tt)
From-push lo item (top ∷ rest) h (l, v) = elim (Bool-cases (ltb_ℤ item.fire_time top.fire_time)) [
  | inl before ↦ rw before (h, (ground arith, v))
  | inr after ↦ rw after (l, From-push top.fire_time item rest (ground arith) v)
]

pub push-IsOrdered :
    (item : ScheduledTimer) (q : List ScheduledTimer) → IsOrdered q → IsOrdered (push item q)
unfolding push
push-IsOrdered item [] v = tt
push-IsOrdered item (top ∷ rest) v = elim (Bool-cases (ltb_ℤ item.fire_time top.fire_time)) [
  | inl before ↦ rw before (ground arith, v)
  | inr after ↦ rw after (From-push top.fire_time item rest (ground arith) v)
]

From-AllLater : (now lo : ℤ) (q : List ScheduledTimer) → now <ℤ lo → From lo q → AllLater now q
From-AllLater now lo [] h v = tt
From-AllLater now lo (x ∷ q) h (l, v) =
    (omega arith, From-AllLater now x.fire_time q (omega arith) v)

IsOrdered-tail : (x : ScheduledTimer) (q : List ScheduledTimer) → IsOrdered (x ∷ q) → IsOrdered q
IsOrdered-tail x [] v = tt
IsOrdered-tail x (y ∷ q) v = v.1

pub collect_loop-queue :
    (now : ℤ) (q : List ScheduledTimer) (s : TimerScheduler)
    → IsOrdered q
    → IsOrdered (collect_loop now q s).queue × AllLater now (collect_loop now q s).queue
unfolding collect_loop
collect_loop-queue now [] s v = (tt, tt)
collect_loop-queue now (top ∷ rest) s v = elim (Bool-cases (ltb_ℤ now top.fire_time)) [
  | inl later ↦ rw later (v, (ground arith, From-AllLater now top.fire_time rest (ground arith) v))
  | inr due ↦ rw due (collect_loop-queue now rest (collect_item top s) (IsOrdered-tail top rest v))
]

finalize-IsOrdered :
    (c : Chrono) (d : DueTimer) (s : TimerScheduler)
    → IsOrdered s.queue
    → IsOrdered (finalize_timer c d s).queue
unfolding finalize_timer
finalize-IsOrdered c d s v =
    let t = s.timers d.state in
    elim (Bool-cases t.is_active) [
      | inr off ↦ rw off v
      | inl on ↦ elim (Bool-cases t.is_single_shot) [
        | inl once ↦ rw (on, once) v
        | inr many ↦ elim (Bool-cases (t.generation == d.generation)) [
          | inl same ↦ rw (on, many, same) (push-IsOrdered _ s.queue v)
          | inr other ↦ rw (on, many, other) v
        ]
      ]
    ]

Step-IsOrdered :
    {c : Chrono} {s s' : TimerScheduler} → Step c s s' → IsOrdered s.queue → IsOrdered s'.queue
unfolding create_timer_state start_timer stop_timer destroy_timer_state set_interval set_single_shot
    set_owner stop_scheduler deactivate_orphan collect_due_timers_locked
Step-IsOrdered (creates s) v = v
Step-IsOrdered (starts s id when h) v = push-IsOrdered _ s.queue v
Step-IsOrdered (stops s id) v = v
Step-IsOrdered (destroys s id) v = v
Step-IsOrdered (sets_interval s id i) v = v
Step-IsOrdered (sets_single_shot s id b) v = v
Step-IsOrdered (sets_owner s id b) v = v
Step-IsOrdered (stops_all s) v = v
Step-IsOrdered (deactivates s id _) v = v
Step-IsOrdered (collects s now) v = (collect_loop-queue now s.queue s v).0
Step-IsOrdered {c} (finalizes s before d later _) v = finalize-IsOrdered c d _ v

pub Reach-IsOrdered : {c : Chrono} {n : ℕ} {s : TimerScheduler} → Reach c n s → IsOrdered s.queue
unfolding new_scheduler
Reach-IsOrdered initially = tt
Reach-IsOrdered (next r st) = Step-IsOrdered st (Reach-IsOrdered r)

-- An active timer keeps its state while a batch is collected.
collect_item-live :
    (id : ℕ) (item : ScheduledTimer) (s : TimerScheduler)
    → ((collect_item item s).timers id).is_active ≡ (s.timers id).is_active
unfolding collect_item
collect_item-live id item s = ground arith

pub collect_loop-live :
    (id : ℕ) (now : ℤ) (q : List ScheduledTimer) (s : TimerScheduler)
    → ((collect_loop now q s).timers id).is_active ≡ (s.timers id).is_active
unfolding collect_loop
collect_loop-live id now [] s = refl
collect_loop-live id now (top ∷ rest) s = elim (Bool-cases (ltb_ℤ now top.fire_time)) [
  | inl later ↦ rw later refl
  | inr due ↦
      rw due (collect_loop-live id now rest (collect_item top s) ∙ collect_item-live id top s)
]

pub collect_loop-generation :
    (id : ℕ) (now : ℤ) (q : List ScheduledTimer) (s : TimerScheduler)
    → ((collect_loop now q s).timers id).generation ≡ (s.timers id).generation
unfolding collect_loop collect_item
collect_loop-generation id now [] s = refl
collect_loop-generation id now (top ∷ rest) s = elim (Bool-cases (ltb_ℤ now top.fire_time)) [
  | inl later ↦ rw later refl
  | inr due ↦ rw due (collect_loop-generation id now rest (collect_item top s) ∙ ground arith)
]

pub collect_loop-registered :
    (now : ℤ) (q : List ScheduledTimer) (s : TimerScheduler)
    → (collect_loop now q s).is_registered ≡ s.is_registered
unfolding collect_loop collect_item
collect_loop-registered now [] s = refl
collect_loop-registered now (top ∷ rest) s = elim (Bool-cases (ltb_ℤ now top.fire_time)) [
  | inl later ↦ rw later refl
  | inr due ↦ rw due (collect_loop-registered now rest (collect_item top s) ∙ ground arith)
]
