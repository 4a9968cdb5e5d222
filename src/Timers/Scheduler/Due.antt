-- ===== src/Timers/Scheduler/Due.antt =====
-- A timer that has been started is in the first batch collected at or after its fire time.
use time_shield_cpp.Base.{
  ℕ, suc, ◌+◌, ◌≤◌, ◌<◌, ◌≡◌, refl, ap, ◌∙◌, subst, true, List, [], ◌∷◌, if◌then◌else◌, arith,
  Bool-cases, inl, inr,
}
use time_shield_cpp.Base.Int.{ℤ, ltb_ℤ, ◌≤ℤ◌}
use time_shield_cpp.Base.Word.{u64_mod}
use time_shield_cpp.Timers.Chrono.{Chrono}
use time_shield_cpp.Timers.Scheduler.{
  ScheduledTimer, TimerScheduler, push, next_generation, start_timer, collect_item, collect_loop,
  collect_due_timers_locked,
}
use time_shield_cpp.Timers.Scheduler.Entries.{is_entry, queued, flying}
use time_shield_cpp.Timers.Scheduler.Steps.{total, collect-Entries, start-Entries}
use time_shield_cpp.Timers.Scheduler.Reach.{Reach, Reach-Inv}
use time_shield_cpp.Timers.Scheduler.Firing.{
  AllLater, Reach-IsOrdered, push-IsOrdered, collect_loop-queue, collect_loop-live,
  collect_loop-generation, collect_loop-registered,
}

-- How often a generation of a timer stands in the queue with a fire time after `now`.
unfoldable late : ℤ → ℕ → ℕ → List ScheduledTimer → ℕ
late now id g [] = 0
late now id g (x ∷ xs) =
    (if ltb_ℤ now x.fire_time then is_entry id g x.timer_id x.generation else 0) + late now id g xs

late-push :
    (now : ℤ) (id g : ℕ) (item : ScheduledTimer) (q : List ScheduledTimer)
    → item.fire_time ≤ℤ now
    → late now id g (push item q) ≡ late now id g q
unfolding late push
late-push now id g item [] h = ground arith
late-push now id g item (top ∷ rest) h = ground (arith, late-push now id g item rest h)

late-queued : (now : ℤ) (id g : ℕ) (q : List ScheduledTimer) → late now id g q ≤ queued id g q
unfolding late queued
late-queued now id g [] = omega arith
late-queued now id g (x ∷ q) = ground (arith, late-queued now id g q)

AllLater-late :
    (now : ℤ) (id g : ℕ) (q : List ScheduledTimer)
    → AllLater now q
    → queued id g q ≡ late now id g q
unfolding late queued
AllLater-late now id g [] v = refl
AllLater-late now id g (x ∷ q) (l, v) = ground (arith, AllLater-late now id g q v)

collect_loop-late :
    (now : ℤ) (id g : ℕ) (q : List ScheduledTimer) (s : TimerScheduler)
    → late now id g (collect_loop now q s).queue ≤ late now id g q
unfolding collect_loop late
collect_loop-late now id g [] s = omega arith
collect_loop-late now id g (top ∷ rest) s = elim (Bool-cases (ltb_ℤ now top.fire_time)) [
  | inl later ↦ rw later (ground (arith, later))
  | inr due ↦ rw due (omega (arith, collect_loop-late now id g rest (collect_item top s)))
]

-- After fewer than 2^64 steps, a registered timer that is started for a time is in the batch that
-- is collected at that time or later, once.
pub collect-start :
    {c : Chrono} {n : ℕ} {s : TimerScheduler} (id : ℕ) (when now : ℤ)
    → suc n < u64_mod
    → Reach c n s
    → id < s.next_id
    → s.is_registered id ≡ true
    → when ≤ℤ now
    → flying id
        (next_generation (s.timers id))
        (collect_due_timers_locked now (start_timer id when s)).due
      ≡ 1
unfolding start_timer collect_due_timers_locked
collect-start {c} {n} {s} id when now few r h reg le =
    let v = Reach-Inv (omega arith) r in
    let g = next_generation (s.timers id) in
    let item : ScheduledTimer = record { fire_time = when; timer_id = id; generation = g } in
    let s1 = start_timer id when s in
    let s2 = collect_loop now s1.queue s1 in
    let on : ((s2.timers id).is_active ≡ true) =
      collect_loop-live id now s1.queue s1 ∙ ground arith in
    let kept : ((s2.timers id).generation ≡ g) =
      collect_loop-generation id now s1.queue s1 ∙ ground arith in
    let all : (total id g s2.queue s2.due ≡ 1) =
      subst (λ k. total id k s2.queue s2.due ≡ 1) kept
        ((collect-Entries (suc n) now s1 (start-Entries n s v few id when h)).live id on
          (ap (λ f. f id) (collect_loop-registered now s1.queue s1) ∙ reg)) in
    let rest =
      collect_loop-queue now s1.queue s1 (push-IsOrdered item s.queue (Reach-IsOrdered r)) in
    let none : (queued id g s2.queue ≡ 0) = omega (
      arith,
      v.above id g,
      v.small id,
      AllLater-late now id g s2.queue rest.1,
      collect_loop-late now id g s1.queue s1,
      late-push now id g item s.queue le,
      late-queued now id g s.queue,
    ) in
    omega (arith, all, none)
