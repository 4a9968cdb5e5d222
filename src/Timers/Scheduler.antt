-- ===== src/Timers/Scheduler.antt =====
-- include/time_shield/TimerScheduler.hpp: the scheduler, its timers and the due timers that threads
-- have collected and execute. A pointer to a TimerState is its id, by which `timers` gives the state; the
-- callbacks are what the environment does while a due timer is at the head of the batch.
pub mod Entries
pub mod Steps
pub mod Reach
pub mod Batch
pub mod Waiting
pub mod Firing
pub mod Due
use time_shield_cpp.Base.{
  ℕ, suc, ◌+◌, ◌%◌, Bool, true, false, not, ◌&&◌, ◌||◌, List, [], ◌∷◌, ◌++◌, ◌==◌, if◌then◌else◌,
}
use time_shield_cpp.Base.Int.{ℤ, pos, ◌+ℤ◌, ltb_ℤ}
use time_shield_cpp.Base.Word.{u64_mod}
use time_shield_cpp.Timers.Chrono.{Chrono}

pub record TimerState : Type 0 where
  pub interval_ms : ℤ
  pub is_single_shot : Bool
  pub is_active : Bool
  pub is_running : Bool
  pub generation : ℕ
  pub has_external_owner : Bool

pub record ScheduledTimer : Type 0 where
  pub fire_time : ℤ
  pub timer_id : ℕ
  pub generation : ℕ

pub record DueTimer : Type 0 where
  pub fire_time : ℤ
  pub generation : ℕ
  pub state : ℕ

-- `m_timers` has the ids of which `is_registered` holds. A state is alive as long as its id is
-- there, so that the lock of its weak pointer succeeds.
pub record TimerScheduler : Type 0 where
  pub queue : List ScheduledTimer
  pub due : List DueTimer
  pub timers : ℕ → TimerState
  pub is_registered : ℕ → Bool
  pub next_id : ℕ

abbrev pub new_state : TimerState
new_state = record {
  interval_ms = pos 0;
  is_single_shot = false;
  is_active = false;
  is_running = false;
  generation = 0;
  has_external_owner = false;
}

unfoldable pub new_scheduler : TimerScheduler
new_scheduler = record {
  queue = [];
  due = [];
  timers = λ id. new_state;
  is_registered = λ id. false;
  next_id = 1;
}

abbrev pub update {ℓ} : {A : Type ℓ} → (ℕ → A) → ℕ → A → ℕ → A
update f k v j = if j == k then v else f j

-- m_generation.fetch_add(1) + 1
abbrev pub next_generation : TimerState → ℕ
next_generation t = (t.generation + 1) % u64_mod

-- m_queue.push: the earliest fire time is on top. The order of equal ones, left open by the
-- priority queue, is that of their insertion.
unfoldable pub push : ScheduledTimer → List ScheduledTimer → List ScheduledTimer
push item [] = item ∷ []
push item (top ∷ rest) =
    if ltb_ℤ item.fire_time top.fire_time then item ∷ top ∷ rest else top ∷ push item rest

unfoldable pub create_timer_state : TimerScheduler → TimerScheduler × ℕ
create_timer_state s = (
  record s {
    timers = update s.timers s.next_id new_state;
    is_registered = update s.is_registered s.next_id true;
    next_id = s.next_id + 1;
  },
  s.next_id,
)

unfoldable pub destroy_timer_state : ℕ → TimerScheduler → TimerScheduler
destroy_timer_state id s =
    let t = s.timers id in
    record s {
      timers = update s.timers id (record t { is_active = false; generation = next_generation t });
      is_registered = update s.is_registered id false;
    }

unfoldable pub start_timer : ℕ → ℤ → TimerScheduler → TimerScheduler
start_timer id when s =
    let t = s.timers id in
    let g = next_generation t in
    record s {
      timers = update s.timers id (record t { is_active = true; generation = g });
      queue = push (record { fire_time = when; timer_id = id; generation = g }) s.queue;
    }

unfoldable pub stop_timer : ℕ → TimerScheduler → TimerScheduler
stop_timer id s =
    let t = s.timers id in
    record s {
      timers = update s.timers id (record t { is_active = false; generation = next_generation t });
    }

-- One round of the loop of `collect_due_timers_locked`, at an item that it has popped.
unfoldable pub collect_item : ScheduledTimer → TimerScheduler → TimerScheduler
collect_item item s =
    let id = item.timer_id in
    let t = s.timers id in
    if not (s.is_registered id)
    then s
    else if not t.is_active || not (t.generation == item.generation)
    then s
    else record s {
      timers = update s.timers id (record t { is_running = true });
      due =
          s.due
          ++ record { fire_time = item.fire_time; generation = item.generation; state = id } ∷ [];
    }

unfoldable pub collect_loop : ℤ → List ScheduledTimer → TimerScheduler → TimerScheduler
unfolding collect_item
collect_loop now [] s = record s { queue = [] }
collect_loop now (top ∷ rest) s =
    if ltb_ℤ now top.fire_time
    then record s { queue = top ∷ rest }
    else collect_loop now rest (collect_item top s)

unfoldable pub collect_due_timers_locked : ℤ → TimerScheduler → TimerScheduler
unfolding collect_loop
collect_due_timers_locked now s = collect_loop now s.queue s

module _ (c : Chrono) where
  open c use {of_ms}

  -- The end of the loop of `execute_due_timers` for a due timer, after its callback.
  unfoldable pub finalize_timer : DueTimer → TimerScheduler → TimerScheduler
  finalize_timer due_timer s0 =
      let id = due_timer.state in
      let t = record (s0.timers id) { is_running = false } in
      let s = record s0 { timers = update s0.timers id t } in
      let g = next_generation t in
      if not t.is_active
      then s
      else if t.is_single_shot
      then record s { timers = update s.timers id (record t { is_active = false; generation = g }) }
      else if not (t.generation == due_timer.generation)
      then s
      else record s {
        timers = update s.timers id (record t { generation = g });
        queue =
            push
              (record {
                fire_time = due_timer.fire_time +ℤ of_ms t.interval_ms;
                timer_id = id;
                generation = g;
              })
              s.queue;
      }

  -- execute_due_timers, with what the callback of a timer does to the scheduler.
  unfoldable pub execute_due_timers :
      (ℕ → TimerScheduler → TimerScheduler) → List DueTimer → TimerScheduler → TimerScheduler
  unfolding finalize_timer
  execute_due_timers callback [] s = s
  execute_due_timers callback (d ∷ later) s =
      execute_due_timers callback later
        (finalize_timer d (record (callback d.state s) { due = later }))

  unfoldable pub process :
      (ℕ → TimerScheduler → TimerScheduler) → ℤ → TimerScheduler → TimerScheduler
  process callback now s =
      let s' = collect_due_timers_locked now s in execute_due_timers callback s'.due s'

  -- The delay of Timer::start.
  unfoldable pub start : ℕ → ℤ → TimerScheduler → TimerScheduler
  start id now s = start_timer id (now +ℤ of_ms (s.timers id).interval_ms) s

-- Timer::set_interval, for an interval in milliseconds.
unfoldable pub set_interval : ℕ → ℤ → TimerScheduler → TimerScheduler
set_interval id interval s =
    let milliseconds = if ltb_ℤ interval (pos 0) then pos 0 else interval in
    record s { timers = update s.timers id (record (s.timers id) { interval_ms = milliseconds }) }

unfoldable pub set_single_shot : ℕ → Bool → TimerScheduler → TimerScheduler
set_single_shot id is_single_shot s = record s {
  timers = update s.timers id (record (s.timers id) { is_single_shot = is_single_shot });
}

unfoldable pub set_owner : ℕ → Bool → TimerScheduler → TimerScheduler
set_owner id owner s = record s {
  timers = update s.timers id (record (s.timers id) { has_external_owner = owner });
}

-- The constructor of Timer.
unfoldable pub new_timer : TimerScheduler → TimerScheduler × ℕ
new_timer s = let (s', id) = create_timer_state s in (set_owner id true s', id)

-- The destructor of Timer after `stop_timer` and, outside the timer's own callback, the wait for it.
unfoldable pub drop_timer : ℕ → TimerScheduler → TimerScheduler
drop_timer id s = destroy_timer_state id (set_owner id false s)

-- Timer::single_shot, where `when` is the time of the call and the interval.
unfoldable pub single_shot : ℤ → ℤ → TimerScheduler → TimerScheduler
single_shot interval when s =
    let (s', id) = create_timer_state s in
    start_timer id when (set_interval id interval (set_single_shot id true s'))

-- The first section of TimerScheduler::stop under the mutex: states that no Timer owns are orphans
-- and go from `m_timers`. The worker thread is joined after it.
unfoldable pub stop_scheduler : TimerScheduler → TimerScheduler
stop_scheduler s =
    let is_orphan = λ (id : ℕ). s.is_registered id && not (s.timers id).has_external_owner in
    record s { is_registered = λ id. if is_orphan id then false else s.is_registered id }

-- A round of the loop at the end of TimerScheduler::stop, outside of the mutex.
unfoldable pub deactivate_orphan : ℕ → TimerScheduler → TimerScheduler
deactivate_orphan id s = record s {
  timers = update s.timers id (record (s.timers id) { is_active = false });
}
