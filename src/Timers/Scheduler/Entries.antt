-- ===== src/Timers/Scheduler/Entries.antt =====
-- How often a generation of a timer stands in the queue and in the batch.
use time_shield_cpp.Base.{ℕ, ◌+◌, ◌≡◌, refl, ◌&&◌, List, [], ◌∷◌, ◌++◌, ◌==◌, if◌then◌else◌, arith}
use time_shield_cpp.Timers.Scheduler.{ScheduledTimer, DueTimer, push}

abbrev pub is_entry : ℕ → ℕ → ℕ → ℕ → ℕ
is_entry id g id' g' = if (id' == id) && (g' == g) then 1 else 0

unfoldable pub queued : ℕ → ℕ → List ScheduledTimer → ℕ
queued id g [] = 0
queued id g (x ∷ xs) = is_entry id g x.timer_id x.generation + queued id g xs

unfoldable pub flying : ℕ → ℕ → List DueTimer → ℕ
flying id g [] = 0
flying id g (x ∷ xs) = is_entry id g x.state x.generation + flying id g xs

pub queued-push :
    (id g : ℕ) (item : ScheduledTimer) (q : List ScheduledTimer)
    → queued id g (push item q) ≡ is_entry id g item.timer_id item.generation + queued id g q
unfolding queued push
queued-push id g item [] = refl
queued-push id g item (top ∷ rest) = ground (arith, queued-push id g item rest)

pub flying-middle :
    (id g : ℕ) (before : List DueTimer) (d : DueTimer) (later : List DueTimer)
    → flying id g (before ++ d ∷ later)
      ≡ is_entry id g d.state d.generation + flying id g (before ++ later)
unfolding flying
flying-middle id g [] d later = refl
flying-middle id g (x ∷ before) d later = omega (arith, flying-middle id g before d later)

pub flying-append :
    (id g : ℕ) (xs : List DueTimer) (d : DueTimer)
    → flying id g (xs ++ d ∷ []) ≡ is_entry id g d.state d.generation + flying id g xs
unfolding flying
flying-append id g [] d = refl
flying-append id g (x ∷ xs) d = omega (arith, flying-append id g xs d)
