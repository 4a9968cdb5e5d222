-- ===== src/Timers/Elapsed/Laps.antt =====
-- Laps add up to the whole time, and a timeout that has passed stays passed.
use time_shield_cpp.Base.{◌≡◌, refl, ap, true, ◌↔◌, arith, List, [], ◌∷◌}
use time_shield_cpp.Base.Int.{
  ℤ, pos, ◌+ℤ◌, ◌-ℤ◌, ◌≤ℤ◌, ◌<ℤ◌, int_laws, eq_of_parts, pos_part, neg_part,
}
use time_shield_cpp.Timers.Chrono.{Chrono, nanoseconds}
use time_shield_cpp.Timers.Elapsed.{
  ElapsedTimer, start, restart, elapsed, elapsed_ms, has_expired, has_expired_sec,
}

-- Restarts at some readings of the clock: the timer after them and the sum of what they return.
unfoldable pub laps : ElapsedTimer → List ℤ → ElapsedTimer × ℤ
laps t [] = (t, pos 0)
laps t (now ∷ later) =
    let (t', delta) = restart now t in let (last, sum) = laps t' later in (last, delta +ℤ sum)

sum_laps :
    (start lap sum rest now : ℤ)
    → sum +ℤ rest ≡ now -ℤ lap
    → lap -ℤ start +ℤ sum +ℤ rest ≡ now -ℤ start
sum_laps start lap sum rest now e = eq_of_parts _ _ (omega (int_laws, ap pos_part e, ap neg_part e))

-- For a running timer, the durations that its restarts return and the time elapsed since the last
-- add up to what it would have shown without a restart.
pub elapsed-laps :
    (t : ElapsedTimer) (readings : List ℤ) (now : ℤ)
    → t.is_running ≡ true
    → (laps t readings).1 +ℤ elapsed (laps t readings).0 now ≡ elapsed t now
unfolding laps restart elapsed
elapsed-laps t [] now on = eq_of_parts _ _ (omega int_laws)
elapsed-laps t (lap ∷ readings) now on =
    let next : ElapsedTimer = record { start_time = lap; is_running = true } in
    let ih = elapsed-laps next readings now refl in rw on (sum_laps t.start_time lap _ _ now ih)

-- A positive timeout in seconds of a running timer has expired exactly when the clock is at the
-- start and the timeout, or later.
pub has_expired_sec-elapsed :
    (c : Chrono) (t : ElapsedTimer) (timeout now : ℤ)
    → t.is_running ≡ true
    → pos 0 <ℤ timeout
    → (has_expired_sec c t timeout now ≡ true) ↔ (t.start_time +ℤ c.of_sec timeout ≤ℤ now)
unfolding has_expired_sec elapsed ◌+ℤ◌ ◌-ℤ◌
has_expired_sec-elapsed c t timeout now on p = (λ h. ground arith, λ h. ground arith)

-- The cast to milliseconds keeps the order of durations.
pub record IsMonotone (c : Chrono) : Type 0 where
  pub to_ms-mono : (a b : ℤ) → a ≤ℤ b → c.to_ms a ≤ℤ c.to_ms b

-- Where the cast to milliseconds keeps the order of durations, a timeout that has expired stays
-- expired at all later times.
pub has_expired-later :
    (c : Chrono) (t : ElapsedTimer) (timeout now later : ℤ)
    → IsMonotone c
    → now ≤ℤ later
    → has_expired c t timeout now ≡ true
    → has_expired c t timeout later ≡ true
unfolding has_expired elapsed_ms elapsed
has_expired-later c t timeout now later m le h =
    ground (arith, m.to_ms-mono (now -ℤ t.start_time) (later -ℤ t.start_time) (omega int_laws))

pub nanoseconds-IsMonotone : IsMonotone nanoseconds
nanoseconds-IsMonotone = record { to_ms-mono = λ a b h. omega int_laws }
