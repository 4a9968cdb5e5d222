-- ===== src/Periods/Weeks.antt =====
-- Weekdays of timestamps, and weeks from Sunday to Saturday.
use time_shield_cpp.Base.{◌≡◌, ap, arith}
use time_shield_cpp.Base.Int.{
  ℤ, pos, pos_part, neg_part, ◌+ℤ◌, ◌-ℤ◌, ◌*ℤ◌, ◌≤ℤ◌, ◌<ℤ◌, int_laws, eq_of_parts, parts_disjoint,
  -ℤ-zero,
}
use time_shield_cpp.Detail.FloorMath.{floor_div, floor_mod, floor_div-floor_mod}
use time_shield_cpp.Periods.{start_of_day, weekday_of_ts, start_of_week, end_of_week}

-- The quotient and the remainder of a multiple.
pub day_multiple :
    (s w : ℤ)
    → s ≡ w *ℤ pos 86400
    → (floor_div s (pos 86400) ≡ w) × (floor_mod s (pos 86400) ≡ pos 0)
day_multiple s w e =
    let f = floor_div-floor_mod s 86400 (omega arith) in
    let d = parts_disjoint (floor_div s (pos 86400)) in
    (
      eq_of_parts _ _ (
          omega
            (int_laws, ap pos_part e, ap neg_part e, ap pos_part f.0, ap neg_part f.0, f.1, f.2)),
      eq_of_parts _ _ (
          omega
            (int_laws, ap pos_part e, ap neg_part e, ap pos_part f.0, ap neg_part f.0, f.1, f.2)),
    )

week_multiple : (s w : ℤ) → s ≡ w *ℤ pos 7 → floor_mod s (pos 7) ≡ pos 0
week_multiple s w e =
    let f = floor_div-floor_mod s 7 (omega arith) in
    eq_of_parts _ _
      (omega (int_laws, ap pos_part e, ap neg_part e, ap pos_part f.0, ap neg_part f.0, f.1, f.2))

-- A timestamp by weeks, days and seconds: the weeks are counted from Sunday, 28 December 1969.
week_place :
    (ts days sec weeks wd : ℤ)
    → ts ≡ days *ℤ pos 86400 +ℤ sec
    → (pos 0 ≤ℤ sec) × (sec <ℤ pos 86400)
    → days +ℤ pos 4 ≡ weeks *ℤ pos 7 +ℤ wd
    → (pos 0 ≤ℤ wd) × (wd <ℤ pos 7)
    → let start = ts -ℤ sec -ℤ wd *ℤ pos 86400 in
      let stop = ts -ℤ sec +ℤ (pos 7 -ℤ wd) *ℤ pos 86400 -ℤ pos 1 in
      (start ≡ (weeks *ℤ pos 7 -ℤ pos 4) *ℤ pos 86400)
      × (start ≤ℤ ts)
      × (ts ≤ℤ stop)
      × (stop +ℤ pos 1 ≡ start +ℤ pos 604800)
week_place ts days sec weeks wd e s w d = (
  eq_of_parts _ _ (omega (int_laws, ap pos_part e, ap neg_part e, ap pos_part w, ap neg_part w)),
  omega (int_laws, s, d),
  omega (int_laws, s, d),
  eq_of_parts _ _ (omega (int_laws, s, d)),
)

-- The week of a timestamp starts at midnight of a Sunday, lasts 604800 seconds and holds the
-- timestamp.
pub start_of_week-end_of_week :
    (ts : ℤ)
    → (weekday_of_ts (start_of_week ts) ≡ pos 0)
      × (start_of_day (start_of_week ts) ≡ start_of_week ts)
      × (start_of_week ts ≤ℤ ts)
      × (ts ≤ℤ end_of_week ts)
      × (end_of_week ts +ℤ pos 1 ≡ start_of_week ts +ℤ pos 604800)
unfolding start_of_week end_of_week start_of_day weekday_of_ts
start_of_week-end_of_week ts =
    let days = floor_div ts (pos 86400) in
    let f = floor_div-floor_mod ts 86400 (omega arith) in
    let w = floor_div-floor_mod (days +ℤ pos 4) 7 (omega arith) in
    let weeks = floor_div (days +ℤ pos 4) (pos 7) in
    let (start, low, high, length) = week_place ts days _ weeks _ f.0 (f.1, f.2) w.0 (w.1, w.2) in
    let (at_day, at_midnight) = day_multiple _ (weeks *ℤ pos 7 -ℤ pos 4) start in
    (
      rw at_day (week_multiple _ weeks (eq_of_parts _ _ (omega int_laws))),
      rw at_midnight (-ℤ-zero _),
      low,
      high,
      length,
    )
