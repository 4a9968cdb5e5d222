-- ===== src/DateTimeClass/Days.antt =====
-- The first and the last millisecond of the day of a DateTime.
use time_shield_cpp.Base.{◌≡◌, ap, ◌∙◌, some, arith}
use time_shield_cpp.Base.Int.{ℤ, pos, pos_part, neg_part, ◌+ℤ◌, ◌-ℤ◌, ◌≤ℤ◌, int_laws, eq_of_parts}
use time_shield_cpp.Constants.{ms_per_day, ms_per_sec}
use time_shield_cpp.Detail.FloorMath.{floor_mod, floor_div-floor_mod}
use time_shield_cpp.DateTime.RoundTrip.{IsTime}
use time_shield_cpp.DateTime.Days.{IsDayMoment, to_timestamp_ms-day_start}
use time_shield_cpp.DateTimeClass.{
  DateTime, offset_to_ms, local_ms, at_local, to_date_time_struct_local, to_date_time_struct_utc,
}
use time_shield_cpp.DateTimeClass.Bounds.{
  first_ms, last_ms, at_moment, start_of_day, end_of_day, start_of_utc_day, end_of_utc_day,
}

pub midnight : IsTime (pos 0) (pos 0) (pos 0)
midnight = record { hour_in = omega arith; min_in = omega arith; sec_in = omega arith }

pub last_second : IsTime (pos 23) (pos 59) (pos 59)
last_second = record { hour_in = omega arith; min_in = omega arith; sec_in = omega arith }

-- The moment of a local time.
local_moment :
    (d : DateTime) (local m : ℤ)
    → local ≡ m +ℤ offset_to_ms d.offset
    → at_local (some local) d.offset ≡ some (record d { utc_ms = m })
unfolding at_local
local_moment d local m e =
    let utc : (local -ℤ offset_to_ms d.offset ≡ m) =
      eq_of_parts _ _ (omega (int_laws, ap pos_part e, ap neg_part e)) in
    λ i. some (record { utc_ms = utc i; offset = d.offset })

rest_range :
    (t : ℤ) → (pos 0 ≤ℤ floor_mod t ms_per_day) × (floor_mod t ms_per_day ≤ℤ pos 86_399_999)
rest_range t = let f = floor_div-floor_mod t 86_400_000 (omega arith) in (f.1, omega (arith, f.2))

start_sum : (u o rest : ℤ) → u +ℤ o -ℤ rest +ℤ (pos 0 +ℤ pos 0) ≡ u -ℤ rest +ℤ o
start_sum u o rest = eq_of_parts _ _ (omega int_laws)

end_sum :
    (u o rest : ℤ)
    → u +ℤ o -ℤ rest +ℤ (pos 86_399_000 +ℤ (ms_per_sec -ℤ pos 1)) ≡ u -ℤ rest +ℤ pos 86_399_999 +ℤ o
end_sum u o rest = eq_of_parts _ _ (omega int_laws)

pub milli : (pos 0 ≤ℤ ms_per_sec -ℤ pos 1) × (ms_per_sec -ℤ pos 1 ≤ℤ pos 999)
milli = omega int_laws

-- For a moment whose local time is at most 9200000000000000000 milliseconds from the epoch and
-- has a year up to MAX_YEAR, the start and the end of its local day keep the offset, and are the
-- moment less the time since the local midnight and 86399999 milliseconds after that; the time
-- since midnight is from 0 to 86399999 milliseconds.
pub start_of_day-end_of_day :
    (d : DateTime)
    → IsDayMoment (local_ms d)
    → let rest = floor_mod (local_ms d) ms_per_day in
      (start_of_day d ≡ some (record d { utc_ms = d.utc_ms -ℤ rest }))
      × (end_of_day d ≡ some (record d { utc_ms = d.utc_ms -ℤ rest +ℤ pos 86_399_999 }))
      × (pos 0 ≤ℤ rest)
      × (rest ≤ℤ pos 86_399_999)
unfolding start_of_day end_of_day to_date_time_struct_local first_ms last_ms local_ms
start_of_day-end_of_day d r =
    let t = local_ms d in
    let o = offset_to_ms d.offset in
    let rest = floor_mod t ms_per_day in
    (
      ap (λ x. at_local x d.offset)
            (to_timestamp_ms-day_start t (pos 0) (pos 0) (pos 0) (pos 0) r midnight (omega arith))
          ∙ local_moment d _ _ (start_sum d.utc_ms o rest),
      ap (λ x. at_local x d.offset)
            (to_timestamp_ms-day_start t (pos 23) (pos 59) (pos 59) _ r last_second milli)
          ∙ local_moment d _ _ (end_sum d.utc_ms o rest),
      (rest_range t).0,
      (rest_range t).1,
    )

utc_start : (u rest : ℤ) → u -ℤ rest +ℤ (pos 0 +ℤ pos 0) ≡ u -ℤ rest
utc_start u rest = eq_of_parts _ _ (omega int_laws)

utc_end :
    (u rest : ℤ)
    → u -ℤ rest +ℤ (pos 86_399_000 +ℤ (ms_per_sec -ℤ pos 1)) ≡ u -ℤ rest +ℤ pos 86_399_999
utc_end u rest = eq_of_parts _ _ (omega int_laws)

-- The same of the UTC day.
pub start_of_utc_day-end_of_utc_day :
    (d : DateTime)
    → IsDayMoment d.utc_ms
    → let rest = floor_mod d.utc_ms ms_per_day in
      (start_of_utc_day d ≡ some (record d { utc_ms = d.utc_ms -ℤ rest }))
      × (end_of_utc_day d ≡ some (record d { utc_ms = d.utc_ms -ℤ rest +ℤ pos 86_399_999 }))
      × (pos 0 ≤ℤ rest)
      × (rest ≤ℤ pos 86_399_999)
unfolding start_of_utc_day end_of_utc_day to_date_time_struct_utc first_ms last_ms at_moment
start_of_utc_day-end_of_utc_day d r =
    let rest = floor_mod d.utc_ms ms_per_day in
    (
      ap (λ x. at_moment x d)
            (to_timestamp_ms-day_start d.utc_ms (pos 0) (pos 0) (pos 0) (pos 0) r midnight
              (omega arith))
          ∙ (λ i. some (record d { utc_ms = utc_start d.utc_ms rest i })),
      ap (λ x. at_moment x d)
            (to_timestamp_ms-day_start d.utc_ms (pos 23) (pos 59) (pos 59) _ r last_second milli)
          ∙ (λ i. some (record d { utc_ms = utc_end d.utc_ms rest i })),
      (rest_range d.utc_ms).0,
      (rest_range d.utc_ms).1,
    )
