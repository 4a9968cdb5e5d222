-- ===== src/Periods/Bounds.antt =====
-- A period that starts at a multiple of its length holds the timestamps from its first to its last
-- second, and no other.
use time_shield_cpp.Base.{ℕ, suc, ◌≡◌, ap, ◌∙◌, arith, false}
use time_shield_cpp.Base.Int.{
  ℤ, pos, pos_part, neg_part, ◌+ℤ◌, ◌-ℤ◌, ◌*ℤ◌, ◌/ℤ◌, ◌≤ℤ◌, ◌<ℤ◌, leb_ℤ, int_laws, eq_of_parts,
}
use time_shield_cpp.Detail.FloorMath.{floor_div, floor_mod, floor_div-floor_mod}
use time_shield_cpp.DateTime.{to_date_time}
use time_shield_cpp.DateTime.Split.{split-floor}
use time_shield_cpp.Periods.{start_of_period, end_of_period, hour_of_day, min_of_day, min_of_hour}

positive : (n : ℕ) → leb_ℤ (pos (suc n)) (pos 0) ≡ false
positive n = ground arith

-- For a positive period, its start is the greatest multiple of it up to the timestamp, and its
-- end is one second before the next multiple and not before the timestamp.
pub start_of_period-end_of_period :
    (n : ℕ) (ts : ℤ)
    → let period = pos (suc n) in
      (start_of_period period ts ≡ floor_div ts period *ℤ period)
      × (start_of_period period ts ≤ℤ ts)
      × (ts ≤ℤ end_of_period period ts)
      × (end_of_period period ts +ℤ pos 1 ≡ start_of_period period ts +ℤ period)
unfolding start_of_period end_of_period
start_of_period-end_of_period n ts =
    let f = floor_div-floor_mod ts (suc n) (omega arith) in
    rw (positive n) (
      place ts (floor_div ts (pos (suc n)) *ℤ pos (suc n)) (floor_mod ts (pos (suc n))) (suc n) f.0
        f.1 f.2)
  where
    place :
        (ts start rest : ℤ) (p : ℕ)
        → ts ≡ start +ℤ rest
        → pos 0 ≤ℤ rest
        → rest <ℤ pos p
        → (ts -ℤ rest ≡ start)
          × (ts -ℤ rest ≤ℤ ts)
          × (ts ≤ℤ ts -ℤ rest +ℤ pos p -ℤ pos 1)
          × (ts -ℤ rest +ℤ pos p -ℤ pos 1 +ℤ pos 1 ≡ ts -ℤ rest +ℤ pos p)
    place ts start rest p e low high = (
      eq_of_parts _ _ (omega (int_laws, ap pos_part e, ap neg_part e)),
      omega int_laws,
      omega int_laws,
      eq_of_parts _ _ (omega int_laws),
    )

-- A number that is `q * b + r` with 0 ≤ r < b.
abbrev IsSplitBy : ℕ → ℤ → ℤ → ℤ → Type 0
IsSplitBy b a q r = (a ≡ q *ℤ pos b +ℤ r) × (pos 0 ≤ℤ r) × (r <ℤ pos b)

hour_of :
    (ts day s hours r day' h : ℤ)
    → IsSplitBy 86400 ts day s
    → IsSplitBy 3600 ts hours r
    → IsSplitBy 24 hours day' h
    → h ≡ s /ℤ pos 3600
hour_of ts day s hours r day' h (e, el, eh) (f, fl, fh) (g, gl, gh) = eq_of_parts _ _ (
    omega (
      int_laws,
      ap pos_part e,
      ap neg_part e,
      ap pos_part f,
      ap neg_part f,
      ap pos_part g,
      ap neg_part g,
    ))

minute_of_day :
    (ts day s mins r day' m : ℤ)
    → IsSplitBy 86400 ts day s
    → IsSplitBy 60 ts mins r
    → IsSplitBy 1440 mins day' m
    → m ≡ s /ℤ pos 60
minute_of_day ts day s mins r day' m (e, el, eh) (f, fl, fh) (g, gl, gh) = eq_of_parts _ _ (
    omega (
      int_laws,
      ap pos_part e,
      ap neg_part e,
      ap pos_part f,
      ap neg_part f,
      ap pos_part g,
      ap neg_part g,
    ))

minute_of_hour :
    (ts day s mins r hours m : ℤ)
    → IsSplitBy 86400 ts day s
    → IsSplitBy 60 ts mins r
    → IsSplitBy 60 mins hours m
    → m ≡ (s -ℤ s /ℤ pos 3600 *ℤ pos 3600) /ℤ pos 60
minute_of_hour ts day s mins r hours m (e, el, eh) (f, fl, fh) (g, gl, gh) = eq_of_parts _ _ (
    omega (
      int_laws,
      ap pos_part e,
      ap neg_part e,
      ap pos_part f,
      ap neg_part f,
      ap pos_part g,
      ap neg_part g,
    ))

minutes_add :
    (s : ℤ)
    → pos 0 ≤ℤ s
    → s /ℤ pos 60 ≡ s /ℤ pos 3600 *ℤ pos 60 +ℤ (s -ℤ s /ℤ pos 3600 *ℤ pos 3600) /ℤ pos 60
minutes_add s h = eq_of_parts _ _ (omega int_laws)

-- The hour of the day and the minutes of the hour and of the day of a timestamp are those of its
-- date and time, before the epoch too.
pub hour_of_day-to_date_time :
    (ts : ℤ)
    → (hour_of_day ts ≡ (to_date_time ts).hour)
      × (min_of_hour ts ≡ (to_date_time ts).min)
      × (min_of_day ts ≡ (to_date_time ts).hour *ℤ pos 60 +ℤ (to_date_time ts).min)
unfolding hour_of_day min_of_hour min_of_day to_date_time
hour_of_day-to_date_time ts = rw (split-floor ts) (
    let split = λ (a : ℤ) (n : ℕ). floor_div-floor_mod a (suc n) (omega arith) in
    let day = split ts 86399 in
    let hours = split ts 3599 in
    let mins = split ts 59 in
    (
      hour_of ts _ _ _ _ _ _ day hours (split (floor_div ts (pos 3600)) 23),
      minute_of_hour ts _ _ _ _ _ _ day mins (split (floor_div ts (pos 60)) 59),
      minute_of_day ts _ _ _ _ _ _ day mins (split (floor_div ts (pos 60)) 1439)
          ∙ minutes_add _ day.1,
    ))
