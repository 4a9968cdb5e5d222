-- ===== src/CalendarPeriods/YearStart.antt =====
-- The start of the year of a timestamp from 1970 to 2099, and the day of the year.
use native.Mathlib.Decide.{dec_lt}
use time_shield_cpp.Base.{
  ℕ, ◌+◌, ◌-◌, ◌*◌, ◌/◌, ◌≤◌, ◌<◌, ◌≡◌, ap, ◌∙◌, subst, true, ◌&&◌, arith, Bool-cases, inl, inr,
}
use time_shield_cpp.Base.Int.{
  ℤ, pos, pos_part, neg_part, ◌+ℤ◌, ◌-ℤ◌, ◌*ℤ◌, ◌/ℤ◌, ◌≤ℤ◌, ◌<ℤ◌, leb_ℤ, ltb_ℤ, int_laws,
  eq_of_parts, parts_disjoint,
}
use time_shield_cpp.Constants.{sec_per_100_years}
use time_shield_cpp.Detail.FloorMath.{floor_div, floor_mod, floor_div-floor_mod}
use time_shield_cpp.Detail.FastDate.{split_unix_day, fast_date_from_days}
use time_shield_cpp.Detail.FastDate.RoundTrip.{IsUnixDay, fast_days-from_days, fast_date-year}
use time_shield_cpp.Detail.FastDate.Order.{IsYear, years_mono}
use time_shield_cpp.Detail.FastDate.Days.{days_of_years}
use time_shield_cpp.UnixTime.{date_to_unix_day, unix_day_to_ts}
use time_shield_cpp.DateTime.{to_date_time}
use time_shield_cpp.DateTime.Split.{unix_day-IsSplit}
use time_shield_cpp.IsoWeek.Year.{InYear, date-InYear, january, years_before, epoch}
use time_shield_cpp.CalendarPeriods.{
  centuries_loop, start_of_recent_year, start_of_year, day_of_year,
}

-- What is left after the loop is less than a century, so that its three rounds are enough.
centuries_loop-less :
    (secs start_ts : ℤ)
    → pos 0 ≤ℤ secs
    → secs <ℤ pos 9_467_020_800
    → (pos 0 ≤ℤ (centuries_loop 3 secs start_ts).0)
      × ((centuries_loop 3 secs start_ts).0 <ℤ sec_per_100_years)
unfolding centuries_loop ◌+ℤ◌ ◌-ℤ◌
centuries_loop-less secs start_ts l h = ground arith

-- The first day of the `i`-th year of the `q`-th block of four years from 1970 on.
block_day : ℕ → ℕ → ℕ
block_day q i = 1461 * q + 365 * i + i / 3

year_start :
    (q i : ℕ)
    → 4 * q + i ≤ 130
    → i ≤ 4
    → days_of_years (3_000_000_000_000 + 1970 + 4 * q + i - 1) + 307 ≡ block_day q i + epoch
unfolding block_day
year_start q i h k = omega arith

-- A year is told by one of its days.
year_of_day :
    (n q i : ℕ) (y : ℤ)
    → InYear (pos n) y
    → IsYear y
    → 4 * q + i ≤ 129
    → i ≤ 3
    → block_day q i ≤ n
    → n < block_day q (i + 1)
    → y ≡ pos (1970 + 4 * q + i)
year_of_day n q i y v r few in_block low high =
    let place = 3_000_000_000_000 + 1970 + 4 * q + i in
    let first = year_start q i (omega arith) (omega arith) in
    let next = year_start q (i + 1) (omega arith) (omega arith) in
    let same : (years_before y ≡ place) = elim (dec_lt (years_before y) place) [
      | yes early ↦ absurd (
          omega (
            int_laws,
            ap pos_part v.count,
            ap neg_part v.count,
            v.high,
            first,
            low,
            years_mono (years_before y) (place - 1) (omega arith),
          ))
      | no not_early ↦ elim (dec_lt place (years_before y)) [
        | yes late ↦ absurd (
            omega (
              int_laws,
              ap pos_part v.count,
              ap neg_part v.count,
              v.low,
              next,
              high,
              years_mono (3_000_000_000_000 + 1970 + 4 * q + (i + 1) - 1) (years_before y - 1)
                  (omega arith),
            ))
        | no not_late ↦ omega arith
      ]
    ] in
    eq_of_parts _ _ (omega (arith, same, r.low, r.high, parts_disjoint y))

-- The year of a timestamp by its block of four years.
record InBlock (ts : ℤ) (n : ℕ) : Type 0 where
  q : ℕ
  i : ℕ
  few : 4 * q + i ≤ 129
  in_block : i ≤ 3
  low : block_day q i ≤ n
  high : n < block_day q (i + 1)
  start : start_of_recent_year ts ≡ pos (86400 * block_day q i)

rest-InBlock :
    (ts : ℤ) (n sec q i rest : ℕ)
    → pos_part ts ≡ 86400 * n + sec
    → sec < 86400
    → pos_part ts ≡ q * 126_230_400 + rest
    → (86400 * (365 * i + i / 3) ≤ rest) × (rest < 86400 * (365 * (i + 1) + (i + 1) / 3))
    → (4 * q + i ≤ 129) × (i ≤ 3)
    → start_of_recent_year ts ≡ pos (86400 * (1461 * q + 365 * i + i / 3))
    → InBlock ts n
unfolding block_day
rest-InBlock ts n sec q i rest e s f (low, high) (few, in_block) start = record {
  q = q;
  i = i;
  few = few;
  in_block = in_block;
  low = omega arith;
  high = omega arith;
  start = start;
}

recent-InBlock :
    (ts : ℤ) (n sec : ℕ)
    → pos 0 ≤ℤ ts
    → ts <ℤ pos 4_102_444_800
    → pos_part ts ≡ 86400 * n + sec
    → sec < 86400
    → InBlock ts n
unfolding start_of_recent_year
recent-InBlock ts n sec l h e s =
    let f = floor_div-floor_mod ts 126_230_400 (omega arith) in
    let r = floor_mod ts (pos 126_230_400) in
    let rest = pos_part r in
    let q = pos_part (floor_div ts (pos 126_230_400)) in
    let split : ((pos_part ts ≡ q * 126_230_400 + rest)
        × (rest < 126_230_400)
        × (neg_part r ≡ 0)
        × (neg_part ts ≡ 0)) =
      omega (int_laws, ap pos_part f.0, ap neg_part f.0, f.1, f.2, l, h, parts_disjoint ts) in
    let years = pos 31_536_000 *ℤ pos 2 in
    let two : (years ≡ pos 63_072_000) = eq_of_parts _ _ (omega int_laws) in
    let three : (years +ℤ pos 31_622_400 ≡ pos 94_694_400) = eq_of_parts _ _ (omega int_laws) in
    elim (Bool-cases (ltb_ℤ r (pos 31_536_000))) [
      | inl a ↦
          let lt : (rest < 31_536_000) = ground (arith, a) in
          rest-InBlock ts n sec q 0 rest e s split.0 (omega arith, omega arith)
            (omega (arith, split, h), omega arith)
            (rw a (eq_of_parts _ _ (omega (int_laws, split))))
      | inr b ↦
          let ge : (31_536_000 ≤ rest) = ground (arith, b, split) in
          elim (Bool-cases (ltb_ℤ r years)) [
            | inl a ↦
                let lt : (rest < 63_072_000) = ground (arith, a, two) in
                rest-InBlock ts n sec q 1 rest e s split.0 (omega arith, omega arith)
                  (omega (arith, split, h), omega arith)
                  (rw (b, a) (eq_of_parts _ _ (omega (int_laws, split))))
            | inr c ↦
                let ge2 : (63_072_000 ≤ rest) = ground (arith, c, two, split) in
                elim (Bool-cases (ltb_ℤ r (years +ℤ pos 31_622_400))) [
                  | inl a ↦
                      let lt : (rest < 94_694_400) = ground (arith, a, three) in
                      rest-InBlock ts n sec q 2 rest e s split.0 (omega arith, omega arith)
                        (omega (arith, split, h), omega arith)
                        (rw (b, c, a) (eq_of_parts _ _ (omega (int_laws, split))))
                  | inr d ↦
                      let ge3 : (94_694_400 ≤ rest) = ground (arith, d, three, split) in
                      rest-InBlock ts n sec q 3 rest e s split.0 (omega arith, omega (arith, split))
                        (omega (arith, split, h), omega arith)
                        (rw (b, c, d) (eq_of_parts _ _ (omega (int_laws, split))))
                ]
          ]
    ]

recent_tests :
    (ts : ℤ)
    → pos 0 ≤ℤ ts
    → ts <ℤ pos 4_102_444_800
    → (leb_ℤ (pos 0) ts && ltb_ℤ ts (pos 4_102_444_800)) ≡ true
recent_tests ts l h = ground arith

day_after_start :
    (ts start day : ℤ) (n sec b : ℕ)
    → pos_part ts ≡ 86400 * n + sec
    → sec < 86400
    → pos 0 ≤ℤ ts
    → day ≡ pos n
    → start ≡ pos b
    → b ≤ n
    → (ts -ℤ start *ℤ pos 86400) /ℤ pos 86400 +ℤ pos 1 ≡ day -ℤ start +ℤ pos 1
day_after_start ts start day n sec b e s l d st le =
    rw (d, st) (eq_of_parts _ _ (omega (int_laws, parts_disjoint ts)))

-- For a timestamp from 1970 to 2099, the start of its year is midnight of January 1 of the year
-- of its date, and the day of the year counts from there.
pub start_of_year-january :
    (ts : ℤ)
    → pos 0 ≤ℤ ts
    → ts <ℤ pos 4_102_444_800
    → let first = date_to_unix_day (to_date_time ts).year (pos 1) (pos 1) in
      (start_of_year ts ≡ unix_day_to_ts first)
      × (day_of_year ts ≡ (split_unix_day ts).days -ℤ first +ℤ pos 1)
unfolding start_of_year day_of_year date_to_unix_day unix_day_to_ts to_date_time
start_of_year-january ts l h =
    let split = unix_day-IsSplit ts in
    let day = (split_unix_day ts).days in
    let n = pos_part day in
    let sec = pos_part (split_unix_day ts).sec_of_day in
    let parts : ((pos_part ts ≡ 86400 * n + sec) × (sec < 86400) × (neg_part day ≡ 0)) =
      omega
        (arith, split.sum, split.sec_is, split.sec_in, l, parts_disjoint ts, parts_disjoint day) in
    let day_is : (day ≡ pos n) = eq_of_parts _ _ (omega (arith, parts)) in
    let unix : IsUnixDay day = record {
      low = omega (arith, parts);
      high = omega (arith, parts, h);
    } in
    let (date, number) = fast_days-from_days day unix in
    let t = fast_date_from_days day in
    let range = fast_date-year day unix in
    let r : IsYear t.year = record { low = omega (arith, range); high = omega (arith, range) } in
    let v : InYear (pos n) t.year =
      subst (λ d. InYear d t.year) (number ∙ day_is) (date-InYear t date r) in
    let b = recent-InBlock ts n sec l h parts.0 parts.1 in
    let y = year_of_day n b.q b.i t.year v r b.few b.in_block b.low b.high in
    let block = block_day b.q b.i in
    let place = ap (λ z. days_of_years (years_before z - 1)) y in
    let closed = year_start b.q b.i (omega (arith, b.few)) (omega (arith, b.in_block)) in
    let first : (date_to_unix_day t.year (pos 1) (pos 1) ≡ pos block) =
      january t.year 1 r (omega arith, omega arith)
      ∙ eq_of_parts _ _ (omega (int_laws, place, closed)) in
    let start : (start_of_year ts ≡ date_to_unix_day t.year (pos 1) (pos 1) *ℤ pos 86400) =
      rw (recent_tests ts l h, b.start, first) (eq_of_parts _ _ (omega int_laws)) in
    (
      start,
      ap (λ z. (ts -ℤ z) /ℤ pos 86400 +ℤ pos 1) start
          ∙ day_after_start ts _ day n sec block parts.0 parts.1 l day_is first b.low,
    )
