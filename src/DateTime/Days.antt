-- ===== src/DateTime/Days.antt =====
-- The timestamps of the times of a day, counted from its first millisecond.
use time_shield_cpp.Base.{ℕ, ◌*◌, ◌≤◌, ◌≡◌, refl, ap, subst, ◌∙◌, inl, some, arith}
use time_shield_cpp.Base.Int.{
  ℤ, pos, negsuc, pos_part, neg_part, ◌+ℤ◌, ◌-ℤ◌, ◌*ℤ◌, ◌≤ℤ◌, int_laws, eq_of_parts, parts_disjoint,
}
use time_shield_cpp.Constants.{ms_per_day, max_year}
use time_shield_cpp.Detail.FloorMath.{floor_div, floor_mod, floor_div-floor_mod}
use time_shield_cpp.Detail.FastDate.{split_unix_day}
use time_shield_cpp.Units.{ms_to_sec, ms_of_ts, sec_to_ms}
use time_shield_cpp.Units.Parts.{ms_to_sec-ms_of_ts}
use time_shield_cpp.DateTime.{
  to_date_time, to_date_time_ms, to_timestamp_ms, timestamp_sum, join_ms, map_some, int64_max,
}
use time_shield_cpp.DateTime.Split.{IsInt64, IsSplit, unix_day-IsSplit}
use time_shield_cpp.DateTime.RoundTrip.{IsTime, to_timestamp-some, to_date_time-InCalendar}
use time_shield_cpp.DateTime.Millis.{join_ms-sum}
use time_shield_cpp.DateTime.Fields.{clock_secs, sum-IsSplit}

-- A timestamp in milliseconds from which a day's length leads to no overflow.
pub record IsDayMoment (t : ℤ) : Type 0 where
  pub low : neg_part t ≤ 9_200_000_000_000_000_000
  pub high : pos_part t ≤ 9_200_000_000_000_000_000
  pub year : (to_date_time_ms t).year ≤ℤ max_year

pub seconds-IsInt64 : (t : ℤ) → IsDayMoment t → IsInt64 (ms_to_sec t)
unfolding sec_to_ms
seconds-IsInt64 t r =
    let (sum, least, most) = ms_to_sec-ms_of_ts t in
    record {
      low = omega (
        int_laws,
        ap pos_part sum,
        ap neg_part sum,
        least,
        most,
        r.low,
        r.high,
        parts_disjoint (ms_to_sec t),
      );
      high = omega (
        int_laws,
        ap pos_part sum,
        ap neg_part sum,
        least,
        most,
        r.low,
        r.high,
        parts_disjoint (ms_to_sec t),
      );
    }

-- The first millisecond of the day.
abbrev pub day_start : ℤ → ℤ
day_start t = t -ℤ floor_mod t ms_per_day

-- A time on the day with the number `day` of a timestamp.
place :
    (t secs ms day sec sum k : ℤ) (clock : ℕ)
    → t ≡ secs *ℤ pos 1000 +ℤ ms
    → (pos 0 ≤ℤ ms) × (ms ≤ℤ pos 999)
    → IsSplit secs (record { days = day; sec_of_day = sec })
    → IsSplit sum (record { days = day; sec_of_day = pos clock })
    → (pos 0 ≤ℤ k) × (k ≤ℤ pos 999)
    → sum *ℤ pos 1000 +ℤ k ≡ day_start t +ℤ (pos (clock * 1000) +ℤ k)
place t secs ms day sec sum k clock e r s v h =
    let f = floor_div-floor_mod t 86_400_000 (omega arith) in
    eq_of_parts _ _ (
      omega (
        int_laws,
        ap pos_part e,
        ap neg_part e,
        ap pos_part f.0,
        ap neg_part f.0,
        f.1,
        f.2,
        r,
        s.sum,
        s.sec_is,
        s.sec_in,
        v.sum,
        parts_disjoint day,
        parts_disjoint (floor_div t (pos 86_400_000)),
      ))

near :
    (t x k : ℤ) (clock : ℕ)
    → IsDayMoment t
    → x ≡ day_start t +ℤ (pos (clock * 1000) +ℤ k)
    → clock ≤ 86399
    → (pos 0 ≤ℤ k) × (k ≤ℤ pos 999)
    → (negsuc 9_223_372_036_854_774_999 ≤ℤ x) × (x ≤ℤ int64_max)
near t x k clock r e small milli =
    let f = floor_div-floor_mod t 86_400_000 (omega arith) in
    (
      omega (int_laws, ap pos_part e, ap neg_part e, f.1, f.2, r.low, r.high, small, milli),
      omega (int_laws, ap pos_part e, ap neg_part e, f.1, f.2, r.low, r.high, small, milli),
    )

pub clock_small : (h mi s : ℤ) → IsTime h mi s → clock_secs h mi s ≤ 86399
clock_small h mi s t =
    omega
      (arith, t.hour_in, t.min_in, t.sec_in, parts_disjoint h, parts_disjoint mi, parts_disjoint s)

-- For a timestamp whose day leaves the range of int64_t nowhere, to_timestamp_ms at a time of day
-- on its date is the day's first millisecond and the time of day.
pub to_timestamp_ms-day_start :
    (t h mi s k : ℤ)
    → IsDayMoment t
    → IsTime h mi s
    → (pos 0 ≤ℤ k) × (k ≤ℤ pos 999)
    → let dt = to_date_time_ms t in
      to_timestamp_ms dt.year dt.mon dt.day h mi s k
      ≡ some (day_start t +ℤ (pos (clock_secs h mi s * 1000) +ℤ k))
unfolding to_timestamp_ms to_date_time_ms
to_timestamp_ms-day_start t h mi s k r time milli =
    let secs = ms_to_sec t in
    let dt = to_date_time secs in
    let (sum, least, most) = ms_to_sec-ms_of_ts t in
    let e : (t ≡ secs *ℤ pos 1000 +ℤ ms_of_ts t) = unfold sec_to_ms in sum in
    let in_range : ((pos 0 ≤ℤ ms_of_ts t) × (ms_of_ts t ≤ℤ pos 999)) =
      (least, omega (arith, most)) in
    let (date, day, short) = to_date_time-InCalendar secs (seconds-IsInt64 t r) r.year in
    let stamp = timestamp_sum dt.year dt.mon dt.day h mi s in
    let split : IsSplit stamp
        (record { days = (split_unix_day secs).days; sec_of_day = pos (clock_secs h mi s) }) =
      subst (λ n. IsSplit stamp (record { days = n; sec_of_day = pos (clock_secs h mi s) })) day
        (sum-IsSplit dt.year dt.mon dt.day h mi s time) in
    let there =
      place t secs (ms_of_ts t) (split_unix_day secs).days (split_unix_day secs).sec_of_day stamp k
        (clock_secs h mi s) e in_range (unix_day-IsSplit secs) split milli in
    let range = near t _ k (clock_secs h mi s) r there (clock_small h mi s time) milli in
    ap (map_some (λ x. join_ms x k))
      ((to_timestamp-some dt.year dt.mon dt.day h mi s stamp (inl short)).1 (date, time, refl))
    ∙ ap some (join_ms-sum stamp k milli range.0 range.1 ∙ there)
