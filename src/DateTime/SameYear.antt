-- ===== src/DateTime/SameYear.antt =====
-- The timestamps of the dates of one year.
use time_shield_cpp.Base.{◌≤◌, ◌≡◌, refl, ap, subst, ◌∙◌, inl, some, leb, arith}
use time_shield_cpp.Base.Int.{
  ℤ, pos, pos_part, neg_part, ◌+ℤ◌, ◌*ℤ◌, ◌≤ℤ◌, int_laws, parts_disjoint,
}
use time_shield_cpp.Base.Months.{ForMonths, months_elim}
use time_shield_cpp.Calendar.{IsDate}
use time_shield_cpp.Detail.FastDate.{FastDate, split_unix_day, fast_days_from_date_constexpr}
use time_shield_cpp.Detail.FastDate.Order.{IsYear, counted, longest-le}
use time_shield_cpp.Detail.FastDate.Table.{doy_of_month, one_if-le}
use time_shield_cpp.UnixTime.{date_to_unix_day}
use time_shield_cpp.Units.{ms_to_sec, ms_of_ts, sec_to_ms}
use time_shield_cpp.Units.Parts.{ms_to_sec-ms_of_ts}
use time_shield_cpp.Validation.Dates.{InCalendar}
use time_shield_cpp.DateTime.{
  to_date_time, to_date_time_ms, to_timestamp_ms, timestamp_sum, join_ms, map_some,
}
use time_shield_cpp.DateTime.Split.{IsSplit, unix_day-IsSplit}
use time_shield_cpp.DateTime.RoundTrip.{IsTime, to_timestamp-some, to_date_time-InCalendar}
use time_shield_cpp.DateTime.Millis.{join_ms-sum}
use time_shield_cpp.DateTime.Fields.{clock_secs, sum-IsSplit}
use time_shield_cpp.DateTime.MilliFields.{to_date_time_ms-to_timestamp_ms}
use time_shield_cpp.DateTime.Days.{IsDayMoment, seconds-IsInt64}

doy_small : ForMonths (λ m. doy_of_month m ≤ 337)
unfolding doy_of_month
doy_small = record {
  p1 = omega arith;
  p2 = omega arith;
  p3 = omega arith;
  p4 = omega arith;
  p5 = omega arith;
  p6 = omega arith;
  p7 = omega arith;
  p8 = omega arith;
  p9 = omega arith;
  p10 = omega arith;
  p11 = omega arith;
  p12 = omega arith;
}

-- The day numbers of one year are less than 800 apart.
days_apart :
    (a b : FastDate)
    → IsDate a
    → IsDate b
    → a.year ≡ b.year
    → IsYear a.year
    → fast_days_from_date_constexpr a.year a.month a.day
      ≤ℤ fast_days_from_date_constexpr b.year b.month b.day +ℤ pos 800
days_apart a b v w same r =
    let p = counted a v r in
    let q = counted b w (subst IsYear same r) in
    omega (
      int_laws,
      ap pos_part p.number,
      ap neg_part p.number,
      ap pos_part q.number,
      ap neg_part q.number,
      p.year_is,
      q.year_is,
      ap pos_part same,
      ap neg_part same,
      p.day_in,
      q.day_in,
      longest-le p.m,
      longest-le q.m,
      one_if-le (leb p.m 2),
      one_if-le (leb q.m 2),
      months_elim (λ m. doy_of_month m ≤ 337) doy_small p.m p.month_in.0 p.month_in.1,
      months_elim (λ m. doy_of_month m ≤ 337) doy_small q.m q.month_in.0 q.month_in.1,
    )

-- A moment less than 800 days and two from another.
apart :
    (t secs ms stamp k day sec day' clock : ℤ)
    → IsDayMoment t
    → t ≡ secs *ℤ pos 1000 +ℤ ms
    → (pos 0 ≤ℤ ms) × (ms ≤ℤ pos 999)
    → (pos 0 ≤ℤ k) × (k ≤ℤ pos 999)
    → IsSplit secs (record { days = day; sec_of_day = sec })
    → IsSplit stamp (record { days = day'; sec_of_day = clock })
    → day' ≤ℤ day +ℤ pos 800
    → day ≤ℤ day' +ℤ pos 800
    → let x = stamp *ℤ pos 1000 +ℤ k in
      (neg_part x ≤ 9_223_372_036_854_000_000) × (pos_part x ≤ 9_223_372_036_854_000_000)
apart t secs ms stamp k day sec day' clock r e milli_t milli s v after before = (
  omega (
    int_laws,
    ap pos_part e,
    ap neg_part e,
    r.low,
    r.high,
    milli_t,
    milli,
    s.sum,
    s.sec_is,
    s.sec_in,
    v.sum,
    v.sec_is,
    v.sec_in,
    after,
    before,
    parts_disjoint (stamp *ℤ pos 1000 +ℤ k),
  ),
  omega (
    int_laws,
    ap pos_part e,
    ap neg_part e,
    r.low,
    r.high,
    milli_t,
    milli,
    s.sum,
    s.sec_is,
    s.sec_in,
    v.sum,
    v.sec_is,
    v.sec_in,
    after,
    before,
    parts_disjoint (stamp *ℤ pos 1000 +ℤ k),
  ),
)

IsYear-size : (y m d : ℤ) → InCalendar y m d → IsYear y
IsYear-size y m d v = record {
  low = omega (arith, v.low, parts_disjoint y);
  high = omega (arith, v.high, parts_disjoint y);
}

-- A time on a date of the calendar, where it is in range.
date_moment :
    (y m d h mi s k : ℤ)
    → InCalendar y m d
    → d ≤ℤ pos 31
    → IsTime h mi s
    → (pos 0 ≤ℤ k) × (k ≤ℤ pos 999)
    → let x = timestamp_sum y m d h mi s *ℤ pos 1000 +ℤ k in
      (neg_part x ≤ 9_223_372_036_854_000_000) × (pos_part x ≤ 9_223_372_036_854_000_000)
      → (to_timestamp_ms y m d h mi s k ≡ some x)
        × (to_date_time_ms x
            ≡ record { year = y; mon = m; day = d; hour = h; min = mi; sec = s; ms = k })
date_moment y m d h mi s k date short time milli range =
    let stamp = timestamp_sum y m d h mi s in
    let x = stamp *ℤ pos 1000 +ℤ k in
    let found : (to_timestamp_ms y m d h mi s k ≡ some x) =
      unfold to_timestamp_ms in
      (ap (map_some (λ z. join_ms z k))
          ((to_timestamp-some y m d h mi s stamp (inl short)).1 (date, time, refl))
        ∙ ap some (join_ms-sum stamp k milli (omega (arith, range)) (omega (arith, range)))) in
    (
      found,
      to_date_time_ms-to_timestamp_ms y m d h mi s k x (inl short) milli found (record {
        low = omega (arith, range, parts_disjoint x);
        high = omega (arith, range, parts_disjoint x);
      }),
    )

-- For a timestamp far enough from the ends of int64_t and a date in the year of its date, with
-- any time of day, to_timestamp_ms returns a timestamp whose fields are exactly these.
pub to_timestamp_ms_same_year :
    (t m d h mi s k : ℤ)
    → IsDayMoment t
    → let y = (to_date_time_ms t).year in
      InCalendar y m d
      → d ≤ℤ pos 31
      → IsTime h mi s
      → (pos 0 ≤ℤ k) × (k ≤ℤ pos 999)
      → (x : ℤ) × (to_timestamp_ms y m d h mi s k ≡ some x)
        × (to_date_time_ms x
            ≡ record { year = y; mon = m; day = d; hour = h; min = mi; sec = s; ms = k })
unfolding to_date_time_ms date_to_unix_day sec_to_ms
to_timestamp_ms_same_year t m d h mi s k r date short time milli =
    let secs = ms_to_sec t in
    let dt = to_date_time secs in
    let (sum, least, most) = ms_to_sec-ms_of_ts t in
    let (here, day, _) = to_date_time-InCalendar secs (seconds-IsInt64 t r) r.year in
    let size = IsYear-size dt.year m d date in
    let there : FastDate = record { year = dt.year; month = m; day = d } in
    let now : FastDate = record { year = dt.year; month = dt.mon; day = dt.day } in
    let after = days_apart there now date.is_date here.is_date refl size in
    let before = days_apart now there here.is_date date.is_date refl size in
    let n = date_to_unix_day dt.year m d in
    let split = split_unix_day secs in
    let range =
      apart t secs (ms_of_ts t) (timestamp_sum dt.year m d h mi s) k split.days split.sec_of_day n
        (pos (clock_secs h mi s)) r sum (least, omega (arith, most)) milli (unix_day-IsSplit secs)
        (sum-IsSplit dt.year m d h mi s time) (subst (λ z. n ≤ℤ z +ℤ pos 800) day after)
        (subst (λ z. z ≤ℤ n +ℤ pos 800) day before) in
    let (found, fields) = date_moment dt.year m d h mi s k date short time milli range in
    (timestamp_sum dt.year m d h mi s *ℤ pos 1000 +ℤ k, found, fields)

-- The month of a timestamp's date, and its first day.
pub date_of :
    (t : ℤ) → IsDayMoment t → let dt = to_date_time_ms t in InCalendar dt.year dt.mon dt.day
unfolding to_date_time_ms
date_of t r = (to_date_time-InCalendar (ms_to_sec t) (seconds-IsInt64 t r) r.year).0
