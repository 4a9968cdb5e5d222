-- ===== src/DateTime/Fields.antt =====
-- A valid date and time is recovered from its timestamp.
use time_shield_cpp.Base.{ℕ, ◌+◌, ◌*◌, ◌≡◌, refl, sym, ap, ◌∙◌, subst, ◌⊎◌, ◌↔◌, some, arith}
use time_shield_cpp.Base.Int.{
  ℤ, pos, negsuc, ◌≤ℤ◌, ◌<ℤ◌, pos_part, neg_part, ◌-ℤ◌, ◌*ℤ◌, ◌/ℤ◌, int_laws, eq_of_parts,
  parts_disjoint,
}
use time_shield_cpp.Detail.FastDate.{DaySplit, split_unix_day, fast_date_from_days}
use time_shield_cpp.Detail.FastDate.Order.{IsYear}
use time_shield_cpp.Detail.FastDate.RoundTrip.{IsUnixDay}
use time_shield_cpp.Detail.FastDate.Walk.{fast_date-fast_days}
use time_shield_cpp.UnixTime.{date_to_unix_day}
use time_shield_cpp.Validation.Dates.{InCalendar}
use time_shield_cpp.DateTime.{
  DateTimeStruct, to_date_time, timestamp_sum, to_timestamp, dt_to_timestamp,
}
use time_shield_cpp.Constants.{max_year}
use time_shield_cpp.DateTime.Split.{IsInt64, IsSplit, unix_day-IsSplit, split-IsUnixDay}
use time_shield_cpp.DateTime.RoundTrip.{
  IsTime, times_left, to_timestamp-some, dt_to_timestamp-to_date_time,
}

pub split_unique :
    (ts : ℤ) (day sec : ℤ)
    → IsSplit ts (record { days = day; sec_of_day = sec })
    → split_unix_day ts ≡ record { days = day; sec_of_day = sec }
split_unique ts day sec v =
    let s = unix_day-IsSplit ts in
    let d : ((split_unix_day ts).days ≡ day) = eq_of_parts _ _ (
      omega (
        arith,
        s.sum,
        s.sec_is,
        s.sec_in,
        v.sum,
        v.sec_is,
        v.sec_in,
        parts_disjoint day,
        parts_disjoint (split_unix_day ts).days,
      )) in
    let r : ((split_unix_day ts).sec_of_day ≡ sec) = eq_of_parts _ _ (
      omega (
        arith,
        s.sum,
        s.sec_is,
        s.sec_in,
        v.sum,
        v.sec_is,
        v.sec_in,
        ap pos_part d,
        ap neg_part d,
      )) in
    λ i. record { days = d i; sec_of_day = r i }

-- The seconds of a time of day.
abbrev pub clock_secs : ℤ → ℤ → ℤ → ℕ
clock_secs h mi s = pos_part h * 3600 + pos_part mi * 60 + pos_part s

pub sum-IsSplit :
    (y m d h mi s : ℤ)
    → IsTime h mi s
    → IsSplit
        (timestamp_sum y m d h mi s)
        (record { days = date_to_unix_day y m d; sec_of_day = pos (clock_secs h mi s) })
unfolding timestamp_sum
sum-IsSplit y m d h mi s t =
    rw (times_left 3600 h, times_left 60 mi)
      (record {
        sum = omega (
          int_laws,
          t.hour_in,
          t.min_in,
          t.sec_in,
          parts_disjoint h,
          parts_disjoint mi,
          parts_disjoint s,
        );
        sec_is = omega arith;
        sec_in = omega (
          arith,
          t.hour_in,
          t.min_in,
          t.sec_in,
          parts_disjoint h,
          parts_disjoint mi,
          parts_disjoint s,
        );
      })

clock_fields :
    (h mi s : ℤ)
    → IsTime h mi s
    → let secs = pos (clock_secs h mi s) in
      let hour = secs /ℤ pos 3600 in
      let min_secs = secs -ℤ hour *ℤ pos 3600 in
      let min = min_secs /ℤ pos 60 in (hour ≡ h) × (min ≡ mi) × (min_secs -ℤ min *ℤ pos 60 ≡ s)
clock_fields h mi s t =
    let secs = pos (clock_secs h mi s) in
    let hour : (secs /ℤ pos 3600 ≡ h) = eq_of_parts _ _ (
      omega (
        int_laws,
        t.hour_in,
        t.min_in,
        t.sec_in,
        parts_disjoint h,
        parts_disjoint mi,
        parts_disjoint s,
      )) in
    let min : ((secs -ℤ h *ℤ pos 3600) /ℤ pos 60 ≡ mi) = eq_of_parts _ _ (
      omega (
        int_laws,
        t.hour_in,
        t.min_in,
        t.sec_in,
        parts_disjoint h,
        parts_disjoint mi,
        parts_disjoint s,
      )) in
    let sec : (secs -ℤ h *ℤ pos 3600 -ℤ mi *ℤ pos 60 ≡ s) = eq_of_parts _ _ (
      omega (
        int_laws,
        t.hour_in,
        t.min_in,
        t.sec_in,
        parts_disjoint h,
        parts_disjoint mi,
        parts_disjoint s,
      )) in
    rw (hour, min) (refl, refl, sec)

-- For a date of the calendar from MIN_YEAR to MAX_YEAR and a time of day whose sum is a 64-bit
-- timestamp, to_date_time gives the date and the time back.
pub to_date_time-timestamp_sum :
    (y m d h mi s : ℤ)
    → InCalendar y m d
    → IsTime h mi s
    → IsInt64 (timestamp_sum y m d h mi s)
    → to_date_time (timestamp_sum y m d h mi s)
      ≡ record { year = y; mon = m; day = d; hour = h; min = mi; sec = s; ms = pos 0 }
unfolding to_date_time date_to_unix_day
to_date_time-timestamp_sum y m d h mi s v t r =
    let ts = timestamp_sum y m d h mi s in
    let split = split_unique ts _ _ (sum-IsSplit y m d h mi s t) in
    let unix = subst (λ (x : DaySplit). IsUnixDay x.days) split (split-IsUnixDay ts r) in
    let size : IsYear y = record {
      low = omega (arith, v.low, parts_disjoint y);
      high = omega (arith, v.high, parts_disjoint y);
    } in
    let date : (fast_date_from_days (date_to_unix_day y m d)
        ≡ record { year = y; month = m; day = d }) =
      fast_date-fast_days (record { year = y; month = m; day = d }) v.is_date size unix in
    let (hour, min, sec) = clock_fields h mi s t in
    rw (split, date)
      (λ i. record {
        year = y;
        mon = m;
        day = d;
        hour = hour i;
        min = min i;
        sec = sec i;
        ms = pos 0;
      })

-- Where no reading takes the day for a year, as the day is at most 31 or the year above 31, and
-- for a timestamp from -9223372036854720000 on that int64_t has, to_timestamp returns it exactly
-- if the fields are a date of the calendar from MIN_YEAR to MAX_YEAR and a time of day, and are
-- what to_date_time makes of the timestamp.
pub to_timestamp-to_date_time :
    (y m d h mi s ts : ℤ)
    → (d ≤ℤ pos 31) ⊎ (pos 31 <ℤ y)
    → (negsuc 9_223_372_036_854_719_999 ≤ℤ ts) × (ts ≤ℤ pos 9_223_372_036_854_775_807)
    → (to_timestamp y m d h mi s ≡ some ts) ↔ (
        InCalendar y m d
        × IsTime h mi s
        × (to_date_time ts
            ≡ record { year = y; mon = m; day = d; hour = h; min = mi; sec = s; ms = pos 0 }))
unfolding dt_to_timestamp
to_timestamp-to_date_time y m d h mi s ts le range =
    let fields : DateTimeStruct = record {
      year = y;
      mon = m;
      day = d;
      hour = h;
      min = mi;
      sec = s;
      ms = pos 0;
    } in
    let r : IsInt64 ts = record {
      low = omega (arith, range, parts_disjoint ts);
      high = omega (arith, range, parts_disjoint ts);
    } in
    (
      λ e.
          let (v, t, sum) = (to_timestamp-some y m d h mi s ts le).0 e in
          let back = to_date_time-timestamp_sum y m d h mi s v t (subst IsInt64 sum r) in
          (v, t, ap to_date_time sum ∙ back),
      λ (v, t, e).
          let year : ((to_date_time ts).year ≤ℤ max_year) =
            subst (λ (x : DateTimeStruct). x.year ≤ℤ max_year) (sym e) v.high in
          subst (λ x. dt_to_timestamp x ≡ some ts) e (dt_to_timestamp-to_date_time ts r year),
    )
