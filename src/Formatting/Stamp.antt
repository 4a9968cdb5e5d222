-- ===== src/Formatting/Stamp.antt =====
-- Dates with a time of day by numbers that are not negative, as they come from timestamps.
use time_shield_cpp.Base.{ℕ, ◌≤◌, ◌≡◌, refl, ap, sym, inl, true, arith}
use time_shield_cpp.Base.Int.{ℤ, pos, negsuc, pos_part, neg_part, ◌≤ℤ◌, parts_disjoint, int_laws}
use time_shield_cpp.Calendar.{IsDate, days_in_month}
use time_shield_cpp.Detail.FastDate.{FastDate, split_unix_day}
use time_shield_cpp.Detail.FastDate.RoundTrip.{fast_days-from_days}
use time_shield_cpp.Units.{ms_to_sec, ms_of_ts, sec_to_ms}
use time_shield_cpp.Units.Parts.{ms_to_sec-ms_of_ts}
use time_shield_cpp.Validation.{is_valid_date, is_valid_time, is_valid_date_time}
use time_shield_cpp.Validation.Dates.{is_valid_date-InCalendar}
use time_shield_cpp.DateTime.{DateTimeStruct, to_date_time, to_date_time_ms}
use time_shield_cpp.DateTime.Split.{IsInt64, split-IsUnixDay}
use time_shield_cpp.DateTime.RoundTrip.{IsTime, to_date_time-IsTime, date-month_day}

abbrev pub stamp : ℕ → ℕ → ℕ → ℕ → ℕ → ℕ → ℕ → DateTimeStruct
stamp y m d h mi s ms = record {
  year = pos y;
  mon = pos m;
  day = pos d;
  hour = pos h;
  min = pos mi;
  sec = pos s;
  ms = pos ms;
}

-- A valid date and time from 1000 to 9999.
pub record IsStamp (y m d h mi s ms : ℕ) : Type 0 where
  pub year_in : (1000 ≤ y) × (y ≤ 9999)
  pub two_digits : (m ≤ 12) × (d ≤ 31) × (h ≤ 23) × (mi ≤ 59) × (s ≤ 59)
  pub ms_in : ms ≤ 999
  pub date_valid : is_valid_date (pos y) (pos m) (pos d) ≡ true
  pub valid : is_valid_date_time (pos y) (pos m) (pos d) (pos h) (pos mi) (pos s) (pos ms) ≡ true

pub record HasStamp (dt : DateTimeStruct) : Type 0 where
  pub y : ℕ
  pub m : ℕ
  pub d : ℕ
  pub h : ℕ
  pub mi : ℕ
  pub s : ℕ
  pub ms : ℕ
  pub same : dt ≡ stamp y m d h mi s ms
  pub is_stamp : IsStamp y m d h mi s ms

pub nonneg : (a : ℤ) → pos 0 ≤ℤ a → a ≡ pos (pos_part a)
nonneg (pos n) h = refl
nonneg (negsuc n) h = absurd (omega arith)

pub within :
    (a : ℤ) (low high : ℕ)
    → (pos low ≤ℤ a) × (a ≤ℤ pos high)
    → (low ≤ pos_part a) × (pos_part a ≤ high)
within a low high r = omega (arith, r, parts_disjoint a)

time_valid :
    (h mi s ms : ℕ)
    → (h ≤ 23) × (mi ≤ 59) × (s ≤ 59) × (ms ≤ 999)
    → is_valid_time (pos h) (pos mi) (pos s) (pos ms) ≡ true
unfolding is_valid_time
time_valid h mi s ms r = ground arith

both_valid :
    (y m d h mi s ms : ℤ)
    → is_valid_date y m d ≡ true
    → is_valid_time h mi s ms ≡ true
    → is_valid_date_time y m d h mi s ms ≡ true
unfolding is_valid_date_time
both_valid y m d h mi s ms p q = rw (p, q) refl

short_month : (t : FastDate) → (v : IsDate t) → v.d ≤ 31
unfolding days_in_month
short_month t v = ground (arith, v.day_in)

in_calendar :
    (y : ℤ) (t : FastDate)
    → IsDate t
    → t.year ≡ y
    → (pos 1000 ≤ℤ y) × (y ≤ℤ pos 9999)
    → is_valid_date y t.month t.day ≡ true
in_calendar y t v same r = rw (sym same) (
    (is_valid_date-InCalendar t.year t.month t.day (inl (date-month_day t v))).1 (
      let low = ap pos_part same in
      let lowest = ap neg_part same in
      record { is_date = v; low = omega (arith, r); high = omega (arith, r) }))

module _ (dt : DateTimeStruct)
    (v : IsDate (record { year = dt.year; month = dt.mon; day = dt.day }))
    (year : (pos 1000 ≤ℤ dt.year) × (dt.year ≤ℤ pos 9999)) (time : IsTime dt.hour dt.min dt.sec)
    (ms : (pos 0 ≤ℤ dt.ms) × (dt.ms ≤ℤ pos 999)) where
  same_stamp :
      dt
      ≡ stamp
          (pos_part dt.year)
          v.m
          v.d
          (pos_part dt.hour)
          (pos_part dt.min)
          (pos_part dt.sec)
          (pos_part dt.ms)
  same_stamp =
      let y = nonneg dt.year (omega (arith, year)) in
      let h = nonneg dt.hour time.hour_in.0 in
      let mi = nonneg dt.min time.min_in.0 in
      let s = nonneg dt.sec time.sec_in.0 in
      let k = nonneg dt.ms ms.0 in
      λ i. record {
        year = y i;
        mon = v.month_is i;
        day = v.day_is i;
        hour = h i;
        min = mi i;
        sec = s i;
        ms = k i;
      }

  date_valid : is_valid_date (pos (pos_part dt.year)) (pos v.m) (pos v.d) ≡ true
  date_valid =
      let y = nonneg dt.year (omega (arith, year)) in
      rw (sym y, sym v.month_is, sym v.day_is) (in_calendar dt.year _ v refl year)

  stamp_of : HasStamp dt
  stamp_of = record {
    y = pos_part dt.year;
    m = v.m;
    d = v.d;
    h = pos_part dt.hour;
    mi = pos_part dt.min;
    s = pos_part dt.sec;
    ms = pos_part dt.ms;
    same = same_stamp;
    is_stamp = record {
      year_in = within dt.year 1000 9999 year;
      two_digits = (
        v.month_in.1,
        short_month _ v,
        (within dt.hour 0 23 time.hour_in).1,
        (within dt.min 0 59 time.min_in).1,
        (within dt.sec 0 59 time.sec_in).1,
      );
      ms_in = (within dt.ms 0 999 ms).1;
      date_valid = date_valid;
      valid = both_valid _ _ _ _ _ _ _ date_valid (
          time_valid (pos_part dt.hour) (pos_part dt.min) (pos_part dt.sec) (pos_part dt.ms) (
            (within dt.hour 0 23 time.hour_in).1,
            (within dt.min 0 59 time.min_in).1,
            (within dt.sec 0 59 time.sec_in).1,
            (within dt.ms 0 999 ms).1,
          ));
    };
  }

abbrev pub FourDigitYear : ℤ → Type 0
FourDigitYear year = (pos 1000 ≤ℤ year) × (year ≤ℤ pos 9999)

-- The date and time of a timestamp, with milliseconds added.
with_ms :
    (ts ms : ℤ)
    → IsInt64 ts
    → FourDigitYear (to_date_time ts).year
    → (pos 0 ≤ℤ ms) × (ms ≤ℤ pos 999)
    → HasStamp (record (to_date_time ts) { ms = ms })
unfolding to_date_time
with_ms ts ms r year ms_in =
    stamp_of (record (to_date_time ts) { ms = ms })
      (fast_days-from_days (split_unix_day ts).days (split-IsUnixDay ts r)).0 year
      (to_date_time-IsTime ts).0 ms_in

pub to_date_time-HasStamp :
    (ts : ℤ) → IsInt64 ts → FourDigitYear (to_date_time ts).year → HasStamp (to_date_time ts)
unfolding to_date_time
to_date_time-HasStamp ts r year = with_ms ts (pos 0) r year (omega arith)

pub to_date_time_ms-HasStamp :
    (ts_ms : ℤ)
    → IsInt64 ts_ms
    → FourDigitYear (to_date_time_ms ts_ms).year
    → HasStamp (to_date_time_ms ts_ms)
unfolding to_date_time_ms sec_to_ms
to_date_time_ms-HasStamp ts_ms r year =
    let (sum, least, most) = ms_to_sec-ms_of_ts ts_ms in
    let small : IsInt64 (ms_to_sec ts_ms) = record {
      low = omega (
        int_laws,
        ap pos_part sum,
        ap neg_part sum,
        least,
        most,
        parts_disjoint (ms_to_sec ts_ms),
      );
      high = omega (
        int_laws,
        ap pos_part sum,
        ap neg_part sum,
        least,
        most,
        parts_disjoint (ms_to_sec ts_ms),
      );
    } in
    with_ms (ms_to_sec ts_ms) (ms_of_ts ts_ms) small year (least, omega (arith, most))
