-- ===== src/DateTimeClass/Periods.antt =====
-- The first and the last millisecond of the local month and year of a DateTime.
use time_shield_cpp.Base.{ℕ, ◌≤◌, ◌≡◌, refl, ap, ◌∙◌, Option, some, arith}
use time_shield_cpp.Base.Int.{ℤ, pos, pos_part, ◌-ℤ◌, ◌≤ℤ◌, int_laws, eq_of_parts}
use time_shield_cpp.Calendar.{days_in_month}
use time_shield_cpp.Constants.{ms_per_sec}
use time_shield_cpp.Validation.Dates.{InCalendar}
use time_shield_cpp.DateTime.{DateTimeStruct, to_date_time_ms, num_days_in_month}
use time_shield_cpp.DateTime.Lengths.{num_days_in_month-days_in_month}
use time_shield_cpp.DateTime.Days.{IsDayMoment}
use time_shield_cpp.DateTime.SameYear.{to_timestamp_ms_same_year, date_of}
use time_shield_cpp.DateTimeClass.{
  DateTime, offset_to_ms, local_ms, at_local, to_date_time_struct_local,
}
use time_shield_cpp.DateTimeClass.Fields.{year}
use time_shield_cpp.DateTimeClass.Bounds.{
  first_ms, last_ms, start_of_month, end_of_month, start_of_year, end_of_year,
}
use time_shield_cpp.DateTimeClass.Components.{add_sub}
use time_shield_cpp.DateTimeClass.Days.{midnight, last_second, milli}

-- A moment with given local fields.
pub record HasFields (o : Option DateTime) (offset : ℤ) (fields : DateTimeStruct) : Type 0 where
  pub found : DateTime
  pub is_found : o ≡ some found
  pub offset_is : found.offset ≡ offset
  pub fields_are : to_date_time_struct_local found ≡ fields

local_fields :
    (o : Option ℤ) (offset x : ℤ) (fields : DateTimeStruct)
    → o ≡ some x
    → to_date_time_ms x ≡ fields
    → HasFields (at_local o offset) offset fields
unfolding at_local to_date_time_struct_local local_ms
local_fields o offset x fields e f = record {
  found = record { utc_ms = x -ℤ offset_to_ms offset; offset = offset };
  is_found = ap (λ z. at_local z offset) e;
  offset_is = refl;
  fields_are = ap to_date_time_ms (add_sub x (offset_to_ms offset)) ∙ f;
}

milli_is : ms_per_sec -ℤ pos 1 ≡ pos 999
milli_is = eq_of_parts _ _ (omega int_laws)

module _ (d : DateTime) (r : IsDayMoment (local_ms d)) (m day : ℤ) where
  abbrev local_year : ℤ
  local_year = (to_date_time_ms (local_ms d)).year

  first_fields :
      InCalendar local_year m day
      → day ≤ℤ pos 31
      → HasFields (at_local (first_ms local_year m day) d.offset) d.offset (record {
        year = local_year;
        mon = m;
        day = day;
        hour = pos 0;
        min = pos 0;
        sec = pos 0;
        ms = pos 0;
      })
  unfolding first_ms
  first_fields date short =
      let (x, e, f) =
        to_timestamp_ms_same_year (local_ms d) m day _ _ _ _ r date short midnight (omega arith) in
      local_fields _ d.offset x _ e f

  last_fields :
      InCalendar local_year m day
      → day ≤ℤ pos 31
      → HasFields (at_local (last_ms local_year m day) d.offset) d.offset (record {
        year = local_year;
        mon = m;
        day = day;
        hour = pos 23;
        min = pos 59;
        sec = pos 59;
        ms = pos 999;
      })
  unfolding last_ms
  last_fields date short =
      let (x, e, f) =
        to_timestamp_ms_same_year (local_ms d) m day _ _ _ _ r date short last_second milli in
      local_fields _ d.offset x _ e (
        f ∙ λ i. record {
          year = local_year;
          mon = m;
          day = day;
          hour = pos 23;
          min = pos 59;
          sec = pos 59;
          ms = milli_is i;
        })

-- A day of the month of a timestamp's date.
in_month :
    (y m d : ℤ) (day : ℕ) (v : InCalendar y m d)
    → (1 ≤ day) × (day ≤ days_in_month y v.is_date.m)
    → InCalendar y m (pos day)
in_month y m d day v r = record {
  is_date = record {
    m = v.is_date.m;
    d = day;
    month_is = v.is_date.month_is;
    day_is = refl;
    month_in = v.is_date.month_in;
    day_in = r;
  };
  low = v.low;
  high = v.high;
}

in_year :
    (y m d : ℤ) (m' : ℕ) (day : ℕ)
    → InCalendar y m d
    → (1 ≤ m') × (m' ≤ 12)
    → (1 ≤ day) × (day ≤ days_in_month y m')
    → InCalendar y (pos m') (pos day)
in_year y m d m' day v month r = record {
  is_date = record {
    m = m';
    d = day;
    month_is = refl;
    day_is = refl;
    month_in = month;
    day_in = r;
  };
  low = v.low;
  high = v.high;
}

length_range : (y : ℤ) (m : ℕ) → (1 ≤ days_in_month y m) × (days_in_month y m ≤ 31)
unfolding days_in_month
length_range y m = (ground arith, ground arith)

month_length :
    (y m d : ℤ) (v : InCalendar y m d) → num_days_in_month y m ≡ pos (days_in_month y v.is_date.m)
month_length y m d v =
    rw v.is_date.month_is
      (num_days_in_month-days_in_month y v.is_date.m v.is_date.month_in.0 v.is_date.month_in.1)

-- For a moment whose local time is at most 9200000000000000000 milliseconds from the epoch and
-- has a year up to MAX_YEAR, the start of its local month has the local fields of the first
-- millisecond of its first day, the end has those of the last millisecond of its last day, and
-- both keep the offset.
pub start_of_month-end_of_month :
    (d : DateTime)
    → IsDayMoment (local_ms d)
    → let t = to_date_time_struct_local d in
      HasFields
        (start_of_month d)
        d.offset
        (record t { day = pos 1; hour = pos 0; min = pos 0; sec = pos 0; ms = pos 0 })
      × HasFields (end_of_month d) d.offset (record t {
        day = pos (days_in_month t.year (pos_part t.mon));
        hour = pos 23;
        min = pos 59;
        sec = pos 59;
        ms = pos 999;
      })
unfolding start_of_month end_of_month to_date_time_struct_local
start_of_month-end_of_month d r =
    let t = to_date_time_ms (local_ms d) in
    let v = date_of (local_ms d) r in
    let (some_day, short) = length_range t.year v.is_date.m in
    (
      first_fields d r t.mon (pos 1) (in_month t.year t.mon t.day 1 v (omega arith, some_day))
          (omega arith),
      rw (month_length t.year t.mon t.day v, ap pos_part v.is_date.month_is)
          (last_fields d r t.mon _ (in_month t.year t.mon t.day _ v (some_day, omega arith))
            (omega (arith, short))),
    )

-- For a moment whose local time is at most 9200000000000000000 milliseconds from the epoch and
-- has a year up to MAX_YEAR, the start of its local year has the local fields of the first
-- millisecond of January 1, the end has those of the last millisecond of December 31, and both
-- keep the offset.
pub start_of_year-end_of_year :
    (d : DateTime)
    → IsDayMoment (local_ms d)
    → let t = to_date_time_struct_local d in
      HasFields
        (start_of_year d)
        d.offset
        (record t { mon = pos 1; day = pos 1; hour = pos 0; min = pos 0; sec = pos 0; ms = pos 0 })
      × HasFields (end_of_year d) d.offset (record t {
        mon = pos 12;
        day = pos 31;
        hour = pos 23;
        min = pos 59;
        sec = pos 59;
        ms = pos 999;
      })
unfolding start_of_year end_of_year to_date_time_struct_local year days_in_month
start_of_year-end_of_year d r =
    let t = to_date_time_ms (local_ms d) in
    let v = date_of (local_ms d) r in
    (
      first_fields d r (pos 1) (pos 1)
          (in_year t.year t.mon t.day 1 1 v (omega arith, omega arith) (omega arith, omega arith))
          (omega arith),
      last_fields d r (pos 12) (pos 31)
          (in_year t.year t.mon t.day 12 31 v (omega arith, omega arith) (omega arith, omega arith))
          (omega arith),
    )
