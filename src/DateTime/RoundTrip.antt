-- ===== src/DateTime/RoundTrip.antt =====
-- Timestamps to dates with a time of day, and back.
use time_shield_cpp.Base.{
  split_and, ℕ, ◌+◌, ◌*◌, ◌<◌, ◌≡◌, refl, sym, ap, ◌∙◌, Bool, true, false, not, ◌&&◌, if◌then◌else◌,
  arith, inl, ◌⊎◌, some, none, ◌↔◌,
}
use time_shield_cpp.Base.Int.{
  ℤ, pos, negsuc, pos_part, neg_part, ◌+ℤ◌, ◌-ℤ◌, ◌*ℤ◌, ◌/ℤ◌, leb_ℤ, ◌≤ℤ◌, ◌<ℤ◌, int_laws,
  eq_of_parts, parts_disjoint,
}
use time_shield_cpp.Calendar.{IsDate, days_in_month}
use time_shield_cpp.Constants.{min_year, max_year}
use time_shield_cpp.Detail.FastDate.{FastDate, split_unix_day}
use time_shield_cpp.Detail.FastDate.RoundTrip.{fast_days-from_days, fast_date-year}
use time_shield_cpp.UnixTime.{date_to_unix_day}
use time_shield_cpp.Validation.{is_valid_date_time, is_valid_date, is_valid_time}
use time_shield_cpp.Validation.Dates.{InCalendar, is_valid_date-InCalendar}
use time_shield_cpp.DateTime.{
  to_date_time, timestamp_sum, to_timestamp_unchecked, checked_timestamp, to_timestamp,
  dt_to_timestamp,
}
use time_shield_cpp.DateTime.Split.{IsInt64, IsSplit, unix_day-IsSplit, split-IsUnixDay}

-- The fields of a time of day.
pub record IsTime (hour min sec : ℤ) : Type 0 where
  pub hour_in : (pos 0 ≤ℤ hour) × (hour ≤ℤ pos 23)
  pub min_in : (pos 0 ≤ℤ min) × (min ≤ℤ pos 59)
  pub sec_in : (pos 0 ≤ℤ sec) × (sec ≤ℤ pos 59)

is_valid_time-IsTime :
    (hour min sec : ℤ) → (is_valid_time hour min sec (pos 0) ≡ true) ↔ IsTime hour min sec
unfolding is_valid_time
is_valid_time-IsTime hour min sec = (λ h. ground arith, λ t. ground arith)

-- The seconds of a day, split by the divisions of `to_date_time`.
clock :
    (s : ℤ)
    → neg_part s ≡ 0
    → pos_part s < 86400
    → let hour = s /ℤ pos 3600 in
      let min = (s -ℤ hour *ℤ pos 3600) /ℤ pos 60 in
      let sec = s -ℤ hour *ℤ pos 3600 -ℤ min *ℤ pos 60 in
      IsTime hour min sec × (pos_part hour * 3600 + pos_part min * 60 + pos_part sec ≡ pos_part s)
clock s e h = (
  record { hour_in = omega int_laws; min_in = omega int_laws; sec_in = omega int_laws },
  omega int_laws,
)

pub to_date_time-IsTime :
    (ts : ℤ)
    → let t = to_date_time ts in
      IsTime t.hour t.min t.sec
      × (pos_part t.hour * 3600 + pos_part t.min * 60 + pos_part t.sec
          ≡ pos_part (split_unix_day ts).sec_of_day)
unfolding to_date_time
to_date_time-IsTime ts =
    let s = unix_day-IsSplit ts in clock (split_unix_day ts).sec_of_day s.sec_is s.sec_in

not_swapped :
    (y d : ℤ) → (d ≤ℤ pos 31) ⊎ (pos 31 <ℤ y) → (leb_ℤ (pos 1970) d && leb_ℤ y (pos 31)) ≡ false
not_swapped y d le = ground arith

-- A result behind a check.
checked-some :
    (b : Bool) (x ts : ℤ) → ((if not b then none else some x) ≡ some ts) ↔ ((b ≡ true) × (ts ≡ x))
checked-some true x ts = (λ e. (refl, grind arith), λ (_, f). ap some (sym f))
checked-some false x ts = (λ e. grind arith, λ (e, _). grind arith)

both :
    (a b : Bool) (x : ℤ)
    → (if not (if not a then false else if not b then false else true) then none else some x)
      ≡ (if not (a && b) then none else some x)
both true true x = refl
both true false x = refl
both false b x = refl

-- `to_timestamp` for a day that is not exchanged with the year.
to_timestamp-checks :
    (y m d h mi s : ℤ)
    → (d ≤ℤ pos 31) ⊎ (pos 31 <ℤ y)
    → to_timestamp y m d h mi s ≡ (
        if not (is_valid_date y m d && is_valid_time h mi s (pos 0))
        then none
        else some (timestamp_sum y m d h mi s))
unfolding to_timestamp checked_timestamp to_timestamp_unchecked is_valid_date_time
to_timestamp-checks y m d h mi s le =
    rw (not_swapped y d le) (both (is_valid_date y m d) (is_valid_time h mi s (pos 0)) _)

-- Where no reading takes the day for a year, as the day is at most 31 or the year above 31,
-- to_timestamp returns a timestamp exactly for a date of the calendar from MIN_YEAR to MAX_YEAR
-- with a time of day, and it is the sum of timestamp_sum.
pub to_timestamp-some :
    (y m d h mi s ts : ℤ)
    → (d ≤ℤ pos 31) ⊎ (pos 31 <ℤ y)
    → (to_timestamp y m d h mi s ≡ some ts)
      ↔ (InCalendar y m d × IsTime h mi s × (ts ≡ timestamp_sum y m d h mi s))
to_timestamp-some y m d h mi s ts le =
    let date = is_valid_date y m d in
    let time = is_valid_time h mi s (pos 0) in
    let checks = to_timestamp-checks y m d h mi s le in
    let result = checked-some (date && time) (timestamp_sum y m d h mi s) ts in
    let both = split_and date time in
    let in_date = is_valid_date-InCalendar y m d le in
    let in_time = is_valid_time-IsTime h mi s in
    (
      λ e.
          let (valid, sum) = result.0 (sym checks ∙ e) in
          let (v, w) = both.0 valid in (in_date.0 v, in_time.0 w, sum),
      λ (v, w, sum). checks ∙ result.1 (both.1 (in_date.1 v, in_time.1 w), sum),
    )

pub times_left : (k : ℕ) (a : ℤ) → pos k *ℤ a ≡ a *ℤ pos k
unfolding ◌*ℤ◌
times_left k (pos n) = ground arith
times_left k (negsuc n) = ground arith

-- A date by its day number and a time of day by its seconds are their timestamp.
sum_is :
    (day day_num h mi s ts sec : ℤ)
    → day_num ≡ day
    → IsTime h mi s
    → pos_part h * 3600 + pos_part mi * 60 + pos_part s ≡ pos_part sec
    → IsSplit ts (record { days = day; sec_of_day = sec })
    → day_num *ℤ pos 86400 +ℤ pos 3600 *ℤ h +ℤ pos 60 *ℤ mi +ℤ s ≡ ts
sum_is day day_num h mi s ts sec e t sum split =
    rw (times_left 3600 h, times_left 60 mi, e)
      (eq_of_parts _ _ (
        omega (
          int_laws,
          t.hour_in,
          t.min_in,
          t.sec_in,
          sum,
          split.sum,
          split.sec_is,
          parts_disjoint day,
        )))

pub date-month_day : (t : FastDate) → IsDate t → t.day ≤ℤ pos 31
unfolding days_in_month
date-month_day t h = rw h.day_is (ground (arith, h.day_in))

-- The date of a 64-bit timestamp is one of the calendar, with the timestamp's day number.
pub to_date_time-InCalendar :
    (ts : ℤ)
    → IsInt64 ts
    → (to_date_time ts).year ≤ℤ max_year
    → let t = to_date_time ts in
      InCalendar t.year t.mon t.day
      × (date_to_unix_day t.year t.mon t.day ≡ (split_unix_day ts).days)
      × (t.day ≤ℤ pos 31)
unfolding to_date_time date_to_unix_day
to_date_time-InCalendar ts r le =
    let t = to_date_time ts in
    let split = split_unix_day ts in
    let unix_day = split-IsUnixDay ts r in
    let (is_date, day) = fast_days-from_days split.days unix_day in
    let low : (min_year ≤ℤ t.year) = omega (arith, fast_date-year split.days unix_day) in
    (record { is_date = is_date; low = low; high = le }, day, date-month_day _ is_date)

-- A 64-bit timestamp in seconds whose year is at most MAX_YEAR is recovered from its date and
-- time of day.
pub dt_to_timestamp-to_date_time :
    (ts : ℤ)
    → IsInt64 ts
    → (to_date_time ts).year ≤ℤ max_year
    → dt_to_timestamp (to_date_time ts) ≡ some ts
unfolding dt_to_timestamp timestamp_sum
dt_to_timestamp-to_date_time ts r le =
    let t = to_date_time ts in
    let split = split_unix_day ts in
    let (in_calendar, day, month_day) = to_date_time-InCalendar ts r le in
    let (is_time, clock_sum) = to_date_time-IsTime ts in
    let sum =
      sum_is split.days _ t.hour t.min t.sec ts split.sec_of_day day is_time clock_sum
        (unix_day-IsSplit ts) in
    (to_timestamp-some t.year t.mon t.day t.hour t.min t.sec ts (inl month_day)).1
      (in_calendar, is_time, sym sum)
