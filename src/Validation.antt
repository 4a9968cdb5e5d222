-- ===== src/Validation.antt =====
-- include/time_shield/validation.hpp: dates and times that the conversions accept. A year is an
-- int64_t, the other fields are ints.
pub mod Dates
pub mod Workdays
use Prim.Native.Nat.{bit_and}
use time_shield_cpp.Base.{Bool, true, false, not, ◌&&◌, ◌||◌, ◌==◌, if◌then◌else◌}
use time_shield_cpp.Base.Int.{ℤ, pos, ◌+ℤ◌, ◌-ℤ◌, ◌*ℤ◌, ◌/ℤ◌, ◌%ℤ◌, ◌==ℤ◌, ltb_ℤ, leb_ℤ}
use time_shield_cpp.Base.Word.{to_u64, to_i32}
use time_shield_cpp.Constants.{
  min_year, max_year, sec_per_day, ms_per_sec, days_per_week, sec_per_year, sec_per_4_years,
  sec_per_100_years, sec_per_400_years, thu, sun, sat,
}

-- The masks act on the two's complement of the year.
unfoldable pub is_leap_year_date : ℤ → Bool
is_leap_year_date year =
    (bit_and (to_u64 year) 3 == 0)
    && (not (year %ℤ pos 25 ==ℤ pos 0) || (bit_and (to_u64 year) 15 == 0))

-- The year of a timestamp, counted back from the last whole 400 years.
unfoldable pub year_back : ℤ → ℤ
year_back ts =
    let secs0 = pos 0 -ℤ (ts -ℤ pos 946_684_800 -ℤ pos 9_223_371_890_843_040_000) in
    let n_400_years = secs0 /ℤ sec_per_400_years in
    let secs1 = secs0 -ℤ n_400_years *ℤ sec_per_400_years in
    let y1 = max_year -ℤ n_400_years *ℤ pos 400 in
    let n_100_years = secs1 /ℤ sec_per_100_years in
    let secs2 = secs1 -ℤ n_100_years *ℤ sec_per_100_years in
    let y2 = y1 -ℤ n_100_years *ℤ pos 100 in
    let n_4_years = secs2 /ℤ sec_per_4_years in
    let secs3 = secs2 -ℤ n_4_years *ℤ sec_per_4_years in
    let y3 = y2 -ℤ n_4_years *ℤ pos 4 in
    let n_1_years = secs3 /ℤ sec_per_year in
    let secs4 = secs3 -ℤ n_1_years *ℤ sec_per_year in
    let y4 = y3 -ℤ n_1_years in if secs4 ==ℤ pos 0 then y4 else y4 -ℤ pos 1

unfoldable pub is_leap_year_ts : ℤ → Bool
unfolding year_back is_leap_year_date
is_leap_year_ts ts = is_leap_year_date (year_back ts)

unfoldable pub is_valid_time_zone : ℤ → ℤ → Bool
is_valid_time_zone hour min =
    if ltb_ℤ hour (pos 0) || ltb_ℤ (pos 23) hour
    then false
    else if ltb_ℤ min (pos 0) || ltb_ℤ (pos 59) min
    then false
    else true

unfoldable pub is_valid_time : ℤ → ℤ → ℤ → ℤ → Bool
is_valid_time hour min sec ms =
    if ltb_ℤ hour (pos 0) || ltb_ℤ (pos 23) hour
    then false
    else if ltb_ℤ min (pos 0) || ltb_ℤ (pos 59) min
    then false
    else if ltb_ℤ sec (pos 0) || ltb_ℤ (pos 59) sec
    then false
    else if ltb_ℤ ms (pos 0) || ltb_ℤ (pos 999) ms
    then false
    else true

-- The checks after the exchange of day and year.
unfoldable pub date_checks : ℤ → ℤ → ℤ → Bool
date_checks year month day =
    if ltb_ℤ year min_year
    then false
    else if ltb_ℤ max_year year
    then false
    else if ltb_ℤ month (pos 1) || ltb_ℤ (pos 12) month
    then false
    else if ltb_ℤ day (pos 1) || ltb_ℤ (pos 31) day
    then false
    else if month ==ℤ pos 2
    then (if is_leap_year_date year && ltb_ℤ (pos 29) day
        then false
        else if not (is_leap_year_date year) && ltb_ℤ (pos 28) day
        then false
        else true)
    else if (month ==ℤ pos 4) || (month ==ℤ pos 6) || (month ==ℤ pos 9) || (month ==ℤ pos 11)
    then (if ltb_ℤ (pos 30) day then false else true)
    else true

-- A day above 31 before a year up to 31 is read as year, month, day. In the call with both
-- exchanged the new year is above 31, so that it does not exchange them again; the cast of the
-- year to int may wrap.
unfoldable pub is_valid_date : ℤ → ℤ → ℤ → Bool
unfolding date_checks
is_valid_date year month day =
    if ltb_ℤ (pos 31) day && leb_ℤ year (pos 31)
    then date_checks day month (to_i32 (to_u64 year))
    else date_checks year month day

unfoldable pub is_valid_date_time : ℤ → ℤ → ℤ → ℤ → ℤ → ℤ → ℤ → Bool
is_valid_date_time year month day hour min sec ms =
    if not (is_valid_date year month day)
    then false
    else if not (is_valid_time hour min sec ms)
    then false
    else true

unfoldable pub is_day_off : ℤ → Bool
is_day_off ts =
    let day = ts /ℤ sec_per_day in
    let wd64 = (day +ℤ thu) %ℤ days_per_week in
    let wd = if ltb_ℤ wd64 (pos 0) then wd64 +ℤ days_per_week else wd64 in
    (wd ==ℤ sun) || (wd ==ℤ sat)

unfoldable pub is_day_off_unix_day : ℤ → Bool
is_day_off_unix_day unix_day =
    let wd0 = (unix_day +ℤ thu) %ℤ days_per_week in
    let wd = wd0 +ℤ (if ltb_ℤ wd0 (pos 0) then days_per_week else pos 0) in
    (wd ==ℤ sun) || (wd ==ℤ sat)

unfoldable pub is_workday_ts : ℤ → Bool
is_workday_ts ts = not (is_day_off ts)

unfoldable pub is_workday_ms : ℤ → Bool
is_workday_ms ts_ms = is_workday_ts (ts_ms /ℤ ms_per_sec)

unfoldable pub is_workday : ℤ → ℤ → ℤ → Bool
is_workday year month day =
    if not (is_valid_date year month day)
    then false
    else let adj_y = year -ℤ (if leb_ℤ month (pos 2) then pos 1 else pos 0) in
      let adj_m = if leb_ℤ month (pos 2) then month +ℤ pos 9 else month -ℤ pos 3 in
      let era = (if leb_ℤ (pos 0) adj_y then adj_y else adj_y -ℤ pos 399) /ℤ pos 400 in
      let yoe = adj_y -ℤ era *ℤ pos 400 in
      let doy = (pos 153 *ℤ adj_m +ℤ pos 2) /ℤ pos 5 +ℤ day -ℤ pos 1 in
      let doe = yoe *ℤ pos 365 +ℤ yoe /ℤ pos 4 -ℤ yoe /ℤ pos 100 +ℤ doy in
      not (is_day_off_unix_day (era *ℤ pos 146097 +ℤ doe -ℤ pos 719468))
