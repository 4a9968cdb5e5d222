-- ===== src/IsoWeek.antt =====
-- include/time_shield/iso_week_conversions.hpp and iso_week_struct.hpp: ISO 8601 week dates. An
-- exception is `none`.
pub mod Year
pub mod Thursday
pub mod Weeks
pub mod YearOfThursday
pub mod RoundTrip
pub mod Text
use time_shield_cpp.Base.{Bool, true, false, ◌||◌, Option, none, some, not, if◌then◌else◌}
use time_shield_cpp.Base.Int.{ℤ, pos, ◌+ℤ◌, ◌-ℤ◌, ◌*ℤ◌, ◌/ℤ◌, ◌%ℤ◌, leb_ℤ, ltb_ℤ}
use time_shield_cpp.Constants.{days_per_week, min_year, max_year}
use time_shield_cpp.UnixTime.{day_of_week_date, date_to_unix_day, unix_day_to_ts}
use time_shield_cpp.DateTime.{to_date_time}

pub record IsoWeekDateStruct : Type 0 where
  pub year : ℤ
  pub week : ℤ
  pub weekday : ℤ

pub record DateStruct : Type 0 where
  pub year : ℤ
  pub mon : ℤ
  pub day : ℤ

-- Mon=1 to Sun=7, from the weekday with Sun=0.
unfoldable pub iso_weekday_from_weekday : ℤ → ℤ
iso_weekday_from_weekday weekday = (weekday +ℤ days_per_week -ℤ pos 1) %ℤ days_per_week +ℤ pos 1

unfoldable pub iso_weekday_of_date : ℤ → ℤ → ℤ → ℤ
iso_weekday_of_date year month day = iso_weekday_from_weekday (day_of_week_date year month day)

unfoldable pub to_iso_week_date : ℤ → ℤ → ℤ → IsoWeekDateStruct
to_iso_week_date year month day =
    let iso_weekday = iso_weekday_of_date year month day in
    let unix_day = date_to_unix_day year month day in
    let thursday_day = unix_day +ℤ (pos 4 -ℤ iso_weekday) in
    let thursday_date = to_date_time (unix_day_to_ts thursday_day) in
    let iso_year = thursday_date.year in
    let jan4_day = date_to_unix_day iso_year (pos 1) (pos 4) in
    let jan4_iso_weekday = iso_weekday_of_date iso_year (pos 1) (pos 4) in
    let first_thursday = jan4_day +ℤ (pos 4 -ℤ jan4_iso_weekday) in
    let week = (thursday_day -ℤ first_thursday) /ℤ days_per_week +ℤ pos 1 in
    record { year = iso_year; week = week; weekday = iso_weekday }

-- to_iso_week_date of a timestamp.
unfoldable pub to_iso_week_date_ts : ℤ → IsoWeekDateStruct
to_iso_week_date_ts ts =
    let date_time = to_date_time ts in to_iso_week_date date_time.year date_time.mon date_time.day

unfoldable pub iso_weeks_in_year : ℤ → ℤ
iso_weeks_in_year iso_year = let info = to_iso_week_date iso_year (pos 12) (pos 28) in info.week

unfoldable pub is_valid_iso_week_date : ℤ → ℤ → ℤ → Bool
is_valid_iso_week_date iso_year week weekday =
    if ltb_ℤ iso_year min_year
    then false
    else if ltb_ℤ max_year iso_year
    then false
    else if ltb_ℤ weekday (pos 1) || ltb_ℤ (pos 7) weekday
    then false
    else if ltb_ℤ week (pos 1)
    then false
    else let max_week = iso_weeks_in_year iso_year in leb_ℤ week max_week

-- iso_week_date_to_date after its check.
unfoldable pub date_of_iso_week_date : IsoWeekDateStruct → DateStruct
date_of_iso_week_date iso_date =
    let jan4_day = date_to_unix_day iso_date.year (pos 1) (pos 4) in
    let jan4_iso_weekday = iso_weekday_of_date iso_date.year (pos 1) (pos 4) in
    let first_thursday = jan4_day +ℤ (pos 4 -ℤ jan4_iso_weekday) in
    let target_thursday = first_thursday +ℤ (iso_date.week -ℤ pos 1) *ℤ days_per_week in
    let target_day = target_thursday +ℤ (iso_date.weekday -ℤ pos 4) in
    let date_time = to_date_time (unix_day_to_ts target_day) in
    record { year = date_time.year; mon = date_time.mon; day = date_time.day }

unfoldable pub iso_week_date_to_date : IsoWeekDateStruct → Option DateStruct
iso_week_date_to_date iso_date =
    if not (is_valid_iso_week_date iso_date.year iso_date.week iso_date.weekday)
    then none
    else some (date_of_iso_week_date iso_date)
