-- ===== src/CalendarPeriods.antt =====
-- include/time_shield/date_time_conversions.hpp: the bounds of the month and the year that a
-- timestamp lies in, and its place in them. A table that is read outside its bounds gives 0, where
-- C++ leaves the value open. The while loop runs at most twice, since a remainder by 400 years with
-- its first century taken off holds less than three more.

pub mod YearStart
pub mod LastSunday
use time_shield_cpp.Base.{
  ℕ, zero, suc, ◌+◌, ◌-◌, Bool, true, false, ◌&&◌, List, [], ◌∷◌, ◌++◌, leb, ◌==◌, get_or,
  if◌then◌else◌, Option, some, none, ◌>>=◌,
}
use time_shield_cpp.Base.Int.{ℤ, pos, pos_part, ◌+ℤ◌, ◌-ℤ◌, ◌*ℤ◌, ◌/ℤ◌, ◌==ℤ◌, leb_ℤ, ltb_ℤ}
use time_shield_cpp.Constants.{
  sec_per_day, sec_per_year, sec_per_leap_year, sec_per_4_years, sec_per_100_years,
  sec_per_first_100_years, sec_per_400_years, ms_per_sec,
}
use time_shield_cpp.Detail.FloorMath.{floor_mod}
use time_shield_cpp.Units.{ms_to_sec, sec_to_ms}
use time_shield_cpp.UnixTime.{num_days_in_year_ts, day_of_week_date}
use time_shield_cpp.Validation.{is_leap_year_ts}
use time_shield_cpp.DateTime.{to_timestamp, num_days_in_month}
use time_shield_cpp.Periods.{start_of_day, end_of_day, weekday_of_ts}

unfoldable pub start_of_year_date : ℤ → Option ℤ
start_of_year_date year = do
  year_ts ← to_timestamp year (pos 1) (pos 1) (pos 0) (pos 0) (pos 0)
  some (start_of_day year_ts)

unfoldable pub start_of_year_date_ms : ℤ → Option ℤ
unfolding start_of_year_date
start_of_year_date_ms year = do year_ts ← start_of_year_date year; some (sec_to_ms year_ts)

-- The branch of start_of_year for the years from 1970 to 2099.
unfoldable pub start_of_recent_year : ℤ → ℤ
start_of_recent_year ts =
    let sec_per_year_x2 = sec_per_year *ℤ pos 2 in
    let year_start_ts = floor_mod ts sec_per_4_years in
    if ltb_ℤ year_start_ts sec_per_year
    then ts -ℤ year_start_ts
    else if ltb_ℤ year_start_ts sec_per_year_x2
    then ts +ℤ sec_per_year -ℤ year_start_ts
    else if ltb_ℤ year_start_ts (sec_per_year_x2 +ℤ sec_per_leap_year)
    then ts +ℤ sec_per_year_x2 -ℤ year_start_ts
    else ts +ℤ (sec_per_year_x2 +ℤ sec_per_leap_year) -ℤ year_start_ts

-- The years of a block of four from `start_ts` on, of which the first is a leap year.
unfoldable pub start_in_four_years : ℤ → ℤ → ℤ
start_in_four_years secs start_ts =
    let offset_4y = floor_mod secs sec_per_4_years in
    let block_ts = start_ts +ℤ (secs -ℤ offset_4y) in
    if leb_ℤ sec_per_leap_year offset_4y
    then (let rest = offset_4y -ℤ sec_per_leap_year in
        block_ts +ℤ sec_per_leap_year +ℤ (rest -ℤ floor_mod rest sec_per_year))
    else block_ts +ℤ (offset_4y -ℤ floor_mod offset_4y sec_per_year)

-- The while loop over centuries.
unfoldable pub centuries_loop : ℕ → ℤ → ℤ → ℤ × ℤ
centuries_loop zero secs start_ts = (secs, start_ts)
centuries_loop (suc rounds) secs start_ts =
    let later = centuries_loop rounds (secs -ℤ sec_per_100_years) (start_ts +ℤ sec_per_100_years) in
    if leb_ℤ sec_per_100_years secs then later else (secs, start_ts)

-- The other branch, for all timestamps.
unfoldable pub start_of_any_year : ℤ → ℤ
unfolding start_in_four_years centuries_loop
start_of_any_year ts =
    let bias_2000 = pos 946_684_800 in
    let offset_y400 = floor_mod (ts -ℤ bias_2000) sec_per_400_years in
    let start_ts = ts -ℤ bias_2000 -ℤ offset_y400 +ℤ bias_2000 in
    if leb_ℤ sec_per_first_100_years offset_y400
    then (let (secs, century_ts) =
          centuries_loop 3 (offset_y400 -ℤ sec_per_first_100_years)
            (start_ts +ℤ sec_per_first_100_years) in
        let sec_per_4_years_v2 = pos 4 *ℤ sec_per_year in
        if leb_ℤ sec_per_4_years_v2 secs
        then start_in_four_years (secs -ℤ sec_per_4_years_v2) (century_ts +ℤ sec_per_4_years_v2)
        else century_ts +ℤ (secs -ℤ floor_mod secs sec_per_year))
    else start_in_four_years offset_y400 start_ts

unfoldable pub start_of_year : ℤ → ℤ
unfolding start_of_recent_year start_of_any_year
start_of_year ts =
    let bias_2100 = pos 4_102_444_800 in
    if leb_ℤ (pos 0) ts && ltb_ℤ ts bias_2100 then start_of_recent_year ts else start_of_any_year ts

unfoldable pub start_of_year_ms : ℤ → ℤ
unfolding start_of_year
start_of_year_ms ts_ms = sec_to_ms (start_of_year (ms_to_sec ts_ms))

unfoldable pub end_of_year : ℤ → ℤ
unfolding start_of_year
end_of_year ts =
    let year_start = start_of_year ts in
    let year_days = num_days_in_year_ts ts in year_start +ℤ year_days *ℤ sec_per_day -ℤ pos 1

unfoldable pub end_of_year_ms : ℤ → ℤ
unfolding end_of_year
end_of_year_ms ts_ms = sec_to_ms (end_of_year (ms_to_sec ts_ms)) +ℤ (ms_per_sec -ℤ pos 1)

unfoldable pub day_of_year : ℤ → ℤ
unfolding start_of_year
day_of_year ts = (ts -ℤ start_of_year ts) /ℤ sec_per_day +ℤ pos 1

-- `count` entries that are the same.
repeat : ℕ → ℕ → List ℕ
repeat zero x = []
repeat (suc count) x = x ∷ repeat count x

-- The numbers from `first` on.
counting : ℕ → ℕ → List ℕ
counting first zero = []
counting first (suc count) = first ∷ counting (first + 1) count

unfoldable pub table_month_of_year : List ℕ
unfolding repeat
table_month_of_year =
    0 ∷ repeat 31 1
    ++ repeat 28 2
    ++ repeat 31 3
    ++ repeat 30 4
    ++ repeat 31 5
    ++ repeat 30 6
    ++ repeat 31 7
    ++ repeat 31 8
    ++ repeat 30 9
    ++ repeat 31 10
    ++ repeat 30 11
    ++ repeat 31 12

unfoldable pub table_day_of_year : List ℕ
unfolding counting
table_day_of_year =
    0 ∷ counting 1 31
    ++ counting 1 28
    ++ counting 1 31
    ++ counting 1 30
    ++ counting 1 31
    ++ counting 1 30
    ++ counting 1 31
    ++ counting 1 31
    ++ counting 1 30
    ++ counting 1 31
    ++ counting 1 30
    ++ counting 1 31

abbrev pub jan_and_feb_day_leap_year : ℕ
jan_and_feb_day_leap_year = 60

unfoldable pub month_of_year : ℤ → ℤ
unfolding day_of_year table_month_of_year
month_of_year ts =
    let dy = pos_part (day_of_year ts) in
    if is_leap_year_ts ts && leb jan_and_feb_day_leap_year dy
    then pos (get_or table_month_of_year (dy - 1) 0)
    else pos (get_or table_month_of_year dy 0)

unfoldable pub day_of_month : ℤ → ℤ
unfolding day_of_year table_day_of_year
day_of_month ts =
    let dy = pos_part (day_of_year ts) in
    if is_leap_year_ts ts && (dy == jan_and_feb_day_leap_year)
    then pos (get_or table_day_of_year (dy - 1) 0 + 1)
    else if is_leap_year_ts ts && leb (jan_and_feb_day_leap_year + 1) dy
    then pos (get_or table_day_of_year (dy - 1) 0)
    else pos (get_or table_day_of_year dy 0)

abbrev pub num_days_of_month : List ℤ
num_days_of_month =
    pos 0
    ∷ pos 31
    ∷ pos 28
    ∷ pos 31
    ∷ pos 30
    ∷ pos 31
    ∷ pos 30
    ∷ pos 31
    ∷ pos 31
    ∷ pos 30
    ∷ pos 31
    ∷ pos 30
    ∷ pos 31
    ∷ []

unfoldable pub num_days_in_month_ts : ℤ → ℤ
unfolding month_of_year
num_days_in_month_ts ts =
    let month = month_of_year ts in
    if month ==ℤ pos 2
    then (if is_leap_year_ts ts then pos 29 else pos 28)
    else get_or num_days_of_month (pos_part month) (pos 0)

unfoldable pub start_of_month : ℤ → ℤ
unfolding day_of_month
start_of_month ts = start_of_day ts -ℤ (day_of_month ts -ℤ pos 1) *ℤ sec_per_day

unfoldable pub end_of_month : ℤ → ℤ
unfolding num_days_in_month_ts day_of_month
end_of_month ts = end_of_day ts +ℤ (num_days_in_month_ts ts -ℤ day_of_month ts) *ℤ sec_per_day

unfoldable pub last_sunday_of_month : ℤ → ℤ
unfolding end_of_month
last_sunday_of_month ts =
    let month_end = end_of_month ts in
    start_of_day month_end -ℤ weekday_of_ts month_end *ℤ sec_per_day

unfoldable pub last_sunday_month_day : ℤ → ℤ → ℤ
last_sunday_month_day year month =
    let days = num_days_in_month year month in days -ℤ day_of_week_date year month days
