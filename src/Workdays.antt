-- ===== src/Workdays.antt =====
-- include/time_shield/workday_conversions.hpp: the workdays of a month. A loop over its days is a
-- recursion on the days that are left. The functions are noexcept, so that an exception of
-- to_timestamp ends the program: it is `none`.
pub mod Counts
pub mod OfTimestamp
pub mod Row
pub mod Ends
use time_shield_cpp.Base.{
  ℕ, zero, suc, ◌+◌, Bool, true, false, not, ◌&&◌, Option, some, none, ◌>>=◌, ◌==◌, if◌then◌else◌,
}
use time_shield_cpp.Base.Int.{ℤ, pos, pos_part, ◌+ℤ◌, ◌-ℤ◌, ◌==ℤ◌, leb_ℤ, ltb_ℤ}
use time_shield_cpp.Constants.{error_timestamp}
use time_shield_cpp.Units.{sec_to_ms}
use time_shield_cpp.Validation.{is_workday}
use time_shield_cpp.DateTime.{num_days_in_month, to_timestamp}
use time_shield_cpp.Periods.{end_of_day, end_of_day_ms}

-- The loop from `day` on, with `left` days left.
unfoldable pub first_workday_loop : ℤ → ℤ → ℕ → ℕ → ℕ
first_workday_loop year month day zero = 0
first_workday_loop year month day (suc left) =
    let later = first_workday_loop year month (day + 1) left in
    if is_workday year month (pos day) then day else later

unfoldable pub first_workday_day : ℤ → ℤ → ℕ
unfolding first_workday_loop
first_workday_day year month =
    let days = num_days_in_month year month in
    if leb_ℤ days (pos 0) then 0 else first_workday_loop year month 1 (pos_part days)

-- The loop from `day` down to 1.
unfoldable pub last_workday_loop : ℤ → ℤ → ℕ → ℕ
last_workday_loop year month zero = 0
last_workday_loop year month (suc before) =
    let earlier = last_workday_loop year month before in
    if is_workday year month (pos (suc before)) then suc before else earlier

unfoldable pub last_workday_day : ℤ → ℤ → ℕ
unfolding last_workday_loop
last_workday_day year month =
    let days = num_days_in_month year month in
    if leb_ℤ days (pos 0) then 0 else last_workday_loop year month (pos_part days)

unfoldable pub count_loop : ℤ → ℤ → ℕ → ℕ → ℕ → ℕ
count_loop year month day zero total = total
count_loop year month day (suc left) total =
    count_loop year month (day + 1) left
      (if is_workday year month (pos day) then total + 1 else total)

unfoldable pub count_workdays_in_month : ℤ → ℤ → ℕ
unfolding count_loop
count_workdays_in_month year month =
    let days = num_days_in_month year month in
    if leb_ℤ days (pos 0) then 0 else count_loop year month 1 (pos_part days) 0

unfoldable pub index_loop : ℤ → ℤ → ℤ → ℕ → ℕ → ℕ → ℕ
index_loop year month day current zero index = 0
index_loop year month day current (suc left) index =
    let found = is_workday year month (pos current) in
    let later = index_loop year month day (current + 1) left (if found then index + 1 else index) in
    if found && (pos current ==ℤ day) then index + 1 else later

unfoldable pub workday_index_in_month : ℤ → ℤ → ℤ → ℕ
unfolding index_loop
workday_index_in_month year month day =
    if not (is_workday year month day)
    then 0
    else let days = num_days_in_month year month in
      if leb_ℤ days (pos 0) then 0 else index_loop year month day 1 (pos_part days) 0

unfoldable pub is_first_workday_of_month : ℤ → ℤ → ℤ → Bool
unfolding first_workday_day
is_first_workday_of_month year month day =
    is_workday year month day && (pos (first_workday_day year month) ==ℤ day)

unfoldable pub is_last_workday_of_month : ℤ → ℤ → ℤ → Bool
unfolding last_workday_day
is_last_workday_of_month year month day =
    is_workday year month day && (pos (last_workday_day year month) ==ℤ day)

unfoldable pub is_within_first_workdays_of_month : ℤ → ℤ → ℤ → ℤ → Bool
unfolding count_workdays_in_month workday_index_in_month
is_within_first_workdays_of_month year month day count =
    if leb_ℤ count (pos 0)
    then false
    else let total = pos (count_workdays_in_month year month) in
      if ltb_ℤ total count
      then false
      else let index = pos (workday_index_in_month year month day) in
        ltb_ℤ (pos 0) index && leb_ℤ index count

unfoldable pub is_within_last_workdays_of_month : ℤ → ℤ → ℤ → ℤ → Bool
unfolding count_workdays_in_month workday_index_in_month
is_within_last_workdays_of_month year month day count =
    if leb_ℤ count (pos 0)
    then false
    else let total = pos (count_workdays_in_month year month) in
      if ltb_ℤ total count
      then false
      else let index = pos (workday_index_in_month year month day) in
        ltb_ℤ (pos 0) index && leb_ℤ (total -ℤ count +ℤ pos 1) index

-- The midnight of a day that a search found, and what follows from it.
unfoldable pub at_workday : ℤ → ℤ → ℕ → (ℤ → ℤ) → Option ℤ
at_workday year month day result = if day == 0 then some error_timestamp else do
  day_start ← to_timestamp year month (pos day) (pos 0) (pos 0) (pos 0)
  some (result day_start)

unfoldable pub start_of_first_workday_month : ℤ → ℤ → Option ℤ
unfolding at_workday first_workday_day
start_of_first_workday_month year month =
    at_workday year month (first_workday_day year month) (λ day_start. day_start)

unfoldable pub start_of_first_workday_month_ms : ℤ → ℤ → Option ℤ
unfolding at_workday first_workday_day
start_of_first_workday_month_ms year month =
    at_workday year month (first_workday_day year month) (λ day_start. sec_to_ms day_start)

unfoldable pub end_of_first_workday_month : ℤ → ℤ → Option ℤ
unfolding at_workday first_workday_day
end_of_first_workday_month year month =
    at_workday year month (first_workday_day year month) (λ day_start. end_of_day day_start)

unfoldable pub end_of_first_workday_month_ms : ℤ → ℤ → Option ℤ
unfolding at_workday first_workday_day
end_of_first_workday_month_ms year month =
    at_workday year month (first_workday_day year month)
      (λ day_start. end_of_day_ms (sec_to_ms day_start))

unfoldable pub start_of_last_workday_month : ℤ → ℤ → Option ℤ
unfolding at_workday last_workday_day
start_of_last_workday_month year month =
    at_workday year month (last_workday_day year month) (λ day_start. day_start)

unfoldable pub start_of_last_workday_month_ms : ℤ → ℤ → Option ℤ
unfolding at_workday last_workday_day
start_of_last_workday_month_ms year month =
    at_workday year month (last_workday_day year month) (λ day_start. sec_to_ms day_start)

unfoldable pub end_of_last_workday_month : ℤ → ℤ → Option ℤ
unfolding at_workday last_workday_day
end_of_last_workday_month year month =
    at_workday year month (last_workday_day year month) (λ day_start. end_of_day day_start)

unfoldable pub end_of_last_workday_month_ms : ℤ → ℤ → Option ℤ
unfolding at_workday last_workday_day
end_of_last_workday_month_ms year month =
    at_workday year month (last_workday_day year month)
      (λ day_start. end_of_day_ms (sec_to_ms day_start))
