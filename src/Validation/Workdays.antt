-- ===== src/Validation/Workdays.antt =====
-- Days off are Saturdays and Sundays.
use time_shield_cpp.Base.{
  split_and, ◌≡◌, refl, sym, ap, ◌∙◌, arith, ◌↔◌, ◌⊎◌, Bool, true, false, not, ◌&&◌, ◌||◌,
  if◌then◌else◌,
}
use time_shield_cpp.Base.Int.{ℤ, pos, ◌+ℤ◌, ◌*ℤ◌, ◌==ℤ◌, ◌≤ℤ◌, ◌<ℤ◌, parts_disjoint}
use time_shield_cpp.Detail.FloorMath.{floor_mod, floor_div-floor_mod}
use time_shield_cpp.Validation.{is_valid_date, is_day_off_unix_day, is_workday}
use time_shield_cpp.Validation.Dates.{InCalendar, is_valid_date-InCalendar}
use time_shield_cpp.UnixTime.{legacy_date_to_unix_day, date_to_unix_day, unix_day_to_ts}
use time_shield_cpp.UnixTime.Legacy.{legacy_date_to_unix_day-date_to_unix_day}
use time_shield_cpp.Periods.{weekday_of_ts}
use time_shield_cpp.Periods.Weeks.{day_multiple}

-- From Monday, 1, to Friday, 5.
unfoldable pub IsMidweek : ℤ → Type 0
IsMidweek w = (pos 1 ≤ℤ w) × (w ≤ℤ pos 5)

weekend-IsMidweek :
    (w : ℤ)
    → (pos 0 ≤ℤ w) × (w <ℤ pos 7)
    → (not ((w ==ℤ pos 0) || (w ==ℤ pos 6)) ≡ true) ↔ IsMidweek w
unfolding IsMidweek
weekend-IsMidweek w r = (λ h. ground arith, λ h. ground arith)

unix_day-IsMidweek :
    (day : ℤ)
    → (not (is_day_off_unix_day day) ≡ true) ↔ IsMidweek (weekday_of_ts (unix_day_to_ts day))
unfolding weekday_of_ts unix_day_to_ts
unix_day-IsMidweek day = rw ((day_multiple (day *ℤ pos 86400) day refl).0) (
    let f = floor_div-floor_mod (day +ℤ pos 4) 7 (omega arith) in
    let test = weekend-IsMidweek (floor_mod (day +ℤ pos 4) (pos 7)) (f.1, f.2) in
    unfold is_day_off_unix_day floor_mod in test)

is_workday-legacy :
    (y m d : ℤ)
    → is_workday y m d
      ≡ (is_valid_date y m d && not (is_day_off_unix_day (legacy_date_to_unix_day y m d)))
unfolding is_workday legacy_date_to_unix_day
is_workday-legacy y m d = branch (is_valid_date y m d) _
  where
    branch : (a b : Bool) → (if not a then false else b) ≡ (a && b)
    branch true b = refl
    branch false b = refl

same_day : (y m d : ℤ) → InCalendar y m d → legacy_date_to_unix_day y m d ≡ date_to_unix_day y m d
same_day y m d c =
    legacy_date_to_unix_day-date_to_unix_day (record { year = y; month = m; day = d }) c.is_date
      (record {
        low = omega (arith, c.low, parts_disjoint y);
        high = omega (arith, c.high, parts_disjoint y);
      })

-- Unless a day above 31 comes with a year up to 31, the workdays are the dates of the calendar
-- from MIN_YEAR to MAX_YEAR whose midnight falls on Monday to Friday.
pub is_workday-InCalendar :
    (y m d : ℤ)
    → (d ≤ℤ pos 31) ⊎ (pos 31 <ℤ y)
    → (is_workday y m d ≡ true)
      ↔ (InCalendar y m d × IsMidweek (weekday_of_ts (unix_day_to_ts (date_to_unix_day y m d))))
is_workday-InCalendar y m d h =
    let valid = is_valid_date-InCalendar y m d h in
    let day = date_to_unix_day y m d in
    let off = unix_day-IsMidweek day in
    let steps = λ (c : InCalendar y m d).
      ap (λ n. is_valid_date y m d && not (is_day_off_unix_day n)) (same_day y m d c) in
    (
      λ e.
          let v = valid.0 (((split_and _ _).0 (sym (is_workday-legacy y m d) ∙ e)).0) in
          (v, off.0 (((split_and _ _).0 (sym (steps v) ∙ sym (is_workday-legacy y m d) ∙ e)).1)),
      λ (v, w). is_workday-legacy y m d ∙ steps v ∙ (split_and _ _).1 (valid.1 v, off.1 w),
    )
