-- ===== src/IsoWeek/Text/Parsed.antt =====
-- An ISO week date that has been formatted is parsed back.
use time_shield_cpp.Base.{
  ℕ, ◌≤◌, ◌≡◌, refl, ap, sym, ◌∙◌, Bool, true, false, not, List, ◌∷◌, if◌then◌else◌, some, none,
  arith,
}
use time_shield_cpp.Base.Int.{ℤ, pos, negsuc, pos_part, ◌≤ℤ◌, parts_disjoint}
use time_shield_cpp.Constants.{min_year, max_year}
use time_shield_cpp.Text.{print_int, print_two}
use time_shield_cpp.IsoWeek.{IsoWeekDateStruct, iso_weeks_in_year}
use time_shield_cpp.IsoWeek.Weeks.{is_valid_iso_week_date-intro}
use time_shield_cpp.IsoWeek.Text.{
  upper_w, separator, has_valid_fields, format_iso_week_date, parse_iso_week_date,
}
use time_shield_cpp.IsoWeek.Text.Pieces.{
  parsed_weekday, day_text, year_read, after_year_read, after_year_start,
}

-- What the checks of the fields ask.
record IsFormatted (w : IsoWeekDateStruct) (include_weekday : Bool) : Type 0 where
  year_in : (min_year ≤ℤ w.year) × (w.year ≤ℤ max_year)
  week_in : (pos 1 ≤ℤ w.week) × (w.week ≤ℤ iso_weeks_in_year w.year)
  weekday_in :
      (pos 1 ≤ℤ parsed_weekday w.weekday include_weekday)
      × (parsed_weekday w.weekday include_weekday ≤ℤ pos 7)

fields-IsFormatted :
    (w : IsoWeekDateStruct) (include_weekday : Bool)
    → has_valid_fields w include_weekday ≡ true
    → IsFormatted w include_weekday
unfolding has_valid_fields
fields-IsFormatted w true h = record {
  year_in = ground arith;
  week_in = ground arith;
  weekday_in = ground arith;
}
fields-IsFormatted w false h = record {
  year_in = ground arith;
  week_in = ground arith;
  weekday_in = ground arith;
}

formatted :
    (b : Bool) (x text : List ℕ)
    → (if not b then none else some x) ≡ some text
    → (b ≡ true) × (x ≡ text)
formatted true x text e = (refl, grind arith)
formatted false x text e = absurd (grind arith)

nonneg-pos : (a : ℤ) → pos 1 ≤ℤ a → pos (pos_part a) ≡ a
nonneg-pos (pos n) h = refl
nonneg-pos (negsuc n) h = absurd (omega arith)

fields_read :
    (y : ℤ) (k wd : ℕ) (extended include_weekday : Bool)
    → (min_year ≤ℤ y) × (y ≤ℤ max_year)
    → (1 ≤ k) × (k ≤ 99)
    → pos k ≤ℤ iso_weeks_in_year y
    → (pos 1 ≤ℤ parsed_weekday (pos wd) include_weekday)
      × (parsed_weekday (pos wd) include_weekday ≤ℤ pos 7)
    → wd ≤ 9
    → parse_iso_week_date (
        print_int y
          (separator extended (upper_w ∷ print_two k (day_text (pos wd) extended include_weekday))))
      ≡ some (record { year = y; week = pos k; weekday = parsed_weekday (pos wd) include_weekday })
fields_read y k wd extended include_weekday r two last day digit =
    year_read y _ r (after_year_start extended _)
    ∙ after_year_read y k wd extended include_weekday two digit
        (is_valid_iso_week_date-intro y (pos k) _ r day (omega (arith, two.0)) last)

-- What is formatted for a week of at most two digits, in either format, is parsed to the same
-- week date, with Monday where the weekday was left out.
pub parse_iso_week_date-format_iso_week_date :
    (w : IsoWeekDateStruct) (extended include_weekday : Bool) (text : List ℕ)
    → w.week ≤ℤ pos 99
    → format_iso_week_date w extended include_weekday ≡ some text
    → parse_iso_week_date text
      ≡ some (record w { weekday = parsed_weekday w.weekday include_weekday })
unfolding format_iso_week_date
parse_iso_week_date-format_iso_week_date w extended true text two e =
    let (ok, same) = formatted _ _ text e in
    let v = fields-IsFormatted w true ok in
    let day : ((pos 1 ≤ℤ w.weekday) × (w.weekday ≤ℤ pos 7)) = v.weekday_in in
    let one = parts_disjoint w.weekday in
    let k = nonneg-pos w.week v.week_in.0 in
    let wd = nonneg-pos w.weekday v.weekday_in.0 in
    ap parse_iso_week_date (sym same)
    ∙ ap
        (λ d. parse_iso_week_date (
          print_int w.year (
            separator extended (upper_w ∷ print_two (pos_part w.week) (day_text d extended true)))))
        (sym wd)
    ∙ fields_read w.year (pos_part w.week) (pos_part w.weekday) extended true v.year_in
        (omega (arith, v.week_in, two, parts_disjoint w.week))
        (omega (arith, v.week_in, parts_disjoint w.week)) (omega arith, omega arith) (omega arith)
    ∙ (λ i. some (record { year = w.year; week = k i; weekday = wd i }))
parse_iso_week_date-format_iso_week_date w extended false text two e =
    let (ok, same) = formatted _ _ text e in
    let v = fields-IsFormatted w false ok in
    let k = nonneg-pos w.week v.week_in.0 in
    ap parse_iso_week_date (sym same)
    ∙ fields_read w.year (pos_part w.week) 1 extended false v.year_in
        (omega (arith, v.week_in, two, parts_disjoint w.week))
        (omega (arith, v.week_in, parts_disjoint w.week)) (omega arith, omega arith) (omega arith)
    ∙ (λ i. some (record { year = w.year; week = k i; weekday = pos 1 }))
