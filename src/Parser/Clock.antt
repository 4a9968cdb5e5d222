-- ===== src/Parser/Clock.antt =====
-- include/time_shield/time_parser.hpp: sec_of_day of a text with hours, minutes and seconds. The
-- text holds no NUL, and its numbers are exact: the code adds them up in an int.
use time_shield_cpp.Base.{
  ℕ, zero, suc, ◌+◌, ◌*◌, ◌/◌, ◌≤◌, ◌≡◌, refl, ap, ◌∙◌, true, false, not, List, [], ◌∷◌, ◌==◌,
  get_or, if◌then◌else◌, Option, some, none, ◌>>=◌, arith,
}
use time_shield_cpp.Base.Int.{ℤ, pos, pos_part, neg_part, int_laws, eq_of_parts, parts_disjoint}
use time_shield_cpp.Constants.{sec_per_day}
use time_shield_cpp.Detail.FastDate.{split_unix_day}
use time_shield_cpp.Detail.FloorMath.{floor_mod, floor_div, floor_div-floor_mod}
use time_shield_cpp.Text.{is_end, read_digits, starts_with_digit, print_two, length}
use time_shield_cpp.Text.Printed.{two_number, print_two_lem}
use time_shield_cpp.UnixTime.{sec_of_day_hms}
use time_shield_cpp.Validation.{is_valid_time}
use time_shield_cpp.DateTime.{to_date_time}
use time_shield_cpp.DateTime.Split.{IsSplit, unix_day-IsSplit}
use time_shield_cpp.DateTime.RoundTrip.{IsTime, to_date_time-IsTime}
use time_shield_cpp.Parser.Iso8601.{colon_char}
use time_shield_cpp.Formatting.{time_text, to_iso8601_time}
use time_shield_cpp.Formatting.Stamp.{within}
use time_shield_cpp.Formatting.Fields.{digit_is}
use time_shield_cpp.Formatting.RoundTrip.{take_all, length-print_two}

-- What follows a number: the end, or a colon and the next round.
unfoldable pub after_value : (List ℕ → Option (List ℕ)) → ℕ → List ℕ → Option (List ℕ)
after_value next value [] = some (value ∷ [])
after_value next value (c ∷ p) =
    if c == colon_char then (next p >>= λ parts. some (value ∷ parts)) else none

-- The loop, with the count of the parts that are still open.
unfoldable pub parts_loop : ℕ → List ℕ → Option (List ℕ)
unfolding after_value
parts_loop zero p = some []
parts_loop (suc left) p =
    if is_end p
    then some []
    else if not (starts_with_digit p)
    then none
    else (let (value, rest) = read_digits 0 p in after_value (parts_loop left) value rest)

unfoldable pub sec_of_parts : List ℕ → Option ℤ
sec_of_parts parts =
    let hour = pos (get_or parts 0 0) in
    let min = pos (get_or parts 1 0) in
    let sec = pos (get_or parts 2 0) in
    if not (is_valid_time hour min sec (pos 0)) then none else some (sec_of_day_hms hour min sec)

unfoldable pub sec_of_day_str : List ℕ → Option ℤ
unfolding parts_loop sec_of_parts
sec_of_day_str str = if is_end str then none else (parts_loop 3 str >>= λ parts. sec_of_parts parts)

-- The overload that returns SEC_PER_DAY for what is no time.
unfoldable pub sec_of_day_or_day : List ℕ → ℤ
unfolding sec_of_day_str
sec_of_day_or_day str = elim (sec_of_day_str str) [ some sec ↦ sec | none ↦ sec_per_day ]

two_starts :
    (k : ℕ) (p : List ℕ)
    → k ≤ 99
    → (is_end (print_two k p) ≡ false) × (starts_with_digit (print_two k p) ≡ true)
unfolding is_end starts_with_digit
two_starts k p h = rw (print_two_lem k p h) (refl, digit_is (k / 10) (omega arith))

parts_round :
    (left k : ℕ) (p : List ℕ)
    → k ≤ 99
    → starts_with_digit p ≡ false
    → parts_loop (suc left) (print_two k p) ≡ after_value (parts_loop left) k p
unfolding parts_loop
parts_round left k p h e =
    let (more, digits) = two_starts k p h in rw (more, digits, two_number k p h e) refl

parts_read :
    (h mi s : ℕ)
    → (h ≤ 23) × (mi ≤ 59) × (s ≤ 59)
    → parts_loop 3 (print_two h (colon_char ∷ print_two mi (colon_char ∷ print_two s [])))
      ≡ some (h ∷ mi ∷ s ∷ [])
unfolding after_value starts_with_digit
parts_read h mi s (hour, min, sec) =
    parts_round 2 h (colon_char ∷ print_two mi (colon_char ∷ print_two s [])) (omega arith) refl
    ∙ ap (λ o. o >>= λ parts. some (h ∷ parts))
        (parts_round 1 mi (colon_char ∷ print_two s []) (omega arith) refl
          ∙ ap (λ o. o >>= λ parts. some (mi ∷ parts)) (parts_round 0 s [] (omega arith) refl))

clock_parsed :
    (h mi s : ℕ)
    → (h ≤ 23) × (mi ≤ 59) × (s ≤ 59)
    → sec_of_day_str (print_two h (colon_char ∷ print_two mi (colon_char ∷ print_two s [])))
      ≡ some (sec_of_day_hms (pos h) (pos mi) (pos s))
unfolding sec_of_day_str sec_of_parts
clock_parsed h mi s (hour, min, sec) =
    let rest = colon_char ∷ print_two mi (colon_char ∷ print_two s []) in
    let valid : (is_valid_time (pos h) (pos mi) (pos s) (pos 0) ≡ true) =
      unfold is_valid_time in ground arith in
    let known : (sec_of_parts (h ∷ mi ∷ s ∷ []) ≡ some (sec_of_day_hms (pos h) (pos mi) (pos s))) =
      rw valid refl in
    ap (λ b. if b then none else (parts_loop 3 (print_two h rest) >>= λ parts. sec_of_parts parts))
      (two_starts h rest (omega arith)).0
    ∙ ap (λ o. o >>= λ parts. sec_of_parts parts) (parts_read h mi s (hour, min, sec))
    ∙ known

clock_sum :
    (ts day sec h mi s : ℤ)
    → IsTime h mi s
    → pos_part h * 3600 + pos_part mi * 60 + pos_part s ≡ pos_part sec
    → IsSplit ts (record { days = day; sec_of_day = sec })
    → sec_of_day_hms (pos (pos_part h)) (pos (pos_part mi)) (pos (pos_part s))
      ≡ floor_mod ts (pos 86_400)
unfolding sec_of_day_hms
clock_sum ts day sec h mi s t sum v =
    let f = floor_div-floor_mod ts 86_400 (omega arith) in
    eq_of_parts _ _ (
      omega (
        int_laws,
        ap pos_part f.0,
        ap neg_part f.0,
        f.1,
        f.2,
        sum,
        v.sum,
        v.sec_is,
        v.sec_in,
        parts_disjoint day,
        parts_disjoint (floor_div ts (pos 86_400)),
      ))

-- The time of day that to_iso8601_time prints for a timestamp is read by sec_of_day as the
-- seconds since midnight, before the epoch too.
pub sec_of_day_str-to_iso8601_time :
    (ts : ℤ) → sec_of_day_str (to_iso8601_time ts) ≡ some (floor_mod ts (pos 86_400))
unfolding to_iso8601_time time_text length
sec_of_day_str-to_iso8601_time ts =
    let dt = to_date_time ts in
    let (time, sum) = to_date_time-IsTime ts in
    let h = within dt.hour 0 23 time.hour_in in
    let mi = within dt.min 0 59 time.min_in in
    let s = within dt.sec 0 59 time.sec_in in
    ap sec_of_day_str (
      take_all 31 _ (
        omega (
          arith,
          h,
          mi,
          s,
          length-print_two (pos_part dt.hour) (
              colon_char
              ∷ print_two (pos_part dt.min) (colon_char ∷ print_two (pos_part dt.sec) [])),
          length-print_two (pos_part dt.min) (colon_char ∷ print_two (pos_part dt.sec) []),
          length-print_two (pos_part dt.sec) [],
        )))
    ∙ clock_parsed (pos_part dt.hour) (pos_part dt.min) (pos_part dt.sec) (h.1, mi.1, s.1)
    ∙ ap some (
        clock_sum ts (split_unix_day ts).days (split_unix_day ts).sec_of_day dt.hour dt.min dt.sec
          time sum (unix_day-IsSplit ts))
