-- ===== src/Parser/Valid.antt =====
-- What a text that parse_iso8601 accepts gives.
use time_shield_cpp.Base.{
  ℕ, ◌≡◌, refl, sym, subst, Bool, true, false, ◌&&◌, ◌||◌, List, [], ◌∷◌, ltb, ◌==◌, if◌then◌else◌,
  Option, some, none, ◌>>=◌, ◌>>◌, guard,
}
use time_shield_cpp.Base.Int.{ℤ, pos, ◌-ℤ◌}
use time_shield_cpp.Units.{sec_to_ms}
use time_shield_cpp.Text.{plus_char, minus_char, length, take, drop, is_end}
use time_shield_cpp.IsoWeek.{DateStruct}
use time_shield_cpp.Validation.{is_valid_date, is_valid_date_time, is_valid_time_zone}
use time_shield_cpp.DateTime.{DateTimeStruct, dt_to_timestamp, dt_to_timestamp_ms, join_ms}
use time_shield_cpp.TimeZones.{TimeZoneStruct, time_zone_struct_to_offset}
use time_shield_cpp.DateTime.Accepted.{to_timestamp-valid}
use time_shield_cpp.Parser.Timestamps.{str_to_ts, str_to_ts_ms}
use time_shield_cpp.Parser.{skip_spaces, is_ascii_digit, parse_2digits}
use time_shield_cpp.Parser.Iso8601.{
  colon_char, two_digits, zero_zone, parse_time_zone, parse_date, read_t, read_colon, read_seconds,
  read_fraction, read_zone, is_z, parse_time, date_only, parse_iso8601,
}

bind_inverse {ℓ κ} :
    {A : Type ℓ} {B : Type κ} (m : Option A) (f : A → Option B) (b : B)
    → (m >>= f) ≡ some b
    → (a : A) × (m ≡ some a) × (f a ≡ some b)
bind_inverse (some a) f b e = (a, refl, e)
bind_inverse none f b e = absurd (cc e)

guard_inverse {ℓ} :
    {B : Type ℓ} (t : Bool) (k : Option B) (b : B)
    → (guard t >> k) ≡ some b
    → (t ≡ true) × (k ≡ some b)
guard_inverse true k b e = (refl, e)
guard_inverse false k b e = absurd (cc e)

some_inverse {ℓ} : {A : Type ℓ} (a b : A) → some a ≡ some b → a ≡ b
some_inverse a b e = cc e

abbrev IsZone : TimeZoneStruct → Type 0
IsZone tz = is_valid_time_zone tz.hour tz.min ≡ true

zero_zone-IsZone : IsZone zero_zone
unfolding is_valid_time_zone
zero_zone-IsZone = refl

parse_time_zone-IsZone :
    (p : List ℕ) (tz : TimeZoneStruct) → parse_time_zone p ≡ some tz → IsZone tz
unfolding parse_time_zone
parse_time_zone-IsZone [] tz e = subst IsZone (some_inverse _ _ e) zero_zone-IsZone
parse_time_zone-IsZone (c ∷ []) tz e = one ((c == 90) || (c == 122)) e
  where
    one : (b : Bool) → (if b then some zero_zone else none) ≡ some tz → IsZone tz
    one true e = subst IsZone (some_inverse _ _ e) zero_zone-IsZone
    one false e = absurd (cc e)
parse_time_zone-IsZone (sign ∷ a ∷ b ∷ colon ∷ c ∷ d ∷ []) tz e =
    four_guards ((sign == plus_char) || (sign == minus_char)) (colon == colon_char)
      (is_ascii_digit a && is_ascii_digit b && is_ascii_digit c && is_ascii_digit d)
      (record {
        hour = pos (two_digits a b);
        min = pos (two_digits c d);
        is_positive = sign == plus_char;
      })
      tz e
  where
    four_guards :
        (b1 b2 b3 : Bool) (x tz : TimeZoneStruct)
        → (guard b1
            >> (guard b2 >> (guard b3 >> (guard (is_valid_time_zone x.hour x.min) >> some x))))
          ≡ some tz
        → IsZone tz
    four_guards b1 b2 b3 x tz e =
        let (_, e1) = guard_inverse b1 _ tz e in
        let (_, e2) = guard_inverse b2 _ tz e1 in
        let (_, e3) = guard_inverse b3 _ tz e2 in
        let (valid, e4) = guard_inverse (is_valid_time_zone x.hour x.min) _ tz e3 in
        subst IsZone (some_inverse x tz e4) valid
parse_time_zone-IsZone _ tz e = absurd (cc e)

read_zone-IsZone : (p : List ℕ) (r : TimeZoneStruct × List ℕ) → read_zone p ≡ some r → IsZone r.0
unfolding read_zone
read_zone-IsZone [] r e = subst (λ x. IsZone x.0) (some_inverse _ _ e) zero_zone-IsZone
read_zone-IsZone (c ∷ p) r e =
    branches (is_z c) ((c == plus_char) || (c == minus_char)) (ltb (length (c ∷ p)) 6)
      (take 6 (c ∷ p)) (drop 6 (c ∷ p)) (zero_zone, p) (zero_zone, c ∷ p) r refl refl e
  where
    branches :
        (z sign short : Bool) (six later : List ℕ) (x y r : TimeZoneStruct × List ℕ)
        → x.0 ≡ zero_zone
        → y.0 ≡ zero_zone
        → (if z
            then some x
            else if sign
            then (if short then none else (parse_time_zone six >>= λ tz. some (tz, later)))
            else some y)
          ≡ some r
        → IsZone r.0
    branches true sign short six later x y r ex ey e =
        subst (λ w. IsZone w.0) (some_inverse _ _ e) (subst IsZone (sym ex) zero_zone-IsZone)
    branches false false short six later x y r ex ey e =
        subst (λ w. IsZone w.0) (some_inverse _ _ e) (subst IsZone (sym ey) zero_zone-IsZone)
    branches false true true six later x y r ex ey e = absurd (cc e)
    branches false true false six later x y r ex ey e =
        let (tz, parsed, same) = bind_inverse (parse_time_zone six) (λ tz. some (tz, later)) r e in
        subst (λ w. IsZone w.0) (some_inverse _ _ same) (parse_time_zone-IsZone six tz parsed)

-- Fields and a zone that the checks accept.
abbrev pub IsAccepted : DateTimeStruct × TimeZoneStruct → Type 0
IsAccepted (t, tz) =
    (is_valid_date_time t.year t.mon t.day t.hour t.min t.sec t.ms ≡ true) × IsZone tz

parse_time-IsAccepted :
    (date : DateStruct) (p : List ℕ) (r : DateTimeStruct × TimeZoneStruct)
    → parse_time date p ≡ some r
    → IsAccepted r
unfolding parse_time
parse_time-IsAccepted date p r e =
    let (p1, _, e1) = bind_inverse (read_t p) _ r e in
    let ((hour, p2), _, e2) = bind_inverse (parse_2digits p1) _ r e1 in
    let (p3, _, e3) = bind_inverse (read_colon p2) _ r e2 in
    let ((min, p4), _, e4) = bind_inverse (parse_2digits p3) _ r e3 in
    let ((sec, has, p5), _, e5) = bind_inverse (read_seconds p4) _ r e4 in
    let ((ms, p6), _, e6) = bind_inverse (read_fraction has p5) _ r e5 in
    let ((tz, p7), zone, e7) = bind_inverse (read_zone (skip_spaces p6)) _ r e6 in
    let (_, e8) = guard_inverse (is_end (skip_spaces p7)) _ r e7 in
    let (valid, e9) =
      guard_inverse
        (is_valid_date_time date.year date.mon date.day (pos hour) (pos min) (pos sec) (pos ms)) _ r
        e8 in
    subst IsAccepted (some_inverse _ _ e9) (valid, read_zone-IsZone (skip_spaces p6) (tz, p7) zone)

date_only-IsAccepted :
    (date : DateStruct) (r : DateTimeStruct × TimeZoneStruct)
    → date_only date ≡ some r
    → IsAccepted r
unfolding date_only
date_only-IsAccepted date r e =
    let (valid, same) =
      guard_inverse (is_valid_date_time date.year date.mon date.day (pos 0) (pos 0) (pos 0) (pos 0))
        _ r e in
    subst IsAccepted (some_inverse _ _ same) (valid, zero_zone-IsZone)

-- The date and time and the zone that parse_iso8601 gives for an accepted text pass
-- is_valid_date_time and is_valid_time_zone.
pub parse_iso8601-IsAccepted :
    (input : List ℕ) (r : DateTimeStruct × TimeZoneStruct)
    → parse_iso8601 input ≡ some r
    → IsAccepted r
unfolding parse_iso8601
parse_iso8601-IsAccepted input r e =
    let ((date, p), _, e1) = bind_inverse (parse_date (skip_spaces input)) _ r e in
    let (_, e2) = guard_inverse (is_valid_date date.year date.mon date.day) _ r e1 in
    either (is_end (skip_spaces p)) date p e2
  where
    either :
        (b : Bool) (date : DateStruct) (p : List ℕ)
        → (if b then date_only date else parse_time date p) ≡ some r
        → IsAccepted r
    either true date p e = date_only-IsAccepted date r e
    either false date p e = parse_time-IsAccepted date p r e

-- For a text that parse_iso8601 accepts, str_to_ts and str_to_ts_ms give a timestamp: the
-- exceptions that they catch are not thrown.
pub str_to_ts-parse_iso8601 :
    (str : List ℕ) (r : DateTimeStruct × TimeZoneStruct)
    → parse_iso8601 str ≡ some r
    → ((t : ℤ) × (str_to_ts str ≡ some t)) × ((t : ℤ) × (str_to_ts_ms str ≡ some t))
unfolding str_to_ts str_to_ts_ms dt_to_timestamp dt_to_timestamp_ms
str_to_ts-parse_iso8601 str r e =
    let (dt, tz) = r in
    let (valid, _) = parse_iso8601-IsAccepted str r e in
    let (t, done) = to_timestamp-valid dt.year dt.mon dt.day dt.hour dt.min dt.sec dt.ms valid in
    (
      (t -ℤ time_zone_struct_to_offset tz, rw (e, done) refl),
      (join_ms t dt.ms -ℤ sec_to_ms (time_zone_struct_to_offset tz), rw (e, done) refl),
    )
