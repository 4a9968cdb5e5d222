-- ===== src/Formatting/Zone.antt =====
-- What time_parser.hpp makes of the offset that time_formatting.hpp prints.
use time_shield_cpp.Base.{
  ℕ, ◌+◌, ◌-◌, ◌*◌, ◌/◌, ◌%◌, ◌≤◌, ◌≡◌, refl, ◌⊎◌, inl, inr, Bool, true, false, ◌||◌, [], ◌∷◌, ◌==◌,
  some, arith,
}
use time_shield_cpp.Base.Int.{pos}
use time_shield_cpp.Text.{minus_char, plus_char, zero_char, print_two}
use time_shield_cpp.Text.Printed.{digit, print_two_lem}
use time_shield_cpp.Validation.{is_valid_time_zone}
use time_shield_cpp.TimeZones.{TimeZoneStruct}
use time_shield_cpp.Parser.{is_ascii_space, skip_spaces}
use time_shield_cpp.Parser.Iso8601.{colon_char, parse_time_zone, read_zone}
use time_shield_cpp.Formatting.{zone_text}
use time_shield_cpp.Formatting.Fields.{digit_is}

-- A time zone that is printed at the end.
abbrev pub zone : ℕ → ℕ → Bool → TimeZoneStruct
zone h mi positive = record { hour = pos h; min = pos mi; is_positive = positive }

valid_zone : (h mi : ℕ) → h ≤ 23 → mi ≤ 59 → is_valid_time_zone (pos h) (pos mi) ≡ true
unfolding is_valid_time_zone
valid_zone h mi p q = ground arith

two_value : (k : ℕ) → (digit (k / 10) - zero_char) * 10 + (digit (k % 10) - zero_char) ≡ k
two_value k = omega arith

parse_time_zone-zone :
    (h mi sign : ℕ)
    → h ≤ 23
    → mi ≤ 59
    → (sign ≡ plus_char) ⊎ (sign ≡ minus_char)
    → parse_time_zone (
        sign
        ∷ digit (h / 10)
        ∷ digit (h % 10)
        ∷ colon_char
        ∷ digit (mi / 10)
        ∷ digit (mi % 10)
        ∷ [])
      ≡ some (zone h mi (sign == plus_char))
unfolding parse_time_zone
parse_time_zone-zone h mi sign hour min which =
    let signed : (((sign == plus_char) || (sign == minus_char)) ≡ true) = ground arith in
    rw
      (
        signed,
        digit_is (h / 10) (omega arith),
        digit_is (h % 10) (omega arith),
        digit_is (mi / 10) (omega arith),
        digit_is (mi % 10) (omega arith),
        two_value h,
        two_value mi,
        valid_zone h mi hour min,
      )
      refl

pub read_zone-zone :
    (h mi : ℕ) (positive : Bool)
    → h ≤ 23
    → mi ≤ 59
    → read_zone (skip_spaces (zone_text (zone h mi positive) [])) ≡ some (zone h mi positive, [])
unfolding read_zone skip_spaces zone_text is_ascii_space
read_zone-zone h mi true hour min =
    rw
      (
        print_two_lem h (colon_char ∷ print_two mi []) (omega arith),
        print_two_lem mi [] (omega arith),
        parse_time_zone-zone h mi plus_char hour min (inl refl),
      )
      refl
read_zone-zone h mi false hour min =
    rw
      (
        print_two_lem h (colon_char ∷ print_two mi []) (omega arith),
        print_two_lem mi [] (omega arith),
        parse_time_zone-zone h mi minus_char hour min (inr refl),
      )
      refl
