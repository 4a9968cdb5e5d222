-- ===== src/Examples/Formats.antt =====
-- The theorems on to_string at concrete formats, and a run with a literal at the start.
use time_shield_cpp.Base.{◌≡◌, refl, List, [], ◌∷◌, ◌++◌, some, arith}
use time_shield_cpp.Base.Int.{pos, negsuc, ◌+ℤ◌}
use time_shield_cpp.DateTime.{to_date_time}
use time_shield_cpp.Parser.Iso8601.{zero_zone, parse_iso8601}
use time_shield_cpp.Parser.Timeframe.{codes}
use time_shield_cpp.Formatting.{to_iso8601}
use time_shield_cpp.Formatting.Format.{process_format_impl, to_string, format_text, format_loop}
use time_shield_cpp.Formatting.Tokens.{
  Token, literal, directive, format_of, meaning, again, repeated, to_string-meaning,
}
use time_shield_cpp.Formatting.IsoFormat.{to_string-iso8601}
use time_shield_cpp.Examples.{methods}

-- The letter T is printed twice.
literal_run : to_string (codes "T%%") (pos 0) (pos 0) ≡ codes "TT%"
unfolding to_string format_text format_loop
literal_run = refl

-- "%YYYY/%d"
abbrev tokens : List Token
tokens = directive b'Y' 3 ∷ literal b'/' ∷ directive b'd' 0 ∷ []

to_string-meaning_example :
    to_string (format_of tokens) (negsuc 0) (pos 3_600)
    ≡ again tokens
      ++ meaning
          (λ c n.
            process_format_impl c n (negsuc 0) (pos 3_600) (to_date_time (negsuc 0 +ℤ pos 3_600)))
          tokens
unfolding format_of repeated
to_string-meaning_example =
    to_string-meaning tokens (negsuc 0) (pos 3_600) (refl, refl, (refl, (refl, tt, tt)))

to_string-iso8601_example :
    (to_string (codes "%Y-%m-%dT%H:%M:%S") (pos 1_709_251_199) (pos 3_600)
      ≡ to_iso8601 (pos 1_709_251_199 +ℤ pos 3_600))
    × (parse_iso8601 (to_string (codes "%Y-%m-%dT%H:%M:%S") (pos 1_709_251_199) (pos 3_600))
        ≡ some (to_date_time (pos 1_709_251_199 +ℤ pos 3_600), zero_zone))
unfolding methods
to_string-iso8601_example =
    to_string-iso8601 (pos 1_709_251_199) (pos 3_600)
      (record { low = omega arith; high = omega arith }) (omega arith, omega arith)
