-- ===== src/Parser/Timeframe.antt =====
-- include/time_shield/time_parser.hpp: timeframes such as "15 minutes", "H4" or "day".
pub mod Numbers
use Prim.Native.Char.{code}
use Prim.Native.String.{String}
use time_shield_cpp.Base.{
  ℕ, zero, suc, ◌+◌, ◌-◌, ◌*◌, ◌/◌, Bool, true, false, not, ◌&&◌, ◌||◌, List, [], ◌∷◌, ltb, leb,
  ◌==◌, if◌then◌else◌, Option, some, none, ◌>>=◌, ◌>>◌, guard,
}
use time_shield_cpp.Text.{zero_char, is_end, starts_with_digit}
use time_shield_cpp.Parser.{is_ascii_space, is_ascii_digit, skip_spaces}

-- The greatest of int64_t.
abbrev pub max_value : ℕ
max_value = 9_223_372_036_854_775_807

unfoldable pub is_ascii_alpha : ℕ → Bool
is_ascii_alpha c = (leb 65 c && leb c 90) || (leb 97 c && leb c 122)

unfoldable pub ascii_to_lower : ℕ → ℕ
ascii_to_lower c = if leb 65 c && leb c 90 then c - 65 + 97 else c

unfoldable pub ascii_iequals : List ℕ → List ℕ → Bool
unfolding ascii_to_lower
ascii_iequals [] [] = true
ascii_iequals [] (l ∷ literal) = false
ascii_iequals (c ∷ p) [] = false
ascii_iequals (c ∷ p) (l ∷ literal) =
    if not (ascii_to_lower c == ascii_to_lower l) then false else ascii_iequals p literal

-- The loop of try_parse_positive_int64.
unfoldable pub int64_loop : ℕ → List ℕ → Option ℕ
int64_loop value [] = some value
int64_loop value (c ∷ p) =
    let rest = int64_loop (value * 10 + (c - zero_char)) p in
    if not (is_ascii_digit c)
    then none
    else if ltb ((max_value - (c - zero_char)) / 10) value
    then none
    else rest

unfoldable pub try_parse_positive_int64 : List ℕ → Option ℕ
unfolding int64_loop
try_parse_positive_int64 [] = none
try_parse_positive_int64 (c ∷ p) = do value ← int64_loop 0 (c ∷ p); guard (ltb 0 value); some value

-- The factors are not negative.
unfoldable pub try_multiply_positive_int64 : ℕ → ℕ → Option ℕ
try_multiply_positive_int64 lhs rhs =
    if leb lhs 0 || leb rhs 0
    then none
    else if ltb (max_value / rhs) lhs
    then none
    else some (lhs * rhs)

unfoldable pub unit_of_letter : ℕ → Option ℕ
unit_of_letter c =
    if c == b's'
    then some 1
    else if c == b'm'
    then some 60
    else if c == b'h'
    then some 3_600
    else if c == b'd'
    then some 86_400
    else if c == b'w'
    then some (86_400 * 7)
    else if c == b'q'
    then some (86_400 * 90)
    else if c == b'y'
    then some 31_536_000
    else none

unfoldable pub try_get_timeframe_unit_seconds_compact : List ℕ → Option ℕ
unfolding unit_of_letter ascii_to_lower
try_get_timeframe_unit_seconds_compact [] = none
try_get_timeframe_unit_seconds_compact (c ∷ []) = unit_of_letter (ascii_to_lower c)
try_get_timeframe_unit_seconds_compact (c ∷ d ∷ []) =
    if (ascii_to_lower c == b'm') && (ascii_to_lower d == b'n') then some (86_400 * 30) else none
try_get_timeframe_unit_seconds_compact (c ∷ d ∷ e ∷ p) = none

abbrev pub codes : String → List ℕ
codes String.[] = []
codes (String.◌∷◌ c s) = code c ∷ codes s

abbrev pub entries : List (List ℕ × ℕ)
entries =
    (codes "sec", 1)
    ∷ (codes "second", 1)
    ∷ (codes "seconds", 1)
    ∷ (codes "min", 60)
    ∷ (codes "minute", 60)
    ∷ (codes "minutes", 60)
    ∷ (codes "hr", 3_600)
    ∷ (codes "hour", 3_600)
    ∷ (codes "hours", 3_600)
    ∷ (codes "day", 86_400)
    ∷ (codes "days", 86_400)
    ∷ (codes "week", 86_400 * 7)
    ∷ (codes "weeks", 86_400 * 7)
    ∷ (codes "month", 86_400 * 30)
    ∷ (codes "months", 86_400 * 30)
    ∷ (codes "quarter", 86_400 * 90)
    ∷ (codes "quarters", 86_400 * 90)
    ∷ (codes "year", 31_536_000)
    ∷ (codes "years", 31_536_000)
    ∷ []

-- The loop over the entries.
unfoldable pub find_entry : List (List ℕ × ℕ) → List ℕ → Option ℕ
unfolding ascii_iequals
find_entry [] word = none
find_entry ((name, seconds) ∷ rest) word =
    if ascii_iequals word name then some seconds else find_entry rest word

unfoldable pub try_get_timeframe_unit_seconds_word : List ℕ → Option ℕ
unfolding find_entry
try_get_timeframe_unit_seconds_word [] = none
try_get_timeframe_unit_seconds_word (c ∷ p) = find_entry entries (c ∷ p)

-- The loop that moves the end back over white space.
unfoldable pub trim_end : List ℕ → List ℕ
unfolding is_ascii_space is_end
trim_end [] = []
trim_end (c ∷ p) = let rest = trim_end p in if is_end rest && is_ascii_space c then [] else c ∷ rest

-- The loops that move a cursor: the characters before it, and from it on.
unfoldable pub split_while : (ℕ → Bool) → List ℕ → List ℕ × List ℕ
split_while test [] = ([], [])
split_while test (c ∷ p) =
    let (before, rest) = split_while test p in if test c then (c ∷ before, rest) else ([], c ∷ p)

unfoldable pub every : (ℕ → Bool) → List ℕ → Bool
every test [] = true
every test (c ∷ p) = if not (test c) then false else every test p

-- "15 minutes"
unfoldable pub number_then_word : List ℕ → Option ℕ
unfolding split_while every try_parse_positive_int64 try_get_timeframe_unit_seconds_word
    try_multiply_positive_int64 skip_spaces is_end is_ascii_alpha
number_then_word p = do
  let (digits, after) = split_while is_ascii_digit p
  multiplier ← try_parse_positive_int64 digits
  let cursor = skip_spaces after
  guard (not (is_end cursor))
  guard (every is_ascii_alpha cursor)
  unit_seconds ← try_get_timeframe_unit_seconds_word cursor
  try_multiply_positive_int64 multiplier unit_seconds

-- "H4"
unfoldable pub letters_then_number : List ℕ → List ℕ → Option ℕ
unfolding every try_parse_positive_int64 try_get_timeframe_unit_seconds_compact
    try_multiply_positive_int64
letters_then_number letters cursor = do
  guard (every is_ascii_digit cursor)
  unit_seconds ← try_get_timeframe_unit_seconds_compact letters
  multiplier ← try_parse_positive_int64 cursor
  try_multiply_positive_int64 multiplier unit_seconds

-- A word alone, or letters before a number.
unfoldable pub word_first : List ℕ × List ℕ → Option ℕ
unfolding letters_then_number try_get_timeframe_unit_seconds_word is_ascii_space
word_first (letters, []) = try_get_timeframe_unit_seconds_word letters
word_first (letters, c ∷ p) = if is_ascii_space c then none else letters_then_number letters (c ∷ p)

unfoldable pub timeframe_of : List ℕ → Option ℕ
unfolding number_then_word word_first split_while is_ascii_alpha
timeframe_of [] = none
timeframe_of (c ∷ p) =
    if is_ascii_digit c
    then number_then_word (c ∷ p)
    else if not (is_ascii_alpha c)
    then none
    else word_first (split_while is_ascii_alpha (c ∷ p))

unfoldable pub try_parse_timeframe_seconds : List ℕ → Option ℕ
unfolding timeframe_of trim_end skip_spaces
try_parse_timeframe_seconds str = timeframe_of (trim_end (skip_spaces str))

-- str_to_timeframe_sec and str_to_timeframe_ms.
unfoldable pub str_to_timeframe_sec : List ℕ → Option ℕ
unfolding try_parse_timeframe_seconds
str_to_timeframe_sec str = try_parse_timeframe_seconds str

unfoldable pub str_to_timeframe_ms : List ℕ → Option ℕ
unfolding try_parse_timeframe_seconds try_multiply_positive_int64
str_to_timeframe_ms str = do
  seconds ← try_parse_timeframe_seconds str
  try_multiply_positive_int64 seconds 1_000
