-- ===== src/Parser/Names.antt =====
-- include/time_shield/time_parser.hpp: names of months and of time zones. std::isspace and the
-- tolower of the locale are arguments.
use time_shield_cpp.Base.{
  ℕ, ◌+◌, Bool, true, false, not, ◌&&◌, ◌||◌, List, [], ◌∷◌, ◌==◌, if◌then◌else◌, Option, some,
  none,
}
use time_shield_cpp.Text.{is_end}
use time_shield_cpp.TimeZones.Named.{
  TimeZone, gmt, utc, eet, cet, wet, eest, cest, west, et, ct, ist, myt, wib, wita, wit, kzt, trt,
  byt, sgt, ict, pht, gst, hkt, jst, kst,
}
use time_shield_cpp.Parser.Timeframe.{codes}

unfoldable pub same_text : List ℕ → List ℕ → Bool
same_text [] [] = true
same_text [] (d ∷ q) = false
same_text (c ∷ p) [] = false
same_text (c ∷ p) (d ∷ q) = if not (c == d) then false else same_text p q

abbrev pub time_zone_name_entries : List (List ℕ × TimeZone)
time_zone_name_entries =
    (codes "GMT", gmt)
    ∷ (codes "UTC", utc)
    ∷ (codes "EET", eet)
    ∷ (codes "CET", cet)
    ∷ (codes "WET", wet)
    ∷ (codes "EEST", eest)
    ∷ (codes "CEST", cest)
    ∷ (codes "WEST", west)
    ∷ (codes "ET", et)
    ∷ (codes "CT", ct)
    ∷ (codes "IST", ist)
    ∷ (codes "MYT", myt)
    ∷ (codes "WIB", wib)
    ∷ (codes "WITA", wita)
    ∷ (codes "WIT", wit)
    ∷ (codes "KZT", kzt)
    ∷ (codes "TRT", trt)
    ∷ (codes "BYT", byt)
    ∷ (codes "SGT", sgt)
    ∷ (codes "ICT", ict)
    ∷ (codes "PHT", pht)
    ∷ (codes "GST", gst)
    ∷ (codes "HKT", hkt)
    ∷ (codes "JST", jst)
    ∷ (codes "KST", kst)
    ∷ []

-- The loop over the entries.
unfoldable pub find_zone : List (List ℕ × TimeZone) → List ℕ → Option TimeZone
unfolding same_text
find_zone [] token = none
find_zone ((name, zone) ∷ rest) token =
    if same_text token name then some zone else find_zone rest token

-- Where there is none the zone becomes UNKNOWN.
unfoldable pub try_parse_time_zone_name_token : List ℕ → Option TimeZone
unfolding find_zone
try_parse_time_zone_name_token [] = none
try_parse_time_zone_name_token (c ∷ p) = find_zone time_zone_name_entries (c ∷ p)

-- The short and the full name of each month.
abbrev pub month_names : List (List ℕ × List ℕ)
month_names =
    (codes "jan", codes "january")
    ∷ (codes "feb", codes "february")
    ∷ (codes "mar", codes "march")
    ∷ (codes "apr", codes "april")
    ∷ (codes "may", codes "may")
    ∷ (codes "jun", codes "june")
    ∷ (codes "jul", codes "july")
    ∷ (codes "aug", codes "august")
    ∷ (codes "sep", codes "september")
    ∷ (codes "oct", codes "october")
    ∷ (codes "nov", codes "november")
    ∷ (codes "dec", codes "december")
    ∷ []

-- The loop over the months, from the month before the first of them.
unfoldable pub find_month : List (List ℕ × List ℕ) → ℕ → List ℕ → Option ℕ
unfolding same_text
find_month [] before month = none
find_month ((short, full) ∷ rest) before month =
    if same_text month short || same_text month full
    then some (before + 1)
    else find_month rest (before + 1) month

module _ (isspace : ℕ → Bool) where
  -- The loops that take white space off both ends.
  unfoldable pub trim_begin : List ℕ → List ℕ
  trim_begin [] = []
  trim_begin (c ∷ p) = if isspace c then trim_begin p else c ∷ p

  unfoldable pub trim_back : List ℕ → List ℕ
  unfolding is_end
  trim_back [] = []
  trim_back (c ∷ p) = let rest = trim_back p in if is_end rest && isspace c then [] else c ∷ rest

  unfoldable pub parse_time_zone_name : List ℕ → Option TimeZone
  unfolding trim_begin trim_back try_parse_time_zone_name_token
  parse_time_zone_name value = try_parse_time_zone_name_token (trim_back (trim_begin value))

module _ (tolower : ℕ → ℕ) where
  unfoldable pub lower_all : List ℕ → List ℕ
  lower_all [] = []
  lower_all (c ∷ p) = tolower c ∷ lower_all p

unfoldable pub try_parse_month_index : (ℕ → Bool) → (ℕ → ℕ) → List ℕ → Option ℕ
unfolding trim_begin trim_back lower_all find_month is_end
try_parse_month_index isspace tolower month =
    let month_copy = lower_all tolower (trim_back isspace (trim_begin isspace month)) in
    if is_end month_copy then none else find_month month_names 0 month_copy
