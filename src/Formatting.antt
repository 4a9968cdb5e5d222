-- ===== src/Formatting.antt =====
-- include/time_shield/time_formatting.hpp: the functions with a fixed format, for integer
-- timestamps. The fields of a date are not negative, apart from the year, and snprintf writes at
-- most 31 characters to the buffer of 32.
pub mod Stamp
pub mod Fields
pub mod Zone
pub mod Parsed
pub mod RoundTrip
pub mod Offset
pub mod Directives
pub mod Format
pub mod Tokens
pub mod IsoFormat
use time_shield_cpp.Base.{ℕ, List, [], ◌∷◌, if◌then◌else◌}
use time_shield_cpp.Base.Int.{ℤ, pos_part, ◌+ℤ◌}
use time_shield_cpp.Text.{plus_char, minus_char, print_int, print_two, print_three, take}
use time_shield_cpp.Units.{sec_to_ms}
use time_shield_cpp.DateTime.{DateTimeStruct, to_date_time, to_date_time_ms}
use time_shield_cpp.TimeZones.{TimeZoneStruct, to_time_zone}
use time_shield_cpp.Parser.Iso8601.{colon_char, dot_char, upper_t, upper_z}

abbrev pub space_char : ℕ
space_char = 32

abbrev pub underscore_char : ℕ
underscore_char = 95

-- What snprintf leaves in the buffer.
abbrev pub buffer : List ℕ → List ℕ
buffer text = take 31 text

-- "%" PRId64 "-%.2d-%.2d", with this or another separator.
unfoldable pub date_text : ℕ → DateTimeStruct → List ℕ → List ℕ
unfolding print_int print_two
date_text separator dt tail =
    print_int dt.year
      (separator ∷ print_two (pos_part dt.mon) (separator ∷ print_two (pos_part dt.day) tail))

-- "%.2d:%.2d:%.2d", with this or another separator.
unfoldable pub time_text : ℕ → DateTimeStruct → List ℕ → List ℕ
unfolding print_two
time_text separator dt tail =
    print_two (pos_part dt.hour)
      (separator ∷ print_two (pos_part dt.min) (separator ∷ print_two (pos_part dt.sec) tail))

-- ".%.3d", with this or another separator.
unfoldable pub ms_text : ℕ → DateTimeStruct → List ℕ → List ℕ
unfolding print_three
ms_text separator dt tail = separator ∷ print_three (pos_part dt.ms) tail

-- "+%.2d:%.2d" or "-%.2d:%.2d".
unfoldable pub zone_text : TimeZoneStruct → List ℕ → List ℕ
unfolding print_two
zone_text tz tail =
    (if tz.is_positive then plus_char else minus_char)
    ∷ print_two (pos_part tz.hour) (colon_char ∷ print_two (pos_part tz.min) tail)

abbrev iso_date : DateTimeStruct → List ℕ → List ℕ
iso_date = date_text minus_char

abbrev iso_time : DateTimeStruct → List ℕ → List ℕ
iso_time = time_text colon_char

abbrev iso_ms : DateTimeStruct → List ℕ → List ℕ
iso_ms = ms_text dot_char

unfoldable pub to_iso8601 : ℤ → List ℕ
to_iso8601 ts = let dt = to_date_time ts in buffer (iso_date dt (upper_t ∷ iso_time dt []))

unfoldable pub to_iso8601_date : ℤ → List ℕ
to_iso8601_date ts = let dt = to_date_time ts in buffer (iso_date dt [])

unfoldable pub to_iso8601_time : ℤ → List ℕ
to_iso8601_time ts = let dt = to_date_time ts in buffer (iso_time dt [])

unfoldable pub to_iso8601_time_utc : ℤ → List ℕ
to_iso8601_time_utc ts = let dt = to_date_time ts in buffer (iso_time dt (upper_z ∷ []))

unfoldable pub to_iso8601_utc : ℤ → List ℕ
to_iso8601_utc ts =
    let dt = to_date_time ts in buffer (iso_date dt (upper_t ∷ iso_time dt (upper_z ∷ [])))

unfoldable pub to_iso8601_utc_ms : ℤ → List ℕ
to_iso8601_utc_ms ts_ms =
    let dt = to_date_time_ms ts_ms in
    buffer (iso_date dt (upper_t ∷ iso_time dt (iso_ms dt (upper_z ∷ []))))

unfoldable pub to_iso8601_ms : ℤ → List ℕ
to_iso8601_ms ts_ms =
    let dt = to_date_time_ms ts_ms in buffer (iso_date dt (upper_t ∷ iso_time dt (iso_ms dt [])))

-- to_iso8601 and to_iso8601_ms with an offset.
unfoldable pub to_iso8601_offset : ℤ → ℤ → List ℕ
to_iso8601_offset ts utc_offset =
    let tz = to_time_zone utc_offset in
    let dt = to_date_time (ts +ℤ utc_offset) in
    buffer (iso_date dt (upper_t ∷ iso_time dt (zone_text tz [])))

unfoldable pub to_iso8601_ms_offset : ℤ → ℤ → List ℕ
to_iso8601_ms_offset ts_ms utc_offset =
    let tz = to_time_zone utc_offset in
    let dt = to_date_time_ms (ts_ms +ℤ sec_to_ms utc_offset) in
    buffer (iso_date dt (upper_t ∷ iso_time dt (iso_ms dt (zone_text tz []))))

unfoldable pub to_mql5_date_time : ℤ → List ℕ
to_mql5_date_time ts =
    let dt = to_date_time ts in
    buffer (date_text dot_char dt (space_char ∷ time_text colon_char dt []))

unfoldable pub to_mql5_date : ℤ → List ℕ
to_mql5_date ts = let dt = to_date_time ts in buffer (date_text dot_char dt [])

unfoldable pub to_mql5_time : ℤ → List ℕ
to_mql5_time ts = let dt = to_date_time ts in buffer (time_text colon_char dt [])

unfoldable pub to_windows_filename : ℤ → List ℕ
to_windows_filename ts =
    let dt = to_date_time ts in buffer (iso_date dt (underscore_char ∷ time_text minus_char dt []))

unfoldable pub to_windows_filename_ms : ℤ → List ℕ
to_windows_filename_ms ts =
    let dt = to_date_time_ms ts in
    buffer (iso_date dt (underscore_char ∷ time_text minus_char dt (ms_text minus_char dt [])))

unfoldable pub to_human_readable : ℤ → List ℕ
to_human_readable ts =
    let dt = to_date_time ts in buffer (iso_date dt (space_char ∷ iso_time dt []))

unfoldable pub to_human_readable_ms : ℤ → List ℕ
to_human_readable_ms ts =
    let dt = to_date_time_ms ts in buffer (iso_date dt (space_char ∷ iso_time dt (iso_ms dt [])))
