-- ===== src/UnixTime/Years.antt =====
-- The year of a timestamp, which the library computes without the month and the day.
use time_shield_cpp.Base.{◌≡◌, ◌∙◌}
use time_shield_cpp.Base.Int.{ℤ, pos, ◌+ℤ◌, ◌-ℤ◌, int_laws, eq_of_parts}
use time_shield_cpp.Detail.FastDate.{split_unix_day}
use time_shield_cpp.Detail.FastDate.Variants.{fast_date-variants}
use time_shield_cpp.UnixTime.{years_since_epoch, year_of}
use time_shield_cpp.DateTime.{to_date_time}

add_back : (y : ℤ) → y -ℤ pos 1970 +ℤ pos 1970 ≡ y
add_back y = eq_of_parts _ _ (omega int_laws)

-- The year of a timestamp is the year of its date.
pub year_of-to_date_time : (ts : ℤ) → year_of ts ≡ (to_date_time ts).year
unfolding year_of years_since_epoch to_date_time
year_of-to_date_time ts =
    add_back _ ∙ (fast_date-variants (split_unix_day ts).days (pos 0) (pos 0) (pos 0)).1
