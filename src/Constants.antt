-- ===== src/Constants.antt =====
-- include/time_shield/constants.hpp: the constants that the modelled conversions use.
use time_shield_cpp.Base.Int.{ℤ, pos, negsuc}

abbrev pub ms_per_sec : ℤ
ms_per_sec = pos 1_000

abbrev pub ms_per_min : ℤ
ms_per_min = pos 60_000

abbrev pub ms_per_hour : ℤ
ms_per_hour = pos 3_600_000

abbrev pub ms_per_day : ℤ
ms_per_day = pos 86_400_000

abbrev pub us_per_sec : ℤ
us_per_sec = pos 1_000_000

abbrev pub ns_per_sec : ℤ
ns_per_sec = pos 1_000_000_000

abbrev pub sec_per_min : ℤ
sec_per_min = pos 60

abbrev pub sec_per_hour : ℤ
sec_per_hour = pos 3_600

abbrev pub sec_per_day : ℤ
sec_per_day = pos 86_400

abbrev pub sec_per_year : ℤ
sec_per_year = pos 31_536_000

abbrev pub sec_per_leap_year : ℤ
sec_per_leap_year = pos 31_622_400

abbrev pub sec_per_first_100_years : ℤ
sec_per_first_100_years = pos 3_155_760_000

abbrev pub sec_per_4_years : ℤ
sec_per_4_years = pos 126_230_400

abbrev pub sec_per_100_years : ℤ
sec_per_100_years = pos 3_155_673_600

abbrev pub sec_per_400_years : ℤ
sec_per_400_years = pos 12_622_780_800

abbrev pub min_per_hour : ℤ
min_per_hour = pos 60

abbrev pub min_per_day : ℤ
min_per_day = pos 1_440

abbrev pub hours_per_day : ℤ
hours_per_day = pos 24

abbrev pub days_per_week : ℤ
days_per_week = pos 7

abbrev pub months_per_year : ℤ
months_per_year = pos 12

abbrev pub unix_epoch : ℤ
unix_epoch = pos 1970

abbrev pub max_year : ℤ
max_year = pos 292_277_022_000

-- -2967369602200
abbrev pub min_year : ℤ
min_year = negsuc 2_967_369_602_199

abbrev pub error_timestamp : ℤ
error_timestamp = pos 9_223_372_036_854_770_000

-- The weekdays that enums.hpp numbers from Sunday.
abbrev pub sun : ℤ
sun = pos 0

abbrev pub thu : ℤ
thu = pos 4

abbrev pub sat : ℤ
sat = pos 6
