-- ===== src/Units.antt =====
-- include/time_shield/time_unit_conversions.hpp, for integer arguments. Where a template casts its
-- result to a narrower type, the value before that cast is modelled.
pub mod Parts
use time_shield_cpp.Base.{◌||◌, if◌then◌else◌}
use time_shield_cpp.Base.Int.{ℤ, pos, ◌*ℤ◌, ◌==ℤ◌, ltb_ℤ}
use time_shield_cpp.Constants.{
  ms_per_sec, ms_per_min, ms_per_hour, us_per_sec, ns_per_sec, sec_per_min, sec_per_hour,
}
use time_shield_cpp.Detail.FloorMath.{floor_div, floor_mod}

unfoldable pub ms_part : ℤ → ℤ
ms_part ts = floor_mod ts ms_per_sec

unfoldable pub ms_of_ts : ℤ → ℤ
unfolding ms_part
ms_of_ts ts = ms_part ts

unfoldable pub us_part : ℤ → ℤ
us_part ts = floor_mod ts us_per_sec

unfoldable pub ns_part : ℤ → ℤ
ns_part ts = floor_mod ts ns_per_sec

unfoldable pub sec_to_ms : ℤ → ℤ
sec_to_ms ts = ts *ℤ ms_per_sec

unfoldable pub ms_to_sec : ℤ → ℤ
ms_to_sec ts_ms = floor_div ts_ms ms_per_sec

unfoldable pub min_to_ms : ℤ → ℤ
min_to_ms ts = ts *ℤ ms_per_min

unfoldable pub ms_to_min : ℤ → ℤ
ms_to_min ts = floor_div ts ms_per_min

unfoldable pub min_to_sec : ℤ → ℤ
min_to_sec ts = ts *ℤ sec_per_min

unfoldable pub sec_to_min : ℤ → ℤ
sec_to_min ts = floor_div ts sec_per_min

unfoldable pub hour_to_ms : ℤ → ℤ
hour_to_ms ts = ts *ℤ ms_per_hour

unfoldable pub ms_to_hour : ℤ → ℤ
ms_to_hour ts = floor_div ts ms_per_hour

unfoldable pub hour_to_sec : ℤ → ℤ
hour_to_sec ts = ts *ℤ sec_per_hour

unfoldable pub sec_to_hour : ℤ → ℤ
sec_to_hour ts = floor_div ts sec_per_hour

unfoldable pub hour24_to_12 : ℤ → ℤ
hour24_to_12 hour = if (hour ==ℤ pos 0) || ltb_ℤ (pos 12) hour then pos 12 else hour
