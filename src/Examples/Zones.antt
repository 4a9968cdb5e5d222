-- ===== src/Examples/Zones.antt =====
-- The theorems on time zones at concrete arguments, and a run at the end of American summer time.
use time_shield_cpp.Base.{◌≡◌, refl}
use time_shield_cpp.Base.Int.{pos}
use time_shield_cpp.TimeZones.{gmt_to_et}
use time_shield_cpp.Examples.{methods}

-- 3 November 2024, 06:30 UTC, half an hour after New York went back to UTC-5: the result is that
-- of UTC-4.
et_run : gmt_to_et (pos 1_730_615_400) ≡ pos 1_730_601_000
unfolding methods gmt_to_et
et_run = refl
