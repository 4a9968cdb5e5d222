-- ===== src/Units/Parts.antt =====
-- A timestamp is made up of its whole units and of the rest within one unit.
use time_shield_cpp.Base.{◌≡◌, arith}
use time_shield_cpp.Base.Int.{ℤ, pos, ◌+ℤ◌, ◌≤ℤ◌, ◌<ℤ◌}
use time_shield_cpp.Detail.FloorMath.{floor_div-floor_mod}
use time_shield_cpp.Units.{ms_part, ms_of_ts, sec_to_ms, ms_to_sec}

-- A timestamp in milliseconds is its seconds and its millisecond part, which is from 0 to 999,
-- before the epoch too.
pub ms_to_sec-ms_of_ts :
    (ts_ms : ℤ)
    → (ts_ms ≡ sec_to_ms (ms_to_sec ts_ms) +ℤ ms_of_ts ts_ms)
      × (pos 0 ≤ℤ ms_of_ts ts_ms)
      × (ms_of_ts ts_ms <ℤ pos 1000)
unfolding ms_to_sec ms_of_ts ms_part sec_to_ms
ms_to_sec-ms_of_ts ts_ms = floor_div-floor_mod ts_ms 1000 (omega arith)
