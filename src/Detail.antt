-- ===== src/Detail.antt =====
-- include/time_shield/detail: the arithmetic below the calendar conversions.
pub mod FloorMath
pub mod MulHi
pub mod FastDate
