-- ===== src/Timers.antt =====
-- The timers of include/time_shield: DeadlineTimer.hpp, ElapsedTimer.hpp and TimerScheduler.hpp.
-- What a method reads from the steady clock is its argument `now`.
pub mod Chrono
pub mod Deadline
pub mod Elapsed
pub mod Scheduler
