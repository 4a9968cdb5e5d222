-- ===== src/Lib.antt =====
-- Dates and times of time-shield-cpp: the integer core of the library. A timestamp is a number of
-- seconds (or milliseconds) since 1970-01-01; its day number is converted to a date of the
-- proleptic Gregorian calendar and back by fixed-point arithmetic on 64-bit words, on which the
-- checks of dates and the conversions of timestamps are built. On these stand the time zones, the
-- texts of dates and times with their reader, the class DateTime, the timers and the NTP query.
--
-- - Detail.FloorMath, Detail.MulHi, Detail.FastDate: include/time_shield/detail/floor_math.hpp,
--   mul_hi.hpp and fast_date.hpp. A function has its name in the source, also its constants, in
--   lower case. date_of_word, date_of_fraction and year_of_word take the multiply-high function as
--   an argument, since the constexpr and the runtime variant of a conversion differ in it alone.
-- - Calendar: the rules of the calendar, independent of the code, with which it is compared.
--   Its IsDate says that the calendar has a date.
-- - Constants, Validation: constants.hpp and validation.hpp. year_back is the count of
--   is_leap_year_ts; date_checks is is_valid_date after its exchange of day and year.
-- - Units, UnixTime: time_unit_conversions.hpp, unix_time_conversions.hpp and date_conversions.hpp.
--   legacy_ stands for the namespace legacy, _ts, _ms and _hms tell overloads apart.
-- - DateTime: date_time_struct.hpp and date_time_conversions.hpp. An exception is `none`.
-- - Periods: the starts and ends of periods of fixed length in date_time_conversions.hpp, and the
--   weekday of a timestamp. next_day_ts is next_day, and next_day of Calendar is the day after a
--   date.
-- - CalendarPeriods: the starts and ends of months and years in date_time_conversions.hpp, the place
--   of a day in them, and last Sundays. start_of_year is start_of_recent_year before 2100 and
--   start_of_any_year else, whose while loop has three rounds, one more than it can take.
-- - IsoWeek, IsoWeek.Text: iso_week_conversions.hpp. date_of_iso_week_date is iso_week_date_to_date
--   after its check; parse_iso_week_date is split where it moves to the next part of the text, and
--   gives the date that it leaves in the output where it returns true.
-- - Text: what these use of the C library, std::isdigit and the decimal conversions of snprintf, and
--   lists of characters.
-- - Workdays: workday_conversions.hpp; _ts and _ts_ms tell the overloads on timestamps apart. The
--   loops over the days of a month are recursions on the days that are left; workdays_upto counts
--   workdays independently of them.
-- - TimeZones: time_zone_struct.hpp, time_zone_offset.hpp, time_zone_offset_conversions.hpp and, of
--   time_zone_conversions.hpp, Central and Eastern European and American time. cet_hours and
--   gmt_to_cet_hours are the hours that the two _impl functions take off or add; sunday_loop is the
--   search for the last Sunday that the first one makes in each branch.
--   TimeZones.LastSundays has last Sundays independently of the search.
-- - TimeZones.Named: the named zones of enums.hpp and, in time_zone_conversions.hpp, the fixed
--   offsets, zone_to_gmt and gmt_to_zone in seconds and milliseconds, and convert_time_zone. The
--   switches stand apart as local_switch, gmt_switch and those of milliseconds.
-- - Parser: time_parser.hpp. A pointer into the text with its end is the list of the characters from
--   there on; what a failing function leaves in its outputs is not modelled, and a null pointer is
--   no text. Parser.Iso8601 has parse_time_zone and parse_iso8601, one definition for each part of
--   its body; Parser.Timestamps what calls it, with _str for the overloads on texts; Parser.Clock
--   the times of day; Parser.Timeframe the time frames such as M15 or "2 weeks"; Parser.Names the
--   names of months and zones, over the locale's isspace and tolower, which are arguments.
-- - Formatting: the fixed formats of time_formatting.hpp, cut off at the 31 characters that their
--   buffer holds. _offset tells the overloads with an offset apart.
-- - Formatting.Directives, Formatting.Format: process_format_impl, to_string and to_string_ms of
--   time_formatting.hpp. A text that is appended to the result is what a function returns. The local
--   variables of the loop are its Place, and a step back in the format is to read on in plain text.
--   Formatting.Tokens and Formatting.IsoFormat are about formats.
-- - DateTimeClass: DateTime.hpp. at_local is the end of the constructors from a local time, and
--   at_moment, first_ms and last_ms are the parts of the bounds of days, months and years; an
--   operator has a name in words. The clock that now_utc reads is an argument.
-- - Ntp: ntp_client/ntp_packet.hpp and ntp_client/ntp_client_core.hpp. The outputs are the record
--   Outputs, which a function takes and gives back with what it writes. ntohl and htonl, the
--   transport and the two readings of the clock are arguments.
-- - Ntp.Samples, Ntp.Servers, Ntp.Pool: ntp_client_pool.hpp. std::nth_element, std::shuffle, the
--   readings of the clock, the answers of the clients, the casts of durations and the mix of two
--   offsets in floating point are arguments. `none` is where the code reads past the end of a
--   vector. The methods run one after the other, so that the mutex is left out.
-- - Timers.Deadline, Timers.Elapsed: DeadlineTimer.hpp and ElapsedTimer.hpp. A method that changes
--   the timer returns the new one, and the time that it reads from the clock is an argument. Time
--   points are counts of ticks; time_point::max() and the casts of durations are the record Chrono.
--   start_at is start of a time point, new_timer the default constructor.
-- - Timers.Scheduler: TimerScheduler.hpp. The queue is a list by fire time, a shared state is its
--   id, and the due timers of all batches, which are local to threads, are a field. Step has what
--   threads and callbacks do in a section under the mutex, in any order, with process() on several
--   threads and in callbacks too; Timer::stop_and_wait is stop_timer and a wait, and stop() is
--   stop_scheduler and, after the join, deactivate_orphan for each orphan. Sequential are the steps
--   of batches that do not overlap, as those of the worker thread. The generations wrap at 2^64; the
--   theorems that count on their order are for fewer steps.
-- - Examples: runs of the code, and each of the results below at concrete arguments.
--
-- A signed integer is the integer it stands for (Base.Int), with the division of C++, which rounds
-- towards zero. Signed arithmetic is exact: overflow of it is undefined in C++ and is not
-- modelled. A uint64_t is a number below 2^64 and each operation on it wraps (Base.Word); the
-- casts between the two are two's complement. The loops are over lists, digits and the days of a
-- month; none needs fuel but the printing of digits, of which 20 are enough for 64 bits. The
-- theorems on day numbers hold for the days of all timestamps that int64_t has, -106751991167302
-- to 106751991167301. Templates are modelled at their default types; a cast of a result to a
-- narrower type that the caller chooses is left out.
--
-- Not modelled are the legacy conversions of timestamps; time_format_parser.hpp, which only callers
-- outside use; of NTP, the list of default servers, the runner and the service, which are threads
-- around a pool, and the sockets; of the timers, the waits of the worker thread and CpuTickTimer;
-- floating-point seconds and astronomical dates, which are rounded by the machine; reads of the
-- system clock; the MQL5 port; aliases and overloads, which only call what is modelled.
pub mod Base
pub mod Calendar
pub mod CalendarPeriods
pub mod Constants
pub mod DateTime
pub mod DateTimeClass
pub mod Detail
pub mod Examples
pub mod Formatting
pub mod IsoWeek
pub mod Ntp
pub mod Parser
pub mod Periods
pub mod Text
pub mod TimeZones
pub mod Timers
pub mod Units
pub mod UnixTime
pub mod Validation
pub mod Workdays
