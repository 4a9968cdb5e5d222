-- ===== src/DateTimeClass/Components.antt =====
-- A DateTime and the fields that it is made of.
use time_shield_cpp.Base.{◌≡◌, refl, ap, sym, ◌∙◌, ◌⊎◌, true, Option, some, none, arith}
use time_shield_cpp.Base.Int.{ℤ, pos, negsuc, ◌+ℤ◌, ◌-ℤ◌, ◌≤ℤ◌, ◌<ℤ◌, int_laws, eq_of_parts}
use time_shield_cpp.Constants.{max_year}
use time_shield_cpp.Validation.{is_valid_date_time}
use time_shield_cpp.DateTime.{to_timestamp_ms, int64_max, join_ms}
use time_shield_cpp.DateTime.Accepted.{to_timestamp-valid}
use time_shield_cpp.DateTime.Millis.{dt_to_timestamp_ms-to_date_time_ms}
use time_shield_cpp.DateTime.MilliFields.{IsMoment, to_date_time_ms-to_timestamp_ms}
use time_shield_cpp.TimeZones.{is_valid_tz_offset}
use time_shield_cpp.DateTimeClass.{
  DateTime, offset_to_ms, local_ms, at_local, from_components, try_from_components,
  from_date_time_struct, to_date_time_struct_local,
}

sub_add : (a b : ℤ) → a +ℤ b -ℤ b ≡ a
sub_add a b = eq_of_parts _ _ (omega int_laws)

pub add_sub : (a b : ℤ) → a -ℤ b +ℤ b ≡ a
add_sub a b = eq_of_parts _ _ (omega int_laws)

pub at_local-local_ms : (d : DateTime) → at_local (some (local_ms d)) d.offset ≡ some d
unfolding at_local local_ms
at_local-local_ms d =
    λ i. some (record { utc_ms = sub_add d.utc_ms (offset_to_ms d.offset) i; offset = d.offset })

-- A moment whose local time is in the range of int64_t, but for its least 808 values, and has a
-- year up to MAX_YEAR, is built again from its local fields and its offset.
pub from_date_time_struct-to_date_time_struct_local :
    (d : DateTime)
    → negsuc 9_223_372_036_854_774_999 ≤ℤ local_ms d
    → local_ms d ≤ℤ int64_max
    → (to_date_time_struct_local d).year ≤ℤ max_year
    → from_date_time_struct (to_date_time_struct_local d) d.offset ≡ some d
unfolding from_date_time_struct to_date_time_struct_local
from_date_time_struct-to_date_time_struct_local d low high year =
    ap (λ t. at_local t d.offset) (dt_to_timestamp_ms-to_date_time_ms (local_ms d) low high year)
    ∙ at_local-local_ms d

-- The local time that at_local was given.
pub at_local-inverse :
    (o : Option ℤ) (offset : ℤ) (d : DateTime)
    → at_local o offset ≡ some d
    → (o ≡ some (local_ms d)) × (d.offset ≡ offset)
unfolding at_local local_ms
at_local-inverse (some local) offset d e =
    let same : (record { utc_ms = local -ℤ offset_to_ms offset; offset = offset } ≡ d) =
      grind arith in
    let local_is = ap (λ (x : DateTime). x.utc_ms +ℤ offset_to_ms x.offset) same in
    (
      ap some (sym (add_sub local (offset_to_ms offset)) ∙ local_is),
      sym (ap (λ (x : DateTime). x.offset) same),
    )
at_local-inverse none offset d e = absurd (grind arith)

-- Where from_components gives a moment, the milliseconds are from 0 to 999, the day is up to 31
-- or the year above it, and the local time is in range and not ERROR_TIMESTAMP or later, the
-- local fields and the offset are the ones given.
pub to_date_time_struct_local-from_components :
    (y m day h mi s ms offset : ℤ) (d : DateTime)
    → (day ≤ℤ pos 31) ⊎ (pos 31 <ℤ y)
    → (pos 0 ≤ℤ ms) × (ms ≤ℤ pos 999)
    → from_components y m day h mi s ms offset ≡ some d
    → IsMoment (local_ms d)
    → (to_date_time_struct_local d
        ≡ record { year = y; mon = m; day = day; hour = h; min = mi; sec = s; ms = ms })
      × (d.offset ≡ offset)
unfolding from_components to_date_time_struct_local
to_date_time_struct_local-from_components y m day h mi s ms offset d le r e moment =
    let (local, same) = at_local-inverse _ offset d e in
    (to_date_time_ms-to_timestamp_ms y m day h mi s ms (local_ms d) le r local moment, same)

-- For components and an offset that pass the checks, try_from_components gives a moment: no
-- exception leaves it.
pub try_from_components_total :
    (y m day h mi s ms offset : ℤ)
    → is_valid_date_time y m day h mi s ms ≡ true
    → is_valid_tz_offset offset ≡ true
    → (d : DateTime) × (try_from_components y m day h mi s ms offset ≡ some d)
unfolding try_from_components to_timestamp_ms at_local
try_from_components_total y m day h mi s ms offset valid zone =
    let (t, e) = to_timestamp-valid y m day h mi s ms valid in
    (
      record { utc_ms = join_ms t ms -ℤ offset_to_ms offset; offset = offset },
      rw (valid, zone, e) refl,
    )
