-- ===== src/DateTime/Millis.antt =====
-- Timestamps in milliseconds to dates with a time of day, and back.
use time_shield_cpp.Base.{
  ◌≡◌, refl, sym, ap, ◌∙◌, subst, Bool, true, false, ◌&&◌, ◌||◌, if◌then◌else◌, arith, some,
}
use time_shield_cpp.Base.Int.{
  ℤ, pos, negsuc, pos_part, neg_part, ◌+ℤ◌, ◌-ℤ◌, ◌*ℤ◌, ◌/ℤ◌, ltb_ℤ, ◌≤ℤ◌, int_laws, eq_of_parts,
  parts_disjoint, +ℤ-zero,
}
use time_shield_cpp.Constants.{max_year, error_timestamp}
use time_shield_cpp.Detail.FloorMath.{floor_div, floor_mod, floor_div-floor_mod}
use time_shield_cpp.Units.{ms_to_sec, ms_of_ts, sec_to_ms}
use time_shield_cpp.Units.Parts.{ms_to_sec-ms_of_ts}
use time_shield_cpp.DateTime.{
  dt_to_timestamp, join_ms, int64_max, int64_min, to_date_time_ms, dt_to_timestamp_ms, map_some,
}
use time_shield_cpp.DateTime.Split.{IsInt64}
use time_shield_cpp.DateTime.RoundTrip.{dt_to_timestamp-to_date_time}

if_false : (b : Bool) (x y : ℤ) → b ≡ false → (if b then x else y) ≡ y
if_false true x y e = grind arith
if_false false x y e = refl

tests :
    (secs q : ℤ)
    → secs ≤ℤ q
    → negsuc 9_223_372_036_854_774 ≤ℤ secs
    → ((ltb_ℤ (pos 0) secs && ltb_ℤ q secs)
        || (ltb_ℤ secs (pos 0) && ltb_ℤ secs (int64_min /ℤ pos 1000)))
      ≡ false
tests secs q h k = unfold ◌/ℤ◌ in ground arith

guard :
    (secs ms : ℤ)
    → (pos 0 ≤ℤ ms) × (ms ≤ℤ pos 999)
    → negsuc 9_223_372_036_854_774_999 ≤ℤ secs *ℤ pos 1000 +ℤ ms
    → secs *ℤ pos 1000 +ℤ ms ≤ℤ int64_max
    → ((ltb_ℤ (pos 0) secs && ltb_ℤ ((int64_max -ℤ ms) /ℤ pos 1000) secs)
        || (ltb_ℤ secs (pos 0) && ltb_ℤ secs (int64_min /ℤ pos 1000)))
      ≡ false
guard secs ms r low high =
    let q = (int64_max -ℤ ms) /ℤ pos 1000 in
    tests secs q (omega (int_laws, r, low, high, parts_disjoint secs))
      (omega (int_laws, r, low, high, parts_disjoint secs))

-- Milliseconds below a second carry nothing.
pub join_ms-no_carry :
    (secs ms : ℤ)
    → (pos 0 ≤ℤ ms) × (ms ≤ℤ pos 999)
    → join_ms secs ms ≡ (
        if (ltb_ℤ (pos 0) secs && ltb_ℤ ((int64_max -ℤ ms) /ℤ pos 1000) secs)
          || (ltb_ℤ secs (pos 0) && ltb_ℤ secs (int64_min /ℤ pos 1000))
        then error_timestamp
        else secs *ℤ pos 1000 +ℤ ms)
unfolding join_ms
join_ms-no_carry secs ms r =
    let f = floor_div-floor_mod ms 1000 (omega arith) in
    let no_carry : (floor_div ms (pos 1000) ≡ pos 0) = eq_of_parts _ _ (
      omega (
        int_laws,
        ap pos_part f.0,
        ap neg_part f.0,
        f.1,
        f.2,
        r,
        parts_disjoint (floor_div ms (pos 1000)),
      )) in
    let rest : (floor_mod ms (pos 1000) ≡ ms) = eq_of_parts _ _ (
      omega (
        int_laws,
        ap pos_part f.0,
        ap neg_part f.0,
        f.1,
        f.2,
        r,
        ap pos_part no_carry,
        ap neg_part no_carry,
      )) in
    rw (no_carry, rest, +ℤ-zero secs) refl

-- Where the guards of `join_ms` hold, it adds the milliseconds up.
pub join_ms-sum :
    (secs ms : ℤ)
    → (pos 0 ≤ℤ ms) × (ms ≤ℤ pos 999)
    → negsuc 9_223_372_036_854_774_999 ≤ℤ secs *ℤ pos 1000 +ℤ ms
    → secs *ℤ pos 1000 +ℤ ms ≤ℤ int64_max
    → join_ms secs ms ≡ secs *ℤ pos 1000 +ℤ ms
join_ms-sum secs ms r low high =
    join_ms-no_carry secs ms r ∙ if_false _ _ _ (guard secs ms r low high)

-- A timestamp in milliseconds from -9223372036854775000 to the greatest of int64_t, whose year is
-- at most MAX_YEAR, is recovered from its date and time of day.
pub dt_to_timestamp_ms-to_date_time_ms :
    (ts_ms : ℤ)
    → negsuc 9_223_372_036_854_774_999 ≤ℤ ts_ms
    → ts_ms ≤ℤ int64_max
    → (to_date_time_ms ts_ms).year ≤ℤ max_year
    → dt_to_timestamp_ms (to_date_time_ms ts_ms) ≡ some ts_ms
unfolding dt_to_timestamp_ms to_date_time_ms dt_to_timestamp
dt_to_timestamp_ms-to_date_time_ms ts_ms low high year =
    let (sum, least, most) = ms_to_sec-ms_of_ts ts_ms in
    let e : (ts_ms ≡ ms_to_sec ts_ms *ℤ pos 1000 +ℤ ms_of_ts ts_ms) = unfold sec_to_ms in sum in
    let secs_in : IsInt64 (ms_to_sec ts_ms) = record {
      low = omega (
        int_laws,
        ap pos_part e,
        ap neg_part e,
        least,
        most,
        low,
        high,
        parts_disjoint (ms_to_sec ts_ms),
      );
      high = omega (
        int_laws,
        ap pos_part e,
        ap neg_part e,
        least,
        most,
        low,
        high,
        parts_disjoint (ms_to_sec ts_ms),
      );
    } in
    ap (map_some (λ secs. join_ms secs (ms_of_ts ts_ms)))
      (dt_to_timestamp-to_date_time (ms_to_sec ts_ms) secs_in year)
    ∙ ap some (
        join_ms-sum (ms_to_sec ts_ms) (ms_of_ts ts_ms) (least, omega (arith, most))
          (subst (λ z. negsuc 9_223_372_036_854_774_999 ≤ℤ z) e low)
          (subst (λ z. z ≤ℤ int64_max) e high)
        ∙ sym e)
