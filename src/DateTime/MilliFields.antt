-- ===== src/DateTime/MilliFields.antt =====
-- A valid date and time with milliseconds is recovered from its timestamp.
use time_shield_cpp.Base.{
  ◌≡◌, refl, ap, sym, subst, ◌∙◌, ◌⊎◌, Bool, true, false, if◌then◌else◌, Option, some, none, arith,
}
use time_shield_cpp.Base.Int.{
  ℤ, pos, negsuc, pos_part, neg_part, ◌+ℤ◌, ◌*ℤ◌, ◌≤ℤ◌, ◌<ℤ◌, int_laws, eq_of_parts, parts_disjoint,
}
use time_shield_cpp.Constants.{error_timestamp}
use time_shield_cpp.Units.{ms_to_sec, ms_of_ts, sec_to_ms}
use time_shield_cpp.Units.Parts.{ms_to_sec-ms_of_ts}
use time_shield_cpp.DateTime.{
  to_date_time, to_date_time_ms, to_timestamp, to_timestamp_ms, join_ms, map_some,
}
use time_shield_cpp.DateTime.Split.{IsInt64}
use time_shield_cpp.DateTime.RoundTrip.{to_timestamp-some}
use time_shield_cpp.DateTime.Millis.{join_ms-no_carry}
use time_shield_cpp.DateTime.Fields.{to_date_time-timestamp_sum}

-- A timestamp in milliseconds below ERROR_TIMESTAMP, and from the first whole second of int64_t on.
pub record IsMoment (t : ℤ) : Type 0 where
  pub low : negsuc 9_223_372_036_854_774_999 ≤ℤ t
  pub high : t <ℤ error_timestamp

no_error :
    (b : Bool) (x t : ℤ) → (if b then error_timestamp else x) ≡ t → t <ℤ error_timestamp → t ≡ x
no_error true x t e h = absurd (omega (arith, ap pos_part e, ap neg_part e))
no_error false x t e h = sym e

pub joined_sum :
    (secs ms t : ℤ)
    → (pos 0 ≤ℤ ms) × (ms ≤ℤ pos 999)
    → join_ms secs ms ≡ t
    → t <ℤ error_timestamp
    → t ≡ secs *ℤ pos 1000 +ℤ ms
joined_sum secs ms t r e h = no_error _ _ t (sym (join_ms-no_carry secs ms r) ∙ e) h

map_some-inverse :
    (f : ℤ → ℤ) (o : Option ℤ) (t : ℤ) → map_some f o ≡ some t → (x : ℤ) × (o ≡ some x) × (f x ≡ t)
map_some-inverse f (some x) t e = (x, refl, grind arith)
map_some-inverse f none t e = absurd (grind arith)

-- The seconds and milliseconds of a sum.
pub ms_parts :
    (secs ms t : ℤ)
    → t ≡ secs *ℤ pos 1000 +ℤ ms
    → (pos 0 ≤ℤ ms) × (ms ≤ℤ pos 999)
    → (ms_to_sec t ≡ secs) × (ms_of_ts t ≡ ms)
unfolding sec_to_ms
ms_parts secs ms t e r =
    let (sum, least, most) = ms_to_sec-ms_of_ts t in
    let secs_is : (ms_to_sec t ≡ secs) = eq_of_parts _ _ (
      omega (
        int_laws,
        ap pos_part e,
        ap neg_part e,
        ap pos_part sum,
        ap neg_part sum,
        least,
        most,
        r,
        parts_disjoint secs,
        parts_disjoint (ms_to_sec t),
      )) in
    (
      secs_is,
      eq_of_parts _ _ (
          omega (
            int_laws,
            ap pos_part e,
            ap neg_part e,
            ap pos_part sum,
            ap neg_part sum,
            ap pos_part secs_is,
            ap neg_part secs_is,
          )),
    )

-- What to_timestamp_ms returns, if it is an IsMoment, for milliseconds from 0 to 999 and where
-- no reading takes the day for a year, has exactly the given fields in to_date_time_ms.
pub to_date_time_ms-to_timestamp_ms :
    (y m d h mi s ms t : ℤ)
    → (d ≤ℤ pos 31) ⊎ (pos 31 <ℤ y)
    → (pos 0 ≤ℤ ms) × (ms ≤ℤ pos 999)
    → to_timestamp_ms y m d h mi s ms ≡ some t
    → IsMoment t
    → to_date_time_ms t
      ≡ record { year = y; mon = m; day = d; hour = h; min = mi; sec = s; ms = ms }
unfolding to_timestamp_ms to_date_time_ms
to_date_time_ms-to_timestamp_ms y m d h mi s ms t le r e moment =
    let (secs, stamp, joined) = map_some-inverse _ (to_timestamp y m d h mi s) t e in
    let (date, time, sum) = (to_timestamp-some y m d h mi s secs le).0 stamp in
    let t_is : (t ≡ secs *ℤ pos 1000 +ℤ ms) = joined_sum secs ms t r joined moment.high in
    let small : IsInt64 secs = record {
      low = omega (
        int_laws,
        ap pos_part t_is,
        ap neg_part t_is,
        moment.low,
        moment.high,
        r,
        parts_disjoint secs,
      );
      high = omega (
        int_laws,
        ap pos_part t_is,
        ap neg_part t_is,
        moment.low,
        moment.high,
        r,
        parts_disjoint secs,
      );
    } in
    let (secs_is, ms_is) = ms_parts secs ms t t_is r in
    let fields =
      ap to_date_time (secs_is ∙ sum)
      ∙ to_date_time-timestamp_sum y m d h mi s date time (subst IsInt64 sum small) in
    λ i. record (fields i) { ms = ms_is i }
