-- ===== src/TimeZones/Summer.antt =====
-- Offsets and their parts, and the summer time of Central Europe by the European rule.
use time_shield_cpp.Base.{ℕ, suc, ◌==◌, ◌∙◌, ◌%◌, ◌≤◌, ◌≡◌, ap, arith, true, false}
use time_shield_cpp.Base.Int.{
  ℤ, pos, negsuc, pos_part, neg_part, ◌+ℤ◌, ◌-ℤ◌, ◌*ℤ◌, ◌/ℤ◌, ◌%ℤ◌, ◌≤ℤ◌, ltb_ℤ, leb_ℤ, neg_ℕ,
  ◌==ℤ◌, int_laws, eq_of_parts,
}
use time_shield_cpp.TimeZones.{to_time_zone_struct, time_zone_struct_to_offset, is_valid_tz_offset}

-- Minutes and hours make up a whole number of minutes.
parts_sum :
    (n : ℕ)
    → n % 60 ≡ 0
    → pos n /ℤ pos 3600 *ℤ pos 3600 +ℤ pos n %ℤ pos 3600 /ℤ pos 60 *ℤ pos 60 ≡ pos n
parts_sum n h = eq_of_parts _ _ (omega int_laws)

parts_range :
    (n : ℕ)
    → n ≤ 50400
    → ((pos 0 ≤ℤ pos n /ℤ pos 3600) × (pos n /ℤ pos 3600 ≤ℤ pos 14))
      × ((pos 0 ≤ℤ pos n %ℤ pos 3600 /ℤ pos 60) × (pos n %ℤ pos 3600 /ℤ pos 60 ≤ℤ pos 59))
parts_range n h = ((omega int_laws, omega int_laws), (omega int_laws, omega int_laws))

valid_parts :
    (offset : ℤ)
    → is_valid_tz_offset offset ≡ true
    → (pos_part offset % 60 ≡ 0)
      × (neg_part offset % 60 ≡ 0)
      × (pos_part offset ≤ 50400)
      × (neg_part offset ≤ 43200)
unfolding is_valid_tz_offset ◌*ℤ◌ ◌%ℤ◌
valid_parts (pos n) h = (ground arith, ground arith, ground arith, ground arith)
valid_parts (negsuc n) h =
    (ground arith, ground (arith, sized (suc n % 60)), ground arith, ground arith)
  where
    sized : (x : ℕ) → (neg_ℕ x ==ℤ pos 0) ≡ (x == 0)
    sized x = ground arith

-- A valid offset, of whole minutes from -12:00 to 14:00, is recovered from its sign, hours and
-- minutes, which are from 0 to 14 and from 0 to 59.
pub time_zone_struct_to_offset-to_time_zone_struct :
    (offset : ℤ)
    → is_valid_tz_offset offset ≡ true
    → let tz = to_time_zone_struct offset in
      (time_zone_struct_to_offset tz ≡ offset)
      × ((pos 0 ≤ℤ tz.hour) × (tz.hour ≤ℤ pos 14))
      × ((pos 0 ≤ℤ tz.min) × (tz.min ≤ℤ pos 59))
unfolding to_time_zone_struct time_zone_struct_to_offset
time_zone_struct_to_offset-to_time_zone_struct (pos n) h =
    let v = valid_parts (pos n) h in
    let up : (ltb_ℤ (pos n) (pos 0) ≡ false) = ground arith in
    let sign : (leb_ℤ (pos 0) (pos n) ≡ true) = ground arith in
    rw (up, sign) (parts_sum n v.0, (parts_range n v.2).0, (parts_range n v.2).1)
time_zone_struct_to_offset-to_time_zone_struct (negsuc n) h =
    let v = valid_parts (negsuc n) h in
    let down : (ltb_ℤ (negsuc n) (pos 0) ≡ true) = ground arith in
    let sign : (leb_ℤ (pos 0) (negsuc n) ≡ false) = ground arith in
    let size : (pos 0 -ℤ negsuc n ≡ pos (suc n)) = eq_of_parts _ _ (omega int_laws) in
    let range = parts_range (suc n) (omega (arith, v.3)) in
    rw (down, sign, size)
      (
        ap (λ z. pos 0 -ℤ z) (parts_sum (suc n) v.1) ∙ eq_of_parts _ _ (omega int_laws),
        range.0,
        range.1,
      )
