-- ===== src/DateTime/Accepted.antt =====
-- Where the checks of to_timestamp hold it throws no exception.
use time_shield_cpp.Base.{◌≡◌, refl, Bool-cases, inl, inr, true, false, ◌&&◌, some, arith}
use time_shield_cpp.Base.Int.{ℤ, pos, leb_ℤ, ltb_ℤ}
use time_shield_cpp.Base.Word.{to_u64, to_i32}
use time_shield_cpp.Validation.{is_valid_date_time, is_valid_date, is_valid_time}
use time_shield_cpp.DateTime.{to_timestamp, to_timestamp_unchecked, checked_timestamp}

checked-valid :
    (y m day h mi s ms : ℤ)
    → is_valid_date y m day ≡ true
    → is_valid_time h mi s ms ≡ true
    → (t : ℤ) × (checked_timestamp y m day h mi s ≡ some t)
unfolding checked_timestamp is_valid_date_time
checked-valid y m day h mi s ms date time =
    let whole : (is_valid_time h mi s (pos 0) ≡ true) = unfold is_valid_time in ground arith in
    (to_timestamp_unchecked y m day h mi s, rw (date, whole) refl)

both_valid :
    (y m day h mi s ms : ℤ)
    → is_valid_date_time y m day h mi s ms ≡ true
    → (is_valid_date y m day ≡ true) × (is_valid_time h mi s ms ≡ true)
unfolding is_valid_date_time
both_valid y m day h mi s ms v = (ground arith, ground arith)

-- A day that is exchanged with the year is valid in both orders.
exchanged_valid :
    (y m day : ℤ)
    → (leb_ℤ (pos 1970) day && leb_ℤ y (pos 31)) ≡ true
    → is_valid_date y m day ≡ true
    → is_valid_date day m (to_i32 (to_u64 y)) ≡ true
unfolding is_valid_date
exchanged_valid y m day b v =
    let first : ((ltb_ℤ (pos 31) day && leb_ℤ y (pos 31)) ≡ true) = ground arith in
    let then_not : ((ltb_ℤ (pos 31) (to_i32 (to_u64 y)) && leb_ℤ day (pos 31)) ≡ false) =
      ground arith in
    rw then_not (rw first at v)

pub to_timestamp-valid :
    (y m day h mi s ms : ℤ)
    → is_valid_date_time y m day h mi s ms ≡ true
    → (t : ℤ) × (to_timestamp y m day h mi s ≡ some t)
unfolding to_timestamp
to_timestamp-valid y m day h mi s ms v =
    let (date, time) = both_valid y m day h mi s ms v in
    elim (Bool-cases (leb_ℤ (pos 1970) day && leb_ℤ y (pos 31))) [
      | inl b ↦
          rw b (
            checked-valid day m (to_i32 (to_u64 y)) h mi s ms (exchanged_valid y m day b date) time)
      | inr b ↦ rw b (checked-valid y m day h mi s ms date time)
    ]
