-- ===== src/Detail/FastDate/Days.antt =====
-- `fast_days_from_date` in closed form: both branches count the days of the years before, by the
-- leap rule, wherever the count of eras starts.
use time_shield_cpp.Base.{
  ℕ, suc, ◌+◌, ◌-◌, ◌*◌, ◌/◌, ◌≤◌, ◌<◌, ◌≡◌, refl, true, false, arith, get_or, ap, leb,
  if◌then◌else◌,
}
use time_shield_cpp.Base.Int.{
  ℤ, pos, negsuc, pos_part, neg_part, ◌+ℤ◌, ◌-ℤ◌, leb_ℤ, ltb_ℤ, int_laws,
}
use time_shield_cpp.Base.Word.{add64, sub64, mul64, to_u64, to_i64}
use time_shield_cpp.Base.Months.{ForMonths, months_elim}
use time_shield_cpp.Detail.FastDate.Table.{march_index, doy_of_month, one_if}
use time_shield_cpp.Detail.FastDate.{
  k_doy_from_march, unsigned_days, signed_days, fast_days_from_date_constexpr,
}

-- The days of `u` years that begin in March, the first of them in a year that 400 divides.
abbrev pub days_of_years : ℕ → ℕ
days_of_years u = 365 * u + u / 4 - u / 100 + u / 400

to_i64-small : (n : ℕ) → n < 0x8000_0000_0000_0000 → to_i64 n ≡ pos n
to_i64-small n h = ground arith

day_word : (d : ℕ) → 1 ≤ d → d ≤ 31 → to_u64 (pos d -ℤ pos 1) ≡ d - 1
unfolding ◌-ℤ◌
day_word d p q = ground arith

-- No step of the unsigned sum wraps.
unsigned_word :
    (y t d : ℕ)
    → y ≤ 6_000_000_000_000
    → t ≤ 337
    → 1 ≤ d
    → d ≤ 31
    → add64 (mul64 (y / 400) 146097) (
        add64
          (sub64
            (add64 (mul64 (sub64 y (mul64 (y / 400) 400)) 365) (sub64 y (mul64 (y / 400) 400) / 4))
            (sub64 y (mul64 (y / 400) 400) / 100))
          (add64 t (d - 1)))
      ≡ days_of_years y + t + d - 1
unsigned_word y t d h k p q = omega arith

unsigned_days-closed :
    (y m d : ℕ)
    → y ≤ 6_000_000_000_000
    → get_or k_doy_from_march m 0 ≤ 337
    → 1 ≤ d
    → d ≤ 31
    → unsigned_days y m (pos d)
      ≡ pos (days_of_years y + get_or k_doy_from_march m 0 + d) -ℤ pos 719469
unfolding unsigned_days
unsigned_days-closed y m d h t p q =
    rw
      (
        day_word d p q,
        unsigned_word y (get_or k_doy_from_march m 0) d h t p q,
        to_i64-small (days_of_years y + get_or k_doy_from_march m 0 + d - 1) (omega arith),
      )
      (omega int_laws)

signed_days-closed :
    (n m d u k : ℕ)
    → u + suc n ≡ 400 * k
    → 1 ≤ d
    → signed_days (negsuc n) m (pos d)
      ≡ pos (days_of_years u + get_or k_doy_from_march m 0 + d) -ℤ pos (719469 + 146097 * k)
unfolding signed_days
signed_days-closed n m d u k e p = omega int_laws

leb_ℤ-pos : (n : ℕ) → leb_ℤ (pos 0) (pos n) ≡ true
leb_ℤ-pos n = ground arith

leb_ℤ-negsuc : (n : ℕ) → leb_ℤ (pos 0) (negsuc n) ≡ false
leb_ℤ-negsuc n = ground arith

abbrev days_of : ℤ → ℕ → ℤ → ℤ
days_of y i d = if leb_ℤ (pos 0) y then unsigned_days (to_u64 y) i d else signed_days y i d

to_u64-small : (n : ℕ) → n ≤ 6_000_000_000_000 → to_u64 (pos n) ≡ n
to_u64-small n h = omega arith

days_of-closed :
    (y : ℤ) (i d u k : ℕ)
    → get_or k_doy_from_march i 0 ≤ 337
    → 1 ≤ d
    → d ≤ 31
    → u ≤ 6_000_000_000_000
    → pos_part y + 400 * k ≡ u + neg_part y
    → days_of y i (pos d)
      ≡ pos (days_of_years u + get_or k_doy_from_march i 0 + d) -ℤ pos (719469 + 146097 * k)
days_of-closed (pos n) i d u k t p q h e =
    rw (leb_ℤ-pos n, to_u64-small n (omega arith), unsigned_days-closed n i d (omega arith) t p q)
      (omega int_laws)
days_of-closed (negsuc n) i d u k t p q h e =
    rw (leb_ℤ-negsuc n) (signed_days-closed n i d u k (omega arith) p)

-- The month's place in the table, and the year that it belongs to.
MonthPlace : ℕ → Type 0
MonthPlace m =
    (get_or k_doy_from_march (march_index m) 0 ≤ 337)
    × (pos_part
          (if ltb_ℤ (pos m -ℤ pos 3) (pos 0) then pos m -ℤ pos 3 +ℤ pos 12 else pos m -ℤ pos 3)
        ≡ march_index m)
    × ((if leb_ℤ (pos m) (pos 2) then pos 1 else pos 0) ≡ pos (one_if (leb m 2)))

month_place : ForMonths MonthPlace
unfolding MonthPlace march_index ◌-ℤ◌ ◌+ℤ◌
month_place = record {
  p1 = (omega arith, refl, refl);
  p2 = (omega arith, refl, refl);
  p3 = (omega arith, refl, refl);
  p4 = (omega arith, refl, refl);
  p5 = (omega arith, refl, refl);
  p6 = (omega arith, refl, refl);
  p7 = (omega arith, refl, refl);
  p8 = (omega arith, refl, refl);
  p9 = (omega arith, refl, refl);
  p10 = (omega arith, refl, refl);
  p11 = (omega arith, refl, refl);
  p12 = (omega arith, refl, refl);
}

-- The day number of a date, counted from any year that 400 divides.
pub fast_days-closed :
    (p_year : ℤ) (m d u k : ℕ)
    → (1 ≤ m) × (m ≤ 12)
    → (1 ≤ d) × (d ≤ 31)
    → u ≤ 6_000_000_000_000
    → p_year ≡ pos (u + one_if (leb m 2)) -ℤ pos (400 * k)
    → fast_days_from_date_constexpr p_year (pos m) (pos d)
      ≡ pos (days_of_years u + doy_of_month m + d) -ℤ pos (719469 + 146097 * k)
unfolding fast_days_from_date_constexpr doy_of_month MonthPlace
fast_days-closed p_year m d u k (m1, m2) (d1, d2) h e =
    let (t, place, adjust) = months_elim MonthPlace month_place m m1 m2 in
    rw (place, adjust)
      (days_of-closed (p_year -ℤ pos (one_if (leb m 2))) (march_index m) d u k t d1 d2 h
        (omega (int_laws, ap pos_part e, ap neg_part e)))
