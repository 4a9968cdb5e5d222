-- ===== src/DateTime/Split.antt =====
-- A timestamp splits into a day and a second of that day, rounding down.
use time_shield_cpp.Base.{
  ℕ, zero, suc, ◌+◌, ◌*◌, ◌%◌, ◌≤◌, ◌<◌, ◌≡◌, refl, ap, Bool, true, false, not, ◌&&◌, if◌then◌else◌,
  arith,
}
use time_shield_cpp.Base.Int.{
  ℤ, pos, negsuc, neg_ℕ, pos_part, neg_part, ◌+ℤ◌, ◌-ℤ◌, ◌/ℤ◌, ◌%ℤ◌, ◌==ℤ◌, ltb_ℤ, int_laws,
  parts_disjoint, -ℤ-zero, +ℤ-zero,
}
use time_shield_cpp.Detail.FloorMath.{floor_div, floor_mod, floor_div-floor_mod}
use time_shield_cpp.Detail.FastDate.{DaySplit, split_unix_day}
use time_shield_cpp.Detail.FastDate.RoundTrip.{IsUnixDay}

-- The values of int64_t.
pub record IsInt64 (z : ℤ) : Type 0 where
  pub low : neg_part z ≤ 0x8000_0000_0000_0000
  pub high : pos_part z < 0x8000_0000_0000_0000

negative_rem :
    (ts : ℤ) (k : ℕ)
    → (not (ts %ℤ pos k ==ℤ pos 0) && ltb_ℤ ts (pos 0)) ≡ ltb_ℤ (ts %ℤ pos k) (pos 0)
unfolding ◌%ℤ◌
negative_rem (pos n) k = ground arith
negative_rem (negsuc n) k = of_neg (suc n % k)
  where
    of_neg :
        (x : ℕ) → (not (neg_ℕ x ==ℤ pos 0) && ltb_ℤ (negsuc n) (pos 0)) ≡ ltb_ℤ (neg_ℕ x) (pos 0)
    of_neg zero = refl
    of_neg (suc x) = ground arith

-- The day of a timestamp and the second of that day are the quotient and the remainder by 86400,
-- rounded down, before the epoch too.
pub split-floor :
    (ts : ℤ)
    → split_unix_day ts
      ≡ record { days = floor_div ts (pos 86400); sec_of_day = floor_mod ts (pos 86400) }
unfolding split_unix_day floor_div floor_mod
split-floor ts = rw (negative_rem ts 86400) (branch (ltb_ℤ (ts %ℤ pos 86400) (pos 0)))
  where
    q : ℤ
    q = ts /ℤ pos 86400

    r : ℤ
    r = ts %ℤ pos 86400

    branch :
        (b : Bool)
        → ◌≡◌ {A = DaySplit}
            (if b
              then record { days = q -ℤ pos 1; sec_of_day = r +ℤ pos 86400 }
              else record { days = q; sec_of_day = r })
            (record {
              days = q -ℤ (if b then pos 1 else pos 0);
              sec_of_day = r +ℤ (if b then pos 86400 else pos 0);
            })
    branch true = refl
    branch false = rw (-ℤ-zero q, +ℤ-zero r) refl

-- The day and the second of a timestamp, of which the day is one that the conversions cover.
pub record IsSplit (ts : ℤ) (s : DaySplit) : Type 0 where
  pub sum :
      pos_part ts + neg_part s.days * 86400
      ≡ neg_part ts + pos_part s.days * 86400 + pos_part s.sec_of_day
  pub sec_is : neg_part s.sec_of_day ≡ 0
  pub sec_in : pos_part s.sec_of_day < 86400

pub unix_day-IsSplit : (ts : ℤ) → IsSplit ts (split_unix_day ts)
unix_day-IsSplit ts = rw (split-floor ts) (
    let f = floor_div-floor_mod ts 86400 (omega arith) in
    record {
      sum = omega (int_laws, ap pos_part f.0, ap neg_part f.0, f.1, f.2);
      sec_is = omega (int_laws, f.1);
      sec_in = omega (int_laws, f.1, f.2);
    })

pub split-IsUnixDay : (ts : ℤ) → IsInt64 ts → IsUnixDay (split_unix_day ts).days
split-IsUnixDay ts r =
    let s = unix_day-IsSplit ts in
    record {
      low =
          omega (int_laws, s.sum, s.sec_in, r.low, r.high, parts_disjoint (split_unix_day ts).days);
      high =
          omega (int_laws, s.sum, s.sec_in, r.low, r.high, parts_disjoint (split_unix_day ts).days);
    }
