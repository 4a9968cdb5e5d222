-- ===== src/Base/Months.antt =====
-- The twelve months, one by one.
use time_shield_cpp.Base.{ℕ, zero, suc, ◌≤◌, arith}

pub record ForMonths (P : ℕ → Type 0) : Type 0 where
  pub p1 : P 1
  pub p2 : P 2
  pub p3 : P 3
  pub p4 : P 4
  pub p5 : P 5
  pub p6 : P 6
  pub p7 : P 7
  pub p8 : P 8
  pub p9 : P 9
  pub p10 : P 10
  pub p11 : P 11
  pub p12 : P 12

pub months_elim : (P : ℕ → Type 0) → ForMonths P → (m : ℕ) → 1 ≤ m → m ≤ 12 → P m
months_elim P all zero lo hi = absurd (omega arith)
months_elim P all (suc zero) lo hi = all.p1
months_elim P all (suc (suc zero)) lo hi = all.p2
months_elim P all (suc (suc (suc zero))) lo hi = all.p3
months_elim P all (suc (suc (suc (suc zero)))) lo hi = all.p4
months_elim P all (suc (suc (suc (suc (suc zero))))) lo hi = all.p5
months_elim P all (suc (suc (suc (suc (suc (suc zero)))))) lo hi = all.p6
months_elim P all (suc (suc (suc (suc (suc (suc (suc zero))))))) lo hi = all.p7
months_elim P all (suc (suc (suc (suc (suc (suc (suc (suc zero)))))))) lo hi = all.p8
months_elim P all (suc (suc (suc (suc (suc (suc (suc (suc (suc zero))))))))) lo hi = all.p9
months_elim P all (suc (suc (suc (suc (suc (suc (suc (suc (suc (suc zero)))))))))) lo hi = all.p10
months_elim P all (suc (suc (suc (suc (suc (suc (suc (suc (suc (suc (suc zero))))))))))) lo hi =
    all.p11
months_elim P all (suc (suc (suc (suc (suc (suc (suc (suc (suc (suc (suc (suc zero)))))))))))) lo
      hi =
    all.p12
months_elim P all (suc (suc (suc (suc (suc (suc (suc (suc (suc (suc (suc (suc (suc m))))))))))))) lo
      hi =
    absurd (omega arith)
