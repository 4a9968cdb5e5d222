-- ===== src/Base/Word.antt =====
-- Machine words: uint64_t as a number below 2^64, and the casts between it and signed integers.
use time_shield_cpp.Base.{ℕ, ◌+◌, ◌-◌, ◌*◌, ◌%◌, ltb, if◌then◌else◌}
use time_shield_cpp.Base.Int.{ℤ, pos, negsuc}

abbrev pub u64_mod : ℕ
u64_mod = 0x1_0000_0000_0000_0000

-- The unsigned operations wrap.
abbrev pub add64 : ℕ → ℕ → ℕ
add64 a b = (a + b) % u64_mod

abbrev pub sub64 : ℕ → ℕ → ℕ
sub64 a b = (a + u64_mod - b) % u64_mod

abbrev pub mul64 : ℕ → ℕ → ℕ
mul64 a b = (a * b) % u64_mod

-- static_cast<uint64_t> of a signed integer.
abbrev pub to_u64 : ℤ → ℕ
to_u64 (pos n) = n % u64_mod
to_u64 (negsuc n) = u64_mod - 1 - n % u64_mod

-- static_cast<int64_t> and static_cast<int> of a word, in two's complement.
abbrev pub to_i64 : ℕ → ℤ
to_i64 w = if ltb w 0x8000_0000_0000_0000 then pos w else negsuc (u64_mod - w - 1)

abbrev pub to_i32 : ℕ → ℤ
to_i32 w =
    let v = w % 0x1_0000_0000 in if ltb v 0x8000_0000 then pos v else negsuc (0x1_0000_0000 - v - 1)
