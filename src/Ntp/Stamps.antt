-- ===== src/Ntp/Stamps.antt =====
-- The time that a client packet carries.
use time_shield_cpp.Base.{ℕ, ◌+◌, ◌*◌, ◌/◌, ◌%◌, ◌^◌, ◌≤◌, ◌<◌, ◌≡◌, ap, false, some, arith}
use time_shield_cpp.Base.Int.{pos, ◌-ℤ◌, ltb_ℤ, eq_of_parts, int_laws}
use time_shield_cpp.Base.Word.{mul64, add64}
use time_shield_cpp.Ntp.{fill_client_packet, ntp_ts_to_unix_us, ntp_frac_to_us}

seconds_back : (s : ℕ) → pos (s + 2_208_988_800) -ℤ pos 2_208_988_800 ≡ pos s
seconds_back s = eq_of_parts _ _ (omega int_laws)

-- Before 2036-02-07, where ntohl undoes htonl on 32 bits, the time that fill_client_packet writes
-- is read back as that time or one microsecond less.
pub ntp_ts_to_unix_us-fill_client_packet :
    (ntohl htonl : ℕ → ℕ) (now_us : ℕ)
    → ((x : ℕ) → x < 2 ^ 32 → ntohl (htonl x) ≡ x)
    → now_us < 2_085_978_496_000_000
    → let pkt = fill_client_packet htonl now_us in
      (us : ℕ) × (ntp_ts_to_unix_us ntohl pkt.tx_ts_sec pkt.tx_ts_frac ≡ some us)
      × (us ≤ now_us)
      × (now_us ≤ us + 1)
unfolding fill_client_packet ntp_ts_to_unix_us ntp_frac_to_us
ntp_ts_to_unix_us-fill_client_packet ntohl htonl now_us order small =
    let s = now_us / 1_000_000 in
    let f = now_us % 1_000_000 * 0x1_0000_0000 / 1_000_000 in
    let sec : (add64 s 2_208_988_800 % 2 ^ 32 ≡ s + 2_208_988_800) = omega arith in
    let frac : (mul64 (now_us % 1_000_000) 0x1_0000_0000 / 1_000_000 % 2 ^ 32 ≡ f) = omega arith in
    let not_before : (ltb_ℤ (pos s) (pos 0) ≡ false) = ground arith in
    (
      s * 1_000_000 + f * 1_000_000 / 2 ^ 32,
      rw
          (
            sec,
            frac,
            order (s + 2_208_988_800) (omega arith),
            order f (omega arith),
            seconds_back s,
            not_before,
          )
          (ap some (omega arith)),
      omega arith,
      omega arith,
    )
