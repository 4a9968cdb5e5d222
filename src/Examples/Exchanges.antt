-- ===== src/Examples/Exchanges.antt =====
-- The theorems on NTP for a platform whose byte order is that of the network.
use time_shield_cpp.Base.{ℕ, ◌+◌, ◌≤◌, ◌≡◌, refl, true, some, arith}
use time_shield_cpp.Base.Int.{ℤ, pos, ◌+ℤ◌, ◌*ℤ◌, ◌≤ℤ◌}
use time_shield_cpp.Ntp.{
  NtpPacket, no_outputs, fill_client_packet, ntp_ts_to_unix_us, ntp_frac_to_us, ntp_li, ntp_vn,
  ntp_mode, parse_server_packet, query,
}
use time_shield_cpp.Ntp.Stamps.{ntp_ts_to_unix_us-fill_client_packet}
use time_shield_cpp.Ntp.Offset.{parse_server_packet-exchange}
use time_shield_cpp.Ntp.Query.{IsOutcome, query-IsOutcome}
use time_shield_cpp.Examples.{methods}

abbrev same : ℕ → ℕ
same x = x

ntp_ts_to_unix_us-fill_client_packet_example :
    (us : ℕ) × (ntp_ts_to_unix_us same
        (fill_client_packet same 1_709_251_199_999_999).tx_ts_sec
        (fill_client_packet same 1_709_251_199_999_999).tx_ts_frac
      ≡ some us)
    × (us ≤ 1_709_251_199_999_999)
    × (1_709_251_199_999_999 ≤ us + 1)
ntp_ts_to_unix_us-fill_client_packet_example =
    ntp_ts_to_unix_us-fill_client_packet same same 1_709_251_199_999_999 (λ x h. refl) (omega arith)

-- The answer of a server two seconds ahead: it was asked at second 10 and answered at second 13 of
-- its clock, after one second on the way.
abbrev answer : NtpPacket
answer = record {
  li_vn_mode = 28;
  stratum = 2;
  poll = 0;
  precision = 0;
  root_delay = 0;
  root_dispersion = 0;
  ref_id = 0;
  ref_ts_sec = 0;
  ref_ts_frac = 0;
  orig_ts_sec = 2_208_988_810;
  orig_ts_frac = 0;
  recv_ts_sec = 2_208_988_813;
  recv_ts_frac = 0;
  tx_ts_sec = 2_208_988_813;
  tx_ts_frac = 0;
}

parse_server_packet-exchange_example :
    (found : ℤ) × (parse_server_packet same answer 12_000_000 no_outputs
      ≡ (true, record no_outputs { offset_us = found; delay_us = pos 2_000_000; stratum = pos 2 }))
    × (found *ℤ pos 2 ≤ℤ pos 2_000_000 *ℤ pos 2 +ℤ pos 2_000_001)
    × (pos 2_000_000 *ℤ pos 2 ≤ℤ found *ℤ pos 2 +ℤ pos 2_000_001)
unfolding methods ntp_ts_to_unix_us ntp_frac_to_us ntp_li ntp_vn ntp_mode
parse_server_packet-exchange_example =
    parse_server_packet-exchange same answer no_outputs (pos 2_000_000) 1_000_000 0 1_000_000
      10_000_000 13_000_000 13_000_000 12_000_000
      (record {
        mode = refl;
        version = (omega arith, omega arith);
        leap = omega arith;
        stratum_in = (omega arith, omega arith);
      })
      refl refl refl
      (record { received = refl; sent = refl; arrived = refl; small = (omega arith, omega arith) })

-- The same answer, whatever the question was, to a query at second 10.
query-IsOutcome_example : IsOutcome (
    query same same
      (λ p. record { is_ok = true; error_code = pos 0; reply = answer })
      (pos 10_000_000)
      (pos 12_000_000))
query-IsOutcome_example =
    query-IsOutcome same same (λ p. record { is_ok = true; error_code = pos 0; reply = answer })
      (pos 10_000_000) (pos 12_000_000)
