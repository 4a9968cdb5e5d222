-- ===== src/Ntp.antt =====
-- include/time_shield/ntp_client/ntp_packet.hpp and ntp_client_core.hpp: the packets of an NTP query
-- and their evaluation. The byte order of the network is the functions ntohl and htonl of the
-- platform; a clock reading and the answer of the transport are arguments.
pub mod Stamps
pub mod Offset
pub mod Query
pub mod Samples
pub mod Servers
pub mod Pool
use time_shield_cpp.Base.{
  ℕ, ◌+◌, ◌*◌, ◌/◌, ◌%◌, ◌^◌, Bool, true, false, not, ◌||◌, ltb, leb, ◌==◌, if◌then◌else◌, Option,
  some, none,
}
use time_shield_cpp.Base.Int.{ℤ, pos, negsuc, ◌+ℤ◌, ◌-ℤ◌, ◌/ℤ◌, ltb_ℤ, ◌==ℤ◌}
use time_shield_cpp.Base.Word.{to_u64, to_i64, mul64, add64}

pub record NtpPacket : Type 0 where
  pub li_vn_mode : ℕ
  pub stratum : ℕ
  pub poll : ℕ
  pub precision : ℕ
  pub root_delay : ℕ
  pub root_dispersion : ℕ
  pub ref_id : ℕ
  pub ref_ts_sec : ℕ
  pub ref_ts_frac : ℕ
  pub orig_ts_sec : ℕ
  pub orig_ts_frac : ℕ
  pub recv_ts_sec : ℕ
  pub recv_ts_frac : ℕ
  pub tx_ts_sec : ℕ
  pub tx_ts_frac : ℕ

abbrev pub ntp_e_bad_mode : ℤ
ntp_e_bad_mode = negsuc 10_000

abbrev pub ntp_e_bad_version : ℤ
ntp_e_bad_version = negsuc 10_001

abbrev pub ntp_e_bad_li : ℤ
ntp_e_bad_li = negsuc 10_002

abbrev pub ntp_e_bad_stratum : ℤ
ntp_e_bad_stratum = negsuc 10_003

abbrev pub ntp_e_kod : ℤ
ntp_e_kod = negsuc 10_004

abbrev pub ntp_e_bad_ts : ℤ
ntp_e_bad_ts = negsuc 10_005

unfoldable pub ntp_li : ℕ → ℕ
ntp_li li_vn_mode = li_vn_mode / 64 % 4

unfoldable pub ntp_vn : ℕ → ℕ
ntp_vn li_vn_mode = li_vn_mode / 8 % 8

unfoldable pub ntp_mode : ℕ → ℕ
ntp_mode li_vn_mode = li_vn_mode % 8

-- What a query returns to its caller.
pub record Outputs : Type 0 where
  pub error_code : ℤ
  pub offset_us : ℤ
  pub delay_us : ℤ
  pub stratum : ℤ

pub record UdpAnswer : Type 0 where
  pub is_ok : Bool
  pub error_code : ℤ
  pub reply : NtpPacket

unfoldable pub refuse : Outputs → ℤ → Bool × Outputs
refuse out code = (false, record out { error_code = code })

-- The end of parse_server_packet, from its four times.
unfoldable pub evaluate_times : ℤ → ℤ → ℤ → ℤ → ℕ → Outputs → Bool × Outputs
unfolding refuse
evaluate_times t1 t2 t3 t4 stratum out =
    if ltb_ℤ t3 t2
    then refuse out ntp_e_bad_ts
    else let offset_us = ((t2 -ℤ t1) +ℤ (t3 -ℤ t4)) /ℤ pos 2 in
      let delay_us = (t4 -ℤ t1) -ℤ (t3 -ℤ t2) in
      let found = record out { offset_us = offset_us; delay_us = delay_us } in
      if ltb_ℤ delay_us (pos 0)
      then refuse found ntp_e_bad_ts
      else (true, record found { stratum = pos stratum })

module _ (ntohl : ℕ → ℕ) where
  unfoldable pub ntp_frac_to_us : ℕ → ℕ
  ntp_frac_to_us frac_net = mul64 (ntohl frac_net) 1_000_000 / 2 ^ 32

  unfoldable pub ntp_ts_to_unix_us : ℕ → ℕ → Option ℕ
  unfolding ntp_frac_to_us
  ntp_ts_to_unix_us sec_net frac_net =
      let sec = pos (ntohl sec_net) -ℤ pos 2_208_988_800 in
      if ltb_ℤ sec (pos 0)
      then none
      else some (add64 (mul64 (to_u64 sec) 1_000_000) (ntp_frac_to_us frac_net))

  -- The times of parse_server_packet.
  unfoldable pub evaluate_packet : Option ℕ → Option ℕ → Option ℕ → ℕ → ℕ → Outputs → Bool × Outputs
  unfolding evaluate_times refuse
  evaluate_packet (some originate_us) (some receive_us) (some transmit_us) arrival_us stratum out =
      evaluate_times (to_i64 originate_us) (to_i64 receive_us) (to_i64 transmit_us)
        (to_i64 arrival_us) stratum out
  evaluate_packet _ _ _ arrival_us stratum out = refuse out ntp_e_bad_ts

  unfoldable pub parse_server_packet : NtpPacket → ℕ → Outputs → Bool × Outputs
  unfolding ntp_li ntp_vn ntp_mode refuse evaluate_packet ntp_ts_to_unix_us
  parse_server_packet pkt arrival_us out =
      let li = ntp_li pkt.li_vn_mode in
      let vn = ntp_vn pkt.li_vn_mode in
      let mode = ntp_mode pkt.li_vn_mode in
      if not (mode == 4)
      then refuse out ntp_e_bad_mode
      else if ltb vn 3 || ltb 4 vn
      then refuse out ntp_e_bad_version
      else if li == 3
      then refuse out ntp_e_bad_li
      else if pkt.stratum == 0
      then refuse out ntp_e_kod
      else if leb 16 pkt.stratum
      then refuse out ntp_e_bad_stratum
      else evaluate_packet (ntp_ts_to_unix_us pkt.orig_ts_sec pkt.orig_ts_frac)
          (ntp_ts_to_unix_us pkt.recv_ts_sec pkt.recv_ts_frac)
          (ntp_ts_to_unix_us pkt.tx_ts_sec pkt.tx_ts_frac) arrival_us pkt.stratum out

module _ (htonl : ℕ → ℕ) where
  unfoldable pub fill_client_packet : ℕ → NtpPacket
  fill_client_packet now_us =
      let sec = add64 (now_us / 1_000_000) 2_208_988_800 in
      let frac = mul64 (now_us % 1_000_000) 0x1_0000_0000 / 1_000_000 in
      record {
        li_vn_mode = 27;
        stratum = 0;
        poll = 0;
        precision = 0;
        root_delay = 0;
        root_dispersion = 0;
        ref_id = 0;
        ref_ts_sec = 0;
        ref_ts_frac = 0;
        orig_ts_sec = 0;
        orig_ts_frac = 0;
        recv_ts_sec = 0;
        recv_ts_frac = 0;
        tx_ts_sec = htonl (sec % 2 ^ 32);
        tx_ts_frac = htonl (frac % 2 ^ 32);
      }

-- get_now_us, of a reading of now_realtime_us.
unfoldable pub get_now_us : ℤ → Option ℕ
get_now_us v = if ltb_ℤ v (pos 0) then none else some (to_u64 v)

-- An error code of a failure that set none.
unfoldable pub fail : Outputs → Bool × Outputs
fail out = (false, if out.error_code ==ℤ pos 0 then record out { error_code = negsuc 0 } else out)

unfoldable pub failed_or : Bool × Outputs → Bool × Outputs
unfolding fail
failed_or (true, out) = (true, out)
failed_or (false, out) = fail out

abbrev pub no_outputs : Outputs
no_outputs = record { error_code = pos 0; offset_us = pos 0; delay_us = pos 0; stratum = negsuc 0 }

module _ (ntohl : ℕ → ℕ) where
  -- The rest of query, from the second reading of the clock.
  unfoldable pub evaluate_arrival : Option ℕ → NtpPacket → Outputs → Bool × Outputs
  unfolding failed_or parse_server_packet
  evaluate_arrival none reply out = (false, record out { error_code = negsuc 0 })
  evaluate_arrival (some arrival_us) reply out =
      failed_or (parse_server_packet ntohl reply arrival_us out)

  -- The rest of query, from the answer of the transport.
  unfoldable pub evaluate_answer : UdpAnswer → Option ℕ → Bool × Outputs
  unfolding fail evaluate_arrival
  evaluate_answer answer arrival =
      let out = record no_outputs { error_code = answer.error_code } in
      if not answer.is_ok then fail out else evaluate_arrival arrival answer.reply out

module _ (ntohl htonl : ℕ → ℕ) (transact : NtpPacket → UdpAnswer) where
  -- query, from its first reading of the clock.
  unfoldable pub query_from : Option ℕ → Option ℕ → Bool × Outputs
  unfolding evaluate_answer fill_client_packet
  query_from none arrival = (false, record no_outputs { error_code = negsuc 0 })
  query_from (some now_us) arrival =
      evaluate_answer ntohl (transact (fill_client_packet htonl now_us)) arrival

  -- query, where the clock reads `now` and `arrival`.
  unfoldable pub query : ℤ → ℤ → Bool × Outputs
  unfolding get_now_us query_from
  query now arrival = query_from (get_now_us now) (get_now_us arrival)
