-- ===== src/Ntp/Offset.antt =====
-- The offset of the server's clock that an answer shows.
use time_shield_cpp.Base.{
  ℕ, ◌+◌, ◌^◌, ◌≤◌, ◌<◌, ◌≡◌, refl, ap, true, false, ◌||◌, ltb, leb, ◌==◌, some, arith,
}
use time_shield_cpp.Base.Int.{
  ℤ, pos, pos_part, neg_part, ◌+ℤ◌, ◌-ℤ◌, ◌*ℤ◌, ◌/ℤ◌, ◌≤ℤ◌, ltb_ℤ, eq_of_parts, parts_disjoint,
  int_laws,
}
use time_shield_cpp.Base.Word.{to_i64}
use time_shield_cpp.Ntp.{
  NtpPacket, Outputs, ntp_mode, ntp_vn, ntp_li, ntp_ts_to_unix_us, evaluate_times, evaluate_packet,
  parse_server_packet,
}

-- The header of an answer that is evaluated.
pub record IsServerPacket (pkt : NtpPacket) : Type 0 where
  pub mode : ntp_mode pkt.li_vn_mode ≡ 4
  pub version : (3 ≤ ntp_vn pkt.li_vn_mode) × (ntp_vn pkt.li_vn_mode ≤ 4)
  pub leap : ntp_li pkt.li_vn_mode ≤ 2
  pub stratum_in : (1 ≤ pkt.stratum) × (pkt.stratum ≤ 15)

-- The times of an exchange with a server whose clock is `offset` ahead: `out` microseconds on the
-- way, `stay` at the server and `back` on the way back.
pub record IsExchange (offset : ℤ) (out stay back t1 t2 t3 t4 : ℕ) : Type 0 where
  pub received : pos t2 ≡ pos t1 +ℤ offset +ℤ pos out
  pub sent : t3 ≡ t2 + stay
  pub arrived : t4 ≡ t1 + out + stay + back
  pub small : (t3 < 2 ^ 63) × (t4 < 2 ^ 63)

offset_found : ℕ → ℕ → ℕ → ℕ → ℤ
offset_found t1 t2 t3 t4 = ((pos t2 -ℤ pos t1) +ℤ (pos t3 -ℤ pos t4)) /ℤ pos 2

module _ (offset : ℤ) (out stay back t1 t2 t3 t4 : ℕ)
    (x : IsExchange offset out stay back t1 t2 t3 t4) where
  delay_is : (pos t4 -ℤ pos t1) -ℤ (pos t3 -ℤ pos t2) ≡ pos (out + back)
  delay_is = eq_of_parts _ _ (omega (int_laws, x.sent, x.arrived))

  offset_close :
      let o = offset_found t1 t2 t3 t4 in
      (o *ℤ pos 2 ≤ℤ offset *ℤ pos 2 +ℤ pos (out + back + 1))
      × (offset *ℤ pos 2 ≤ℤ o *ℤ pos 2 +ℤ pos (out + back + 1))
  unfolding offset_found
  offset_close =
      let sum = (pos t2 -ℤ pos t1) +ℤ (pos t3 -ℤ pos t4) in
      (
        omega (
          int_laws,
          ap pos_part x.received,
          ap neg_part x.received,
          x.sent,
          x.arrived,
          parts_disjoint sum,
          parts_disjoint offset,
        ),
        omega (
          int_laws,
          ap pos_part x.received,
          ap neg_part x.received,
          x.sent,
          x.arrived,
          parts_disjoint sum,
          parts_disjoint offset,
        ),
      )

  times_accepted :
      (stratum : ℕ) (outputs : Outputs)
      → evaluate_times (pos t1) (pos t2) (pos t3) (pos t4) stratum outputs ≡ (
        true,
        record outputs {
          offset_us = offset_found t1 t2 t3 t4;
          delay_us = pos (out + back);
          stratum = pos stratum;
        },
      )
  unfolding evaluate_times offset_found
  times_accepted stratum outputs =
      let in_order : (ltb_ℤ (pos t3) (pos t2) ≡ false) = ground (arith, x.sent) in
      let forth : (ltb_ℤ (pos (out + back)) (pos 0) ≡ false) = ground arith in
      rw (in_order, delay_is, forth) refl

-- For an answer with an accepted header, of an exchange with a server whose clock is ahead by an
-- offset that is constant, the delay that parse_server_packet finds is the time on the way, and
-- the offset it finds differs from the server's by at most half a microsecond more than half of
-- that time.
pub parse_server_packet-exchange :
    (ntohl : ℕ → ℕ) (pkt : NtpPacket) (outputs : Outputs) (offset : ℤ)
    (out stay back t1 t2 t3 t4 : ℕ)
    → IsServerPacket pkt
    → ntp_ts_to_unix_us ntohl pkt.orig_ts_sec pkt.orig_ts_frac ≡ some t1
    → ntp_ts_to_unix_us ntohl pkt.recv_ts_sec pkt.recv_ts_frac ≡ some t2
    → ntp_ts_to_unix_us ntohl pkt.tx_ts_sec pkt.tx_ts_frac ≡ some t3
    → IsExchange offset out stay back t1 t2 t3 t4
    → (found : ℤ) × (parse_server_packet ntohl pkt t4 outputs ≡ (
      true,
      record outputs { offset_us = found; delay_us = pos (out + back); stratum = pos pkt.stratum },
    ))
      × (found *ℤ pos 2 ≤ℤ offset *ℤ pos 2 +ℤ pos (out + back + 1))
      × (offset *ℤ pos 2 ≤ℤ found *ℤ pos 2 +ℤ pos (out + back + 1))
unfolding parse_server_packet evaluate_packet
parse_server_packet-exchange ntohl pkt outputs offset out stay back t1 t2 t3 t4 v e1 e2 e3 x =
    let is_mode : ((ntp_mode pkt.li_vn_mode == 4) ≡ true) = ground (arith, v.mode) in
    let is_version : ((ltb (ntp_vn pkt.li_vn_mode) 3 || ltb 4 (ntp_vn pkt.li_vn_mode)) ≡ false) =
      ground (arith, v.version) in
    let is_leap : ((ntp_li pkt.li_vn_mode == 3) ≡ false) = ground (arith, v.leap) in
    let is_kod : ((pkt.stratum == 0) ≡ false) = ground (arith, v.stratum_in) in
    let is_stratum : (leb 16 pkt.stratum ≡ false) = ground (arith, v.stratum_in) in
    let i1 : (to_i64 t1 ≡ pos t1) = ground (arith, x.arrived, x.small) in
    let i2 : (to_i64 t2 ≡ pos t2) = ground (arith, x.sent, x.small) in
    let i3 : (to_i64 t3 ≡ pos t3) = ground (arith, x.small) in
    let i4 : (to_i64 t4 ≡ pos t4) = ground (arith, x.small) in
    let (above, below) = offset_close offset out stay back t1 t2 t3 t4 x in
    (
      offset_found t1 t2 t3 t4,
      rw (is_mode, is_version, is_leap, is_kod, is_stratum, e1, e2, e3, i1, i2, i3, i4)
          (times_accepted offset out stay back t1 t2 t3 t4 x pkt.stratum outputs),
      above,
      below,
    )
