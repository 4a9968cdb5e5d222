-- ===== src/Ntp/Query.antt =====
-- What a query returns, whatever the clock and the transport do.
use time_shield_cpp.Base.{
  ℕ, ◌≤◌, ◌≡◌, ◌≢◌, ◌⊎◌, inl, inr, refl, ap, Bool, Bool-cases, true, false, not, ◌||◌, ltb, leb,
  ◌==◌, Option, some, none, if◌then◌else◌, arith,
}
use time_shield_cpp.Base.Int.{ℤ, pos, negsuc, neg_part, ◌+ℤ◌, ◌-ℤ◌, ◌/ℤ◌, ◌≤ℤ◌, ◌==ℤ◌, ltb_ℤ}
use time_shield_cpp.Base.Word.{to_i64}
use time_shield_cpp.Ntp.{
  NtpPacket, UdpAnswer, Outputs, no_outputs, refuse, fail, failed_or, ntp_mode, ntp_vn, ntp_li,
  ntp_ts_to_unix_us, evaluate_times, evaluate_packet, parse_server_packet, evaluate_arrival,
  evaluate_answer, fill_client_packet, query_from, query, get_now_us,
}

-- A success has a stratum of a synchronized server and a delay that is not negative; a failure
-- has an error code and leaves the stratum -1.
abbrev pub IsOutcome : Bool × Outputs → Type 0
IsOutcome r =
    ((r.0 ≡ true) × (pos 1 ≤ℤ r.1.stratum) × (r.1.stratum ≤ℤ pos 15) × (pos 0 ≤ℤ r.1.delay_us))
    ⊎ ((r.0 ≡ false) × (r.1.error_code ≢ pos 0) × (r.1.stratum ≡ negsuc 0))

negative : (n : ℕ) → negsuc n ≢ pos 0
negative n e = absurd (omega (arith, ap neg_part e))

refused : (out : Outputs) (n : ℕ) → out.stratum ≡ negsuc 0 → IsOutcome (refuse out (negsuc n))
unfolding refuse
refused out n e = inr (refl, negative n, e)

-- A test with a refusal behind it.
tested :
    (b : Bool) (x y : Bool × Outputs)
    → IsOutcome x
    → (b ≡ false → IsOutcome y)
    → IsOutcome (if b then x else y)
tested true x y v w = v
tested false x y v w = w refl

times-IsOutcome :
    (t1 t2 t3 t4 : ℤ) (stratum : ℕ) (out : Outputs)
    → (1 ≤ stratum) × (stratum ≤ 15)
    → out.stratum ≡ negsuc 0
    → IsOutcome (evaluate_times t1 t2 t3 t4 stratum out)
unfolding evaluate_times
times-IsOutcome t1 t2 t3 t4 stratum out r e =
    let delay = (t4 -ℤ t1) -ℤ (t3 -ℤ t2) in
    let found : Outputs = record out {
      offset_us = ((t2 -ℤ t1) +ℤ (t3 -ℤ t4)) /ℤ pos 2;
      delay_us = delay;
    } in
    tested (ltb_ℤ t3 t2) _ _ (refused out 10_005 e) (λ _.
      tested (ltb_ℤ delay (pos 0)) _ _ (refused found 10_005 e)
        (λ forth. inl (refl, omega arith, omega arith, not_before _ forth)))
  where
    not_before : (a : ℤ) → ltb_ℤ a (pos 0) ≡ false → pos 0 ≤ℤ a
    not_before a h = ground arith

packet-IsOutcome :
    (ntohl : ℕ → ℕ) (originate receive transmit : Option ℕ) (arrival stratum : ℕ) (out : Outputs)
    → (1 ≤ stratum) × (stratum ≤ 15)
    → out.stratum ≡ negsuc 0
    → IsOutcome (evaluate_packet ntohl originate receive transmit arrival stratum out)
unfolding evaluate_packet
packet-IsOutcome ntohl (some t1) (some t2) (some t3) arrival stratum out r e =
    times-IsOutcome (to_i64 t1) (to_i64 t2) (to_i64 t3) (to_i64 arrival) stratum out r e
packet-IsOutcome ntohl none receive transmit arrival stratum out r e = refused out 10_005 e
packet-IsOutcome ntohl (some t1) none transmit arrival stratum out r e = refused out 10_005 e
packet-IsOutcome ntohl (some t1) (some t2) none arrival stratum out r e = refused out 10_005 e

pub parse_server_packet-IsOutcome :
    (ntohl : ℕ → ℕ) (pkt : NtpPacket) (arrival : ℕ) (out : Outputs)
    → out.stratum ≡ negsuc 0
    → IsOutcome (parse_server_packet ntohl pkt arrival out)
unfolding parse_server_packet
parse_server_packet-IsOutcome ntohl pkt arrival out e =
    tested (not (ntp_mode pkt.li_vn_mode == 4)) _ _ (refused out 10_000 e) (λ _.
      tested (ltb (ntp_vn pkt.li_vn_mode) 3 || ltb 4 (ntp_vn pkt.li_vn_mode)) _ _
        (refused out 10_001 e)
        (λ _. tested (ntp_li pkt.li_vn_mode == 3) _ _ (refused out 10_002 e) (λ _.
          tested (pkt.stratum == 0) _ _ (refused out 10_004 e) (λ alive.
            tested (leb 16 pkt.stratum) _ _ (refused out 10_003 e) (λ near.
              packet-IsOutcome ntohl (ntp_ts_to_unix_us ntohl pkt.orig_ts_sec pkt.orig_ts_frac)
                (ntp_ts_to_unix_us ntohl pkt.recv_ts_sec pkt.recv_ts_frac)
                (ntp_ts_to_unix_us ntohl pkt.tx_ts_sec pkt.tx_ts_frac) arrival pkt.stratum out
                (in_range _ alive near) e)))))
  where
    in_range : (n : ℕ) → (n == 0) ≡ false → leb 16 n ≡ false → (1 ≤ n) × (n ≤ 15)
    in_range n p q = (ground arith, ground arith)

failed-IsOutcome : (out : Outputs) → out.stratum ≡ negsuc 0 → IsOutcome (fail out)
unfolding fail
failed-IsOutcome out e = elim (Bool-cases (out.error_code ==ℤ pos 0)) [
  | inl zero ↦ rw zero (inr (refl, negative 0, e))
  | inr other ↦ rw other (inr (refl, not_zero out.error_code other, e))
]
  where
    not_zero : (a : ℤ) → (a ==ℤ pos 0) ≡ false → a ≢ pos 0
    not_zero a h e = ground arith

failed_or-IsOutcome : (r : Bool × Outputs) → IsOutcome r → IsOutcome (failed_or r)
unfolding failed_or
failed_or-IsOutcome (true, out) v = v
failed_or-IsOutcome (false, out) (inl (e, _, _, _)) = absurd (cc e)
failed_or-IsOutcome (false, out) (inr (_, _, e)) = failed-IsOutcome out e

arrival-IsOutcome :
    (ntohl : ℕ → ℕ) (arrival : Option ℕ) (reply : NtpPacket) (out : Outputs)
    → out.stratum ≡ negsuc 0
    → IsOutcome (evaluate_arrival ntohl arrival reply out)
unfolding evaluate_arrival
arrival-IsOutcome ntohl none reply out e = inr (refl, negative 0, e)
arrival-IsOutcome ntohl (some t) reply out e =
    failed_or-IsOutcome (parse_server_packet ntohl reply t out)
      (parse_server_packet-IsOutcome ntohl reply t out e)

answer-IsOutcome :
    (ntohl : ℕ → ℕ) (answer : UdpAnswer) (arrival : Option ℕ)
    → IsOutcome (evaluate_answer ntohl answer arrival)
unfolding evaluate_answer
answer-IsOutcome ntohl answer arrival =
    tested (not answer.is_ok) _ _
      (failed-IsOutcome (record no_outputs { error_code = answer.error_code }) refl)
      (λ _.
        arrival-IsOutcome ntohl arrival answer.reply
          (record no_outputs { error_code = answer.error_code }) refl)

from-IsOutcome :
    (ntohl htonl : ℕ → ℕ) (transact : NtpPacket → UdpAnswer) (now arrival : Option ℕ)
    → IsOutcome (query_from ntohl htonl transact now arrival)
unfolding query_from
from-IsOutcome ntohl htonl transact none arrival = inr (refl, negative 0, refl)
from-IsOutcome ntohl htonl transact (some now) arrival =
    answer-IsOutcome ntohl (transact (fill_client_packet htonl now)) arrival

-- Whatever the clock, the transport and the server answer, a query either succeeds with a stratum
-- from 1 to 15 and a delay that is not negative, or fails with an error code other than 0 and the
-- stratum -1.
pub query-IsOutcome :
    (ntohl htonl : ℕ → ℕ) (transact : NtpPacket → UdpAnswer) (now arrival : ℤ)
    → IsOutcome (query ntohl htonl transact now arrival)
unfolding query
query-IsOutcome ntohl htonl transact now arrival =
    from-IsOutcome ntohl htonl transact (get_now_us now) (get_now_us arrival)
