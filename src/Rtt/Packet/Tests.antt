-- ===== src/Rtt/Packet/Tests.antt =====
-- Calls of dg_send_recv, with thousandths for the floating-point numbers.
use network.Prelude.{ℕ, suc, ◌+◌, ◌-◌, ◌*◌, ◌/◌, ◌≤◌, ◌≡◌, refl, false, List, [], ◌∷◌, map, arith}
use network.Prelude.Int.{ℤ, pos}
use network.Prelude.Tests.{ltb, ltb→lt, ltb-false}
use network.Rtt.{
  Floats, IsOrdered, Time, rtt_rtocalc, rtt_minmax, rtt_init, rtt_ts, rtt_newpack, rtt_start,
  rtt_timeout,
}
use network.Rtt.Clamped.{Clamped}
use network.Rtt.Packet.{
  Event, arrives, sig_alrm, Sender, Call, answered, gave_up, waits, send_again, prepare, receive,
  dg_send_recv,
}
use network.Rtt.Packet.Sends.{sender_of, Ended, Sends}
use network.Rtt.Packet.Protocol.{dg_send_recv_lem}

abbrev ms : Floats
ms = record {
  F = ℕ;
  of_ms = λ n. n;
  to_float = λ x. x;
  add = λ x y. x + y;
  sub = λ x y. x - y;
  mul = λ x y. x * y / 1000;
  div = λ x y. x * 1000 / y;
  neg = λ x. x;
  lt = ltb;
  to_int = λ x. pos (x / 1000);
}

ms-IsOrdered : IsOrdered ms
ms-IsOrdered = record {
  asym = λ a b h. ltb-false b a (omega (arith, ltb→lt a b h));
  min_max = refl;
}

abbrev new : Sender ms
new = record {
  rttinfo = record {
    rtt_rtt = 0;
    rtt_srtt = 0;
    rtt_rttvar = 0;
    rtt_rto = 0;
    rtt_nrexmt = 0;
    rtt_base = 0;
  };
  rttinit = false;
  seq = 0;
  packets = [];
}

abbrev at_second : ℕ → Time
at_second n = record { tv_sec = n; tv_usec = 0 }

-- An alarm, a datagram with another number, and the answer to the second packet with 4 bytes.
abbrev late_answer : List Event
late_answer =
    sig_alrm (at_second 103)
    ∷ arrives (at_second 104) (record { n = 20; seq = 7; ts = 0 })
    ∷ arrives (at_second 105) (record { n = 12; seq = 1; ts = 3000 })
    ∷ []

abbrev alarm : Event
alarm = sig_alrm (at_second 200)

abbrev timeouts_of : Call ms → List ℤ
timeouts_of c = map (λ p. p.timeout) (sender_of ms c).packets

abbrev has_given_up : Call ms → ℕ
has_given_up (answered n s) = 0
has_given_up (gave_up s) = 1
has_given_up (waits s) = 2

-- Without an answer there are four packets, the last with an alarm after 24 seconds.
no_answer :
    timeouts_of (dg_send_recv ms (at_second 100) (alarm ∷ alarm ∷ alarm ∷ alarm ∷ []) new)
    ≡ pos 3 ∷ pos 6 ∷ pos 12 ∷ pos 24 ∷ []
unfolding dg_send_recv receive send_again prepare rtt_init rtt_newpack rtt_timeout rtt_start
    rtt_minmax rtt_rtocalc rtt_ts sender_of
no_answer = refl

gives_up :
    has_given_up (dg_send_recv ms (at_second 100) (alarm ∷ alarm ∷ alarm ∷ alarm ∷ []) new) ≡ 1
unfolding dg_send_recv receive rtt_timeout send_again prepare rtt_newpack
gives_up = refl

dg_send_recv_lem_example :
    (let c = dg_send_recv ms (at_second 100) late_answer new in
      (k : ℕ) × (k ≤ 3)
      × Ended ms late_answer 1 3 k c
      × ((rto : ℕ) × Clamped ms rto × Sends ms [] (sender_of ms c).packets 1 (suc k) rto))
dg_send_recv_lem_example =
    dg_send_recv_lem ms ms-IsOrdered (at_second 100) late_answer new (λ e. absurd (cc e))
