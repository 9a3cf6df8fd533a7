-- ===== src/Rtt/Packet/Protocol.antt =====
-- A whole call of dg_send_recv.
use network.Prelude.{
  ℕ, zero, suc, ◌+◌, ◌%◌, ◌^◌, ◌≤◌, ◌≡◌, refl, ap, subst, inl, inr, true, false, List, [], ◌∷◌,
  arith,
}
use network.Prelude.Tests.{ltb, Bool-cases, lt→ltb, ltb-false}
use network.Rtt.{Floats, IsOrdered, Time, rtt_maxnrexmt, rtt_newpack, rtt_timeout}
use network.Rtt.Clamped.{Clamped, rtt_stop-Clamped, rtt_init-Clamped}
use network.Rtt.Packet.{
  hdr_size, Arrival, Event, arrives, sig_alrm, Sender, Call, answered, gave_up, waits, send_again,
  prepare, is_other, finish, receive, dg_send_recv,
}
use network.Rtt.Packet.Sends.{
  here, later, alarms, sender_of, Good, Ended, Sends, nothing_more, one_more,
}

module _ (fl : Floats) (o : IsOrdered fl) where
  open fl use {F, of_ms, to_float, mul}

  -- The timeout behind an alarm.
  double : F → F
  double rto = to_float (mul rto (of_ms 2000))

  matches :
      (s : Sender fl) (d : Arrival) → is_other fl s d ≡ false → (d.seq ≡ s.seq) × (hdr_size ≤ d.n)
  unfolding is_other
  matches s d e = ground arith

  -- A datagram that is not the answer changes nothing.
  skipped :
      (es : List Event) (now : Time) (d : Arrival) (seq left k : ℕ) (c : Call fl)
      → Ended fl es seq left k c
      → Ended fl (arrives now d ∷ es) seq left k c
  unfolding Ended alarms
  skipped es now d seq left k (answered n s) v = (later (arrives now d) v.0, v.1)
  skipped es now d seq left k (gave_up s) v = v
  skipped es now d seq left k (waits s) v = v

  alarmed :
      (es : List Event) (now : Time) (seq left k : ℕ) (c : Call fl)
      → Ended fl es seq left k c
      → Ended fl (sig_alrm now ∷ es) seq (suc left) (suc k) c
  unfolding Ended alarms
  alarmed es now seq left k (answered n s) v = (later (sig_alrm now) v.0, v.1)
  alarmed es now seq left k (gave_up s) v = (ap suc v.0, omega (arith, v.1), v.2)
  alarmed es now seq left k (waits s) v = ap suc v

  -- What `receive` adds to the packets, and how it ends.
  OutcomeOf : List Event → Sender fl → ℕ → Call fl → Type 0
  OutcomeOf es s left c =
      (k : ℕ) × (k ≤ left)
      × Ended fl es s.seq left k c
      × Sends fl s.packets (sender_of fl c).packets s.seq k (double s.rttinfo.rtt_rto)

  receive_lem :
      (es : List Event) (s : Sender fl) (left : ℕ)
      → s.rttinfo.rtt_nrexmt + left ≡ rtt_maxnrexmt
      → OutcomeOf es s left (receive fl es s)
  unfolding receive OutcomeOf Ended alarms sender_of finish send_again rtt_timeout double
  receive_lem [] s left h =
      (0, omega arith, refl, nothing_more fl s.packets s.seq (double s.rttinfo.rtt_rto))
  receive_lem (arrives now d ∷ es) s left h = elim (Bool-cases (is_other fl s d)) [
    | inl e ↦
        let (k, few, ended, sends) = receive_lem es s left h in
        rw e (k, few, skipped es now d s.seq left k (receive fl es s) ended, sends)
    | inr e ↦
        let (same, whole) = matches s d e in
        rw e (
          0,
          omega arith,
          (here now d same (omega (arith, whole)), λ i. rtt_stop-Clamped fl o _ s.rttinfo),
          nothing_more fl s.packets s.seq (double s.rttinfo.rtt_rto),
        )
  ]
  receive_lem (sig_alrm now ∷ es) s zero h =
      let over : ltb rtt_maxnrexmt (s.rttinfo.rtt_nrexmt + 1) ≡ true =
        lt→ltb _ _ (omega (arith, h)) in
      rw over (
        0,
        omega arith,
        (refl, omega arith, refl),
        nothing_more fl s.packets s.seq (double s.rttinfo.rtt_rto),
      )
  receive_lem (sig_alrm now ∷ es) s (suc left) h =
      let s' = record s { rttinfo = (rtt_timeout fl s.rttinfo).0 } in
      let goes_on : ltb rtt_maxnrexmt (s.rttinfo.rtt_nrexmt + 1) ≡ false =
        ltb-false _ _ (omega (arith, h)) in
      let (k, few, ended, sends) = receive_lem es (send_again fl now s') left (omega (arith, h)) in
      rw goes_on (
        suc k,
        omega (arith, few),
        alarmed es now s.seq left k (receive fl es (send_again fl now s')) ended,
        one_more fl now s' _ k sends,
      )

  prepare_keeps :
      (now : Time) (s : Sender fl)
      → Good fl s
      → ((prepare fl now s).packets ≡ s.packets)
        × ((prepare fl now s).rttinfo.rtt_nrexmt ≡ 0)
        × Clamped fl (prepare fl now s).rttinfo.rtt_rto
  unfolding prepare rtt_newpack
  prepare_keeps now s good = elim (Bool-cases s.rttinit) [
    | inl e ↦ rw e (refl, refl, good e)
    | inr e ↦ rw e (refl, refl, rtt_init-Clamped fl o now s.rttinfo)
  ]

  prepare-seq : (now : Time) (s : Sender fl) → (prepare fl now s).seq ≡ (s.seq + 1) % 2 ^ 32
  unfolding prepare
  prepare-seq now s = refl

  -- For every call of dg_send_recv and whatever datagrams and alarms come, over floating-point
  -- numbers whose order is asymmetric: the call sends 1 + k packets with k at most 3, all with the
  -- number of the call, the first with a timeout between 2 and 60 seconds and each other with
  -- twice the one before; it returns an answer only for a datagram that came with this number and
  -- a whole header, of which it gives the rest of the length; it gives up only after four alarms
  -- and then has the next call set up the estimates afresh; and it waits only as long as each
  -- alarm so far was followed by a packet, which are three at most. If the timeout of the next
  -- packet is set up behind an answer, it is between the limits again.
  pub dg_send_recv_lem :
      (now : Time) (es : List Event) (s : Sender fl)
      → Good fl s
      → (let seq = (s.seq + 1) % 2 ^ 32 in
          let c = dg_send_recv fl now es s in
          (k : ℕ) × (k ≤ rtt_maxnrexmt)
          × Ended fl es seq rtt_maxnrexmt k c
          × ((rto : F) × Clamped fl rto
              × Sends fl s.packets (sender_of fl c).packets seq (suc k) rto))
  unfolding dg_send_recv OutcomeOf send_again double prepare
  dg_send_recv_lem now es s good =
      let s0 = prepare fl now s in
      let (packets, fresh, clamped) = prepare_keeps now s good in
      let (k, few, ended, sends) = receive_lem es (send_again fl now s0) 3 (omega (arith, fresh)) in
      let after = (sender_of fl (dg_send_recv fl now es s)).packets in
      let all = one_more fl now s0 after k sends in
      (
        k,
        few,
        ended,
        (
          s0.rttinfo.rtt_rto,
          clamped,
          subst (λ l. Sends fl l after s0.seq (suc k) s0.rttinfo.rtt_rto) packets all,
        ),
      )
