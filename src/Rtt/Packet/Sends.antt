-- ===== src/Rtt/Packet/Sends.antt =====
-- What one call of dg_send_recv sends, and how it ends.
use network.Prelude.{
  ℕ, zero, suc, ◌+◌, ◌<◌, ◌≡◌, refl, sym, ap, ◌∙◌, true, false, List, [], ◌∷◌, ◌++◌, map,
  append-nil, append_assoc,
}
use network.Prelude.Lists.{replicate}
use network.Prelude.Int.{ℤ}
use network.Rtt.{Floats, Time, rtt_start}
use network.Rtt.Clamped.{Clamped}
use network.Rtt.Packet.{
  hdr_size, Arrival, Event, arrives, sig_alrm, Packet, Sender, Call, answered, gave_up, waits,
  send_again,
}

-- A datagram with the number `seq` and n bytes behind its header is among the events.
pub data Delivers (seq n : ℕ) : List Event → Type 0 where
  here :
      {es : List Event} (now : Time) (d : Arrival)
      → d.seq ≡ seq
      → d.n ≡ n + hdr_size
      → Delivers seq n (arrives now d ∷ es)
  later : {es : List Event} (e : Event) → Delivers seq n es → Delivers seq n (e ∷ es)

unfoldable pub alarms : List Event → ℕ
alarms [] = 0
alarms (arrives now d ∷ es) = alarms es
alarms (sig_alrm now ∷ es) = suc (alarms es)

module _ (fl : Floats) where
  open fl use {F, of_ms, to_float, add, mul, to_int}

  -- The timeouts of k packets, each twice the one before.
  pub timeouts : ℕ → F → List ℤ
  timeouts zero rto = []
  timeouts (suc k) rto = to_int (add rto (of_ms 500)) ∷ timeouts k (to_float (mul rto (of_ms 2000)))

  unfoldable pub sender_of : Call fl → Sender fl
  sender_of (answered n s) = s
  sender_of (gave_up s) = s
  sender_of (waits s) = s

  -- Where the estimates are set up, the timeout is between the limits.
  abbrev pub Good : Sender fl → Type 0
  Good s = s.rttinit ≡ true → Clamped fl s.rttinfo.rtt_rto

  -- How a call with `left` packets left ends after k more of them: with an answer to its packet; without one
  -- when none was left; or it waits, and has sent one for each alarm.
  unfoldable pub Ended : List Event → ℕ → ℕ → ℕ → Call fl → Type 0
  Ended es seq left k (answered n s) = Delivers seq n es × Good s
  Ended es seq left k (gave_up s) = (k ≡ left) × (k < alarms es) × (s.rttinit ≡ false)
  Ended es seq left k (waits s) = k ≡ alarms es

  -- These packets, with the numbers and timeouts of k packets from the timeout `rto` on.
  pub record Sends (before after : List Packet) (seq k : ℕ) (rto : F) : Type 0 where
    pub new : List Packet
    pub sent : after ≡ before ++ new
    pub numbers : map (λ p. p.seq) new ≡ replicate k seq
    pub waiting : map (λ p. p.timeout) new ≡ timeouts k rto

  pub nothing_more : (before : List Packet) (seq : ℕ) (rto : F) → Sends before before seq 0 rto
  unfolding timeouts
  nothing_more before seq rto = record {
    new = [];
    sent = sym (append-nil before);
    numbers = refl;
    waiting = refl;
  }

  pub one_more :
      (now : Time) (s : Sender fl) (after : List Packet) (k : ℕ)
      → Sends
          (send_again fl now s).packets
          after
          s.seq
          k
          (to_float (mul s.rttinfo.rtt_rto (of_ms 2000)))
      → Sends s.packets after s.seq (suc k) s.rttinfo.rtt_rto
  unfolding send_again timeouts rtt_start
  one_more now s after k v = record {
    new = _ ∷ v.new;
    sent = v.sent ∙ append_assoc s.packets _ v.new;
    numbers = ap (λ l. s.seq ∷ l) v.numbers;
    waiting = ap (λ l. to_int (add s.rttinfo.rtt_rto (of_ms 500)) ∷ l) v.waiting;
  }
