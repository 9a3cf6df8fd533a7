-- ===== src/Rtt/Packet.antt =====
-- unpv13e/rtt/dg_send_recv.c: a datagram is sent again until its answer comes.
pub mod Sends
pub mod Protocol
mod Tests
use network.Prelude.{
  ℕ, zero, suc, ◌+◌, ◌-◌, ◌%◌, ◌^◌, Bool, true, false, not, ◌||◌, List, [], ◌∷◌, ◌++◌,
}
use network.Prelude.Tests.{ltb, ◌==◌, if◌then◌else◌}
use network.Prelude.Int.{ℤ}
use network.Rtt.{
  Floats, Time, RttInfo, rtt_init, rtt_ts, rtt_newpack, rtt_start, rtt_stop, rtt_timeout,
}

-- `sizeof(struct hdr)`.
abbrev pub hdr_size : ℕ
hdr_size = 8

-- A datagram that was received: the result of `Recvmsg`, and `recvhdr` behind it.
pub record Arrival : Type 0 where
  pub n : ℕ
  pub seq : ℕ
  pub ts : ℕ

-- What comes while `Recvmsg` waits: a datagram, or the alarm. (An alarm that comes between an answer and `alarm(0)`
-- is one that comes in front of the answer.)
pub data Event : Type 0 where
  arrives : Time → Arrival → Event
  sig_alrm : Time → Event

-- What was sent, with the seconds to the alarm.
pub record Packet : Type 0 where
  pub seq : ℕ
  pub ts : ℕ
  pub timeout : ℤ

module _ (fl : Floats) where
  -- The globals, and what was sent.
  pub record Sender : Type 0 where
    pub rttinfo : RttInfo fl
    pub rttinit : Bool
    pub seq : ℕ
    pub packets : List Packet

  -- How a call stands: it returned the length of an answer, or -1, or it waits.
  pub data Call : Type 0 where
    answered : ℕ → Sender → Call
    gave_up : Sender → Call
    waits : Sender → Call

  -- From `sendagain` to `alarm`.
  pub send_again : Time → Sender → Sender
  send_again now s =
      let p : Packet = record {
        seq = s.seq;
        ts = rtt_ts fl now s.rttinfo;
        timeout = rtt_start fl s.rttinfo;
      } in
      record s { packets = s.packets ++ (p ∷ []) }

  -- In front of `sendagain`.
  pub prepare : Time → Sender → Sender
  prepare now s =
      let s' =
        if s.rttinit then s else record s { rttinfo = rtt_init fl now s.rttinfo; rttinit = true } in
      record s' { seq = (s.seq + 1) % 2 ^ 32; rttinfo = rtt_newpack fl s'.rttinfo }

  -- The condition of `do ... while`.
  pub is_other : Sender → Arrival → Bool
  is_other s d = ltb d.n hdr_size || not (d.seq == s.seq)

  -- `alarm(0)` and `rtt_stop`.
  pub finish : Time → Arrival → Sender → Sender
  finish now d s =
      let ms = (rtt_ts fl now s.rttinfo + (2 ^ 32 - d.ts)) % 2 ^ 32 in
      record s { rttinfo = rtt_stop fl ms s.rttinfo }

  -- Behind `sigsetjmp`, with the events to come.
  pub receive : List Event → Sender → Call
  receive [] s = waits s
  receive (arrives now d ∷ es) s =
      let rest = receive es s in
      if is_other s d then rest else answered (d.n - hdr_size) (finish now d s)
  receive (sig_alrm now ∷ es) s =
      let (info, over) = rtt_timeout fl s.rttinfo in
      let s' = record s { rttinfo = info } in
      let rest = receive es (send_again now s') in
      if over then gave_up (record s' { rttinit = false }) else rest

  pub dg_send_recv : Time → List Event → Sender → Call
  dg_send_recv now es s = receive es (send_again now (prepare now s))
