-- ===== src/Sigio.antt =====
-- unpv13e/sigio/dgecho01.c: a server that reads its datagrams in the handler of SIGIO and echoes them in its
-- main loop, with a circular queue of eight between the two.
pub mod Queue
pub mod Spec
pub mod Main
pub mod Overflow
pub mod Refines
mod Tests
use network.Prelude.{ℕ, zero, suc, ◌+◌, ◌-◌, Bool, true, false, List, [], ◌∷◌, ◌++◌}
use network.Prelude.Lists.{length, take, drop}
use network.Prelude.Maps.{update}
use network.Prelude.Tests.{leb, ◌==◌, if◌then◌else◌}
use network.Posix.{eagain}
use network.Ending.{End, going, exits}

abbrev pub qsize : ℕ
qsize = 8

abbrev pub maxdg : ℕ
maxdg = 4096

-- A datagram with the address that it comes from or goes to, and the length of that.
pub record Datagram : Type 0 where
  pub text : List ℕ
  pub peer : ℕ
  pub peerlen : ℕ

-- `DG`: `dg_data` is the block that it points to.
pub record Slot : Type 0 where
  pub dg_data : List ℕ
  pub dg_len : ℕ
  pub dg_sa : ℕ
  pub dg_salen : ℕ

-- Where the main loop stands: in front of `while (nqueue == 0)`, with SIGIO blocked; behind the
-- `Sigprocmask` that unblocks it; behind `Sendto`; and behind `++iget`.
pub data Place : Type 0 where
  at_top unblocked behind_send behind_get : Place

-- The globals, and what has come and gone.
pub record Server : Type 0 where
  pub dg : ℕ → Slot
  pub iget : ℕ
  pub iput : ℕ
  pub nqueue : ℕ
  pub cntread : ℕ → ℕ
  pub place : Place
  pub arrived : List Datagram
  pub echoed : List Datagram

-- In front of the loop; the blocks hold what `Malloc` left in them.
pub start : (ℕ → Slot) → Server
start dg = record {
  dg = dg;
  iget = 0;
  iput = 0;
  nqueue = 0;
  cntread = λ i. 0;
  place = at_top;
  arrived = [];
  echoed = [];
}

-- `if (++i >= QSIZE) i = 0;`
unfoldable pub following : ℕ → ℕ
following i = if leb qsize (i + 1) then 0 else i + 1

-- What `recvfrom` hands over: no more than MAXDG bytes.
pub cut : Datagram → Datagram
cut d = record d { text = take maxdg d.text }

-- What `Sendto` sends from a slot.
pub outgoing : Slot → Datagram
outgoing p = record { text = take p.dg_len p.dg_data; peer = p.dg_sa; peerlen = p.dg_salen }

-- The slot behind `recvfrom`.
pub receive : Datagram → Slot → Slot
receive d p =
    let got = (cut d).text in
    record {
      dg_data = got ++ drop (length got) p.dg_data;
      dg_len = length got;
      dg_sa = d.peer;
      dg_salen = d.peerlen;
    }

-- One turn of the handler's loop, for a datagram that is there.
pub store : Datagram → Server → Server
store d s = record s {
  dg = update s.dg s.iput (receive d (s.dg s.iput));
  nqueue = s.nqueue + 1;
  iput = following s.iput;
  arrived = s.arrived ++ (cut d ∷ []);
}

-- `sig_io`, where these datagrams are there and `recvfrom` fails with `errno` behind them.
pub sig_io : ℕ → ℕ → List Datagram → Server → End Server
sig_io errno nread [] s =
    let counted = record s { cntread = update s.cntread nread (s.cntread nread + 1) } in
    if leb qsize s.nqueue then exits else (if errno == eagain then going counted else exits)
sig_io errno nread (d ∷ ds) s =
    let rest = sig_io errno (nread + 1) ds (store d s) in if leb qsize s.nqueue then exits else rest

-- Whether the handler can run: in `sigsuspend`, or while SIGIO is not blocked.
pub is_interruptible : Server → Bool
is_interruptible s = elim s.place [
  | at_top ↦ s.nqueue == 0
  | unblocked ↦ true
  | behind_send ↦ true
  | behind_get ↦ true
]

-- The next statement of the main loop.
pub advance : Server → Server
advance s = elim s.place [
  | at_top ↦ if s.nqueue == 0 then s else record s { place = unblocked }
  | unblocked ↦ record s { place = behind_send; echoed = s.echoed ++ (outgoing (s.dg s.iget) ∷ []) }
  | behind_send ↦ record s { place = behind_get; iget = following s.iget }
  | behind_get ↦ record s { place = at_top; nqueue = s.nqueue - 1 }
]
