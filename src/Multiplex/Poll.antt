-- ===== src/Multiplex/Poll.antt =====
-- 多路IO转接服务器/poll/poll.c: the loop over `poll`. A client is a slot of the array `fds`; `maxfd` is the
-- largest index that was ever used.
pub mod Serve
mod Tests
pub mod Unset
pub mod Rounds
pub mod Joins
pub mod Invariant
use network.Prelude.{
  ℕ, zero, suc, ◌+◌, ◌-◌, Bool, true, false, Option, none, some, List, [], ◌∷◌, ◌++◌, map,
}
use network.Prelude.Int.{ℤ, pos, negsuc}
use network.Prelude.Tests.{ltb, leb, ◌==◌, if◌then◌else◌}
use network.Posix.{Answer, got, failed, econnreset, Io, wrote, toupper}
use network.Outcome.{Outcome, ok, exited, undefined, ◌>>=◌}
use network.Prelude.Maps.{update}

abbrev pub open_max : ℕ
open_max = 1024

-- `struct pollfd`: a negative `fd` is `none`; `revents` is `none` as long as it was never set, then
-- whether it holds POLLIN. (`events` is POLLIN in each slot that is used.)
pub record Slot : Type 0 where
  pub fd : Option ℕ
  pub revents : Option Bool

pub record Server : Type 0 where
  pub fds : ℕ → Slot
  pub maxfd : ℕ
  pub opened : ℕ → Bool
  pub trace : List Io

-- What the system answers in one round: `poll` fails (and sets nothing) or counts the ready slots and
-- marks those with POLLIN; `accept` fails or gives a descriptor; and each descriptor's `read`.
pub record Turn : Type 0 where
  pub polled : Option (ℕ × (ℕ → Bool))
  pub accepted : Option ℕ
  pub reads : ℕ → Answer

-- The state in front of `while(1)`.
pub start : ℕ → (ℕ → Bool) → Server
start lfd opened = record {
  fds = λ i. record { fd = if i == 0 then some lfd else none; revents = none };
  maxfd = 0;
  opened = opened;
  trace = [];
}

-- A slot behind `poll`: one with a negative descriptor is not ready.
pub mark : (ℕ → Bool) → ℕ → Slot → Slot
mark ready i sl = record sl { revents = elim sl.fd [ none ↦ some false | some f ↦ some (ready i) ] }

-- `nready=poll(fds,maxfd+1,-1)`.
pub poll : Turn → Server → ℤ × Server
poll t s = elim t.polled [
  | none ↦ (negsuc 0, s)
  | some (n, ready) ↦
      (pos n, record s { fds = λ i. if leb i s.maxfd then mark ready i (s.fds i) else s.fds i })
]

-- `for(i=1;i<OPEN_MAX;i++)` from `i` on, n rounds: the first slot without a descriptor.
pub free_slot : ℕ → (ℕ → Slot) → ℕ → Option ℕ
free_slot zero fds i = none
free_slot (suc n) fds i =
    let rest = free_slot n fds (i + 1) in elim (fds i).fd [ none ↦ some i | some f ↦ rest ]

-- The first `if` of the loop, up to `maxfd=i`.
pub accept_client : Turn → Server → Outcome Server
accept_client t s = elim t.accepted [
  | none ↦ exited
  | some cfd ↦ elim (free_slot (open_max - 1) s.fds 1) [
    | none ↦ exited
    | some i ↦ ok (record s {
      fds = update s.fds i (record (s.fds i) { fd = some cfd });
      maxfd = if ltb s.maxfd i then i else s.maxfd;
      opened = update s.opened cfd true;
    })
  ]
]

-- `close(ccfd); fds[i].fd=-1`.
pub drop_client : ℕ → ℕ → Server → Server
drop_client i ccfd s = record s {
  fds = update s.fds i (record (s.fds i) { fd = none });
  opened = update s.opened ccfd false;
}

-- What follows the `read` of a ready client.
pub answer : ℕ → ℕ → Answer → Server → Outcome Server
answer i ccfd (failed e) s = if e == econnreset then ok (drop_client i ccfd s) else exited
answer i ccfd (got []) s = ok (drop_client i ccfd s)
answer i ccfd (got (b ∷ bs)) s =
    ok (record s { trace = s.trace ++ (wrote 1 (b ∷ bs) ∷ wrote ccfd (map toupper (b ∷ bs)) ∷ []) })

-- The body of the loop over the clients.
pub serve_slot : Turn → ℕ → Server → Outcome Server
serve_slot t i s = elim (s.fds i).fd [
  | none ↦ ok s
  | some ccfd ↦ elim (s.fds i).revents [
    | none ↦ undefined
    | some false ↦ ok s
    | some true ↦ answer i ccfd (t.reads ccfd) s
  ]
]

-- `for(i=1;i<=maxfd;i++)` from `i` on, n rounds.
pub serve_slots : Turn → ℕ → ℕ → Server → Outcome Server
serve_slots t zero i s = ok s
serve_slots t (suc n) i s = serve_slot t i s >>= λ s'. serve_slots t n (i + 1) s'

-- `--nready<=0`.
pub spent : ℤ → Bool
spent (negsuc n) = true
spent (pos n) = leb n 1

-- What follows `poll` in a round.
pub after_poll : Turn → ℤ → Server → Outcome Server
after_poll t nready s = elim (s.fds 0).revents [
  | none ↦ undefined
  | some false ↦ serve_slots t s.maxfd 1 s
  | some true ↦
      accept_client t s >>= λ s'. if spent nready then ok s' else serve_slots t s'.maxfd 1 s'
]

-- One round of `while(1)`.
pub round : Turn → Server → Outcome Server
round t s = let (nready, s') = poll t s in after_poll t nready s'
