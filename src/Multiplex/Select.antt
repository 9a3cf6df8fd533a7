-- ===== src/Multiplex/Select.antt =====
-- 多路IO转接服务器/select/select优化.c: the loop over `select`. The clients are in the array `client`, and
-- `nready` counts down the ready descriptors, so that a round ends with the last of them.
pub mod Serve
pub mod Rounds
mod Tests
pub mod Entered
pub mod Table
pub mod Joined
pub mod Full
pub mod Reach
use network.Prelude.{
  ℕ, zero, suc, ◌+◌, Bool, true, false, ◌&&◌, Option, none, some, List, [], ◌∷◌, ◌++◌, map,
}
use network.Prelude.Int.{ℤ, pos, negsuc}
use network.Prelude.Maps.{update}
use network.Prelude.Tests.{ltb, leb, ◌==◌, if◌then◌else◌}
use network.Posix.{Answer, got, failed, Io, wrote, toupper}
use network.Outcome.{Outcome, ok, exited, undefined, ◌>>=◌}

abbrev pub fd_setsize : ℕ
fd_setsize = 1024

-- `none` in `client` is -1; `slots` is `maxi+1`.
pub record Server : Type 0 where
  pub client : ℕ → Option ℕ
  pub slots : ℕ
  pub maxfd : ℕ
  pub allset : ℕ → Bool
  pub opened : ℕ → Bool
  pub trace : List Io

-- What the system answers in one round: `select` fails or counts the descriptors that it leaves in
-- the set, of which `ready` tells; `accept` fails or gives a descriptor; and each descriptor's `read`.
pub record Turn : Type 0 where
  pub selected : Option (ℕ × (ℕ → Bool))
  pub accepted : Option ℕ
  pub reads : ℕ → Answer

-- The state in front of `while(1)`.
pub start : ℕ → (ℕ → Bool) → Server
start listenfd opened = record {
  client = λ i. none;
  slots = 0;
  maxfd = listenfd;
  allset = λ f. f == listenfd;
  opened = opened;
  trace = [];
}

-- `rset` behind `select(maxfd+1,&rset,NULL,NULL,NULL)`.
abbrev pub rset : (ℕ → Bool) → Server → ℕ → Bool
rset ready s f = ready f && s.allset f && leb f s.maxfd

-- `--nready`.
abbrev pub decrement : ℤ → ℤ
decrement (pos zero) = negsuc 0
decrement (pos (suc n)) = pos n
decrement (negsuc n) = negsuc (suc n)

abbrev pub is_zero : ℤ → Bool
is_zero (pos zero) = true
is_zero (pos (suc n)) = false
is_zero (negsuc n) = false

-- `for(i=0;i<FD_SETSIZE;i++)` from `i` on, n rounds: the first entry that is negative.
pub free_entry : ℕ → (ℕ → Option ℕ) → ℕ → Option ℕ
free_entry zero client i = none
free_entry (suc n) client i =
    let rest = free_entry n client (i + 1) in elim (client i) [ none ↦ some i | some f ↦ rest ]

-- The first `if` of the loop, up to `maxi=i`: `FD_SET` of a descriptor that does not fit into the set
-- is undefined.
pub accept_client : Turn → Server → Outcome Server
accept_client t s = elim t.accepted [
  | none ↦ exited
  | some connfd ↦
      if ltb connfd fd_setsize
      then elim (free_entry fd_setsize s.client 0) [
        | none ↦ exited
        | some i ↦ ok (record s {
          client = update s.client i (some connfd);
          slots = if ltb s.slots (i + 1) then i + 1 else s.slots;
          maxfd = if ltb s.maxfd connfd then connfd else s.maxfd;
          allset = update s.allset connfd true;
          opened = update s.opened connfd true;
        })
      ]
      else undefined
]

-- What follows the `read` of the ready client in entry `i`, on descriptor `f`. After a failed `read`
-- nothing is done.
pub answer : ℕ → ℕ → Answer → Server → Server
answer i f (failed e) s = s
answer i f (got []) s = record s {
  client = update s.client i none;
  allset = update s.allset f false;
  opened = update s.opened f false;
}
answer i f (got (b ∷ bs)) s =
    let upper = map toupper (b ∷ bs) in
    record s { trace = s.trace ++ (wrote f upper ∷ wrote 1 upper ∷ []) }

-- `for(i=0;i<=maxi;i++)` from `i` on, n rounds, with `nready` to go.
pub serve_clients : Turn → (ℕ → Bool) → ℕ → ℕ → ℤ → Server → Server
serve_clients t set zero i nready s = s
serve_clients t set (suc n) i nready s =
    let next = serve_clients t set n (i + 1) nready s in
    elim (s.client i) [
      | none ↦ next
      | some f ↦
          let s' = answer i f (t.reads f) s in
          let rest = serve_clients t set n (i + 1) (decrement nready) s' in
          if set f then (if is_zero (decrement nready) then s' else rest) else next
    ]

-- What follows `select` in a round.
pub after_select : ℕ → Turn → (ℕ → Bool) → ℤ → Server → Outcome Server
after_select listenfd t set nready s =
    let connected = accept_client t s >>= λ s'.
    (if is_zero (decrement nready)
      then ok s'
      else ok (serve_clients t set s'.slots 0 (decrement nready) s')) in
    if set listenfd then connected else ok (serve_clients t set s.slots 0 nready s)

-- One round of `while(1)`.
pub round : ℕ → Turn → Server → Outcome Server
round listenfd t s = elim t.selected [
  | none ↦ exited
  | some (n, ready) ↦ after_select listenfd t (rset ready s) (pos n) s
]
