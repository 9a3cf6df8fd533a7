-- ===== src/Multiplex/Plain.antt =====
-- 多路IO转接服务器/select/select.c: the loop over `select` without a table of the clients. Each round looks
-- at every descriptor above the listening one.
pub mod Serve
mod Tests
use network.Prelude.{
  ℕ, zero, suc, ◌+◌, ◌-◌, Bool, true, false, ◌&&◌, Option, none, some, List, [], ◌∷◌, ◌++◌, map,
}
use network.Prelude.Maps.{update}
use network.Prelude.Tests.{ltb, leb, ◌==◌, if◌then◌else◌}
use network.Posix.{Answer, got, failed, Io, wrote, toupper}
use network.Outcome.{Outcome, ok, exited, undefined, ◌>>=◌}

pub record Server : Type 0 where
  pub maxfd : ℕ
  pub allset : ℕ → Bool
  pub opened : ℕ → Bool
  pub trace : List Io

-- What `select`, `accept` and each descriptor's `read` answer in one round; `ready` tells which
-- descriptors of the set `select` leaves in it, and the number is their count.
pub record Turn : Type 0 where
  pub selected : Option (ℕ × (ℕ → Bool))
  pub accepted : Option ℕ
  pub reads : ℕ → Answer

pub start : ℕ → (ℕ → Bool) → Server
start listenfd opened = record {
  maxfd = listenfd;
  allset = λ f. f == listenfd;
  opened = opened;
  trace = [];
}

-- `rset` behind `select(maxfd+1,&rset,NULL,NULL,NULL)`.
abbrev pub left_in : (ℕ → Bool) → Server → ℕ → Bool
left_in ready s f = ready f && s.allset f && leb f s.maxfd

-- `accept`, whose result is not looked at, and `FD_SET`: -1 and what does not fit are undefined.
pub accept_client : Option ℕ → Server → Outcome Server
accept_client none s = undefined
accept_client (some connfd) s =
    if ltb connfd 1024
    then ok (record s {
      maxfd = if ltb s.maxfd connfd then connfd else s.maxfd;
      allset = update s.allset connfd true;
      opened = update s.opened connfd true;
    })
    else undefined

-- What follows the `read` of the descriptor `i`.
pub answer : ℕ → Answer → Server → Server
answer i (failed e) s = s
answer i (got []) s = record s {
  allset = update s.allset i false;
  opened = update s.opened i false;
}
answer i (got (b ∷ bs)) s = record s { trace = s.trace ++ (wrote i (map toupper (b ∷ bs)) ∷ []) }

-- The body of the loop over the descriptors.
pub serve_fd : Turn → (ℕ → Bool) → ℕ → Server → Server
serve_fd t set i s = if set i then answer i (t.reads i) s else s

-- `for(i=listenfd+1;i<=maxfd;i++)` from `i` on, n rounds.
pub serve_fds : Turn → (ℕ → Bool) → ℕ → ℕ → Server → Server
serve_fds t set zero i s = s
serve_fds t set (suc n) i s = serve_fds t set n (i + 1) (serve_fd t set i s)

-- What follows `select` in a round, with the count `nready`.
pub after_select : ℕ → Turn → (ℕ → Bool) → ℕ → Server → Outcome Server
after_select listenfd t set nready s =
    let serve = λ (x : Server). serve_fds t set (x.maxfd - listenfd) (listenfd + 1) x in
    let connected =
      accept_client t.accepted s >>= λ s'. (if nready == 1 then ok s' else ok (serve s')) in
    if set listenfd then connected else ok (serve s)

-- One round of `while(1)`.
pub round : ℕ → Turn → Server → Outcome Server
round listenfd t s = elim t.selected [
  | none ↦ exited
  | some (n, ready) ↦ after_select listenfd t (left_in ready s) n s
]
