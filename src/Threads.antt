-- ===== src/Threads.antt =====
-- scoket编程/server3.c: a thread for each client. The thread gets the address of an entry of `ttid` and
-- reads its descriptor there when it comes to run. Its loop is `Single.work_loop`.
pub mod Owners
pub mod Room
pub mod Crowd
mod Tests
use network.Prelude.{ℕ, ◌+◌, Bool, true, false, Option, none, some, List, [], ◌∷◌}
use network.Prelude.Maps.{update}
use network.Prelude.Tests.{ltb, if◌then◌else◌}
use network.Outcome.{Outcome, ok, exited, undefined, ◌>>=◌}

-- A thread that was created with an entry as its argument, one that serves a descriptor, and one that
-- has closed it.
pub data Thread : Type 0 where
  absent : Thread
  created : ℕ → Thread
  serving : ℕ → Thread
  finished : ℕ → Thread

-- `ttid` (`none` is an entry without a value), `i`, the threads, and the open descriptors.
pub record Server : Type 0 where
  pub ttid : ℕ → Option ℕ
  pub i : ℕ
  pub threads : ℕ → Thread
  pub opened : ℕ → Bool

pub start : (ℕ → Bool) → Server
start opened = record { ttid = λ j. none; i = 0; threads = λ j. absent; opened = opened }

-- `pthread_create(&tid,NULL,do_work,&ttid[i]); pthread_detach(tid);`: if no thread is created, `tid` holds
-- no thread to detach.
pub create : Bool → Server → Outcome Server
create made s =
    if made
    then ok (record s { threads = update s.threads s.i (created s.i); i = s.i + 1 })
    else undefined

-- A round of `main`: `ttid` has 256 entries.
pub accept_client : Option ℕ → Bool → Server → Outcome Server
accept_client none made s = exited
accept_client (some cfd) made s =
    if ltb s.i 256
    then create made
        (record s { ttid = update s.ttid s.i (some cfd); opened = update s.opened cfd true })
    else undefined

-- `int cfd=*((int*)arg);` of the thread `j`.
pub begin : ℕ → Server → Outcome Server
begin j s = elim (s.threads j) [
  | absent ↦ ok s
  | created k ↦ elim (s.ttid k) [
    | none ↦ undefined
    | some cfd ↦ ok (record s { threads = update s.threads j (serving cfd) })
  ]
  | serving cfd ↦ ok s
  | finished cfd ↦ ok s
]

-- `close(cfd); return NULL;` of the thread `j`.
pub finish : ℕ → Server → Server
finish j s = elim (s.threads j) [
  | absent ↦ s
  | created k ↦ s
  | serving cfd ↦ record s {
    threads = update s.threads j (finished cfd);
    opened = update s.opened cfd false;
  }
  | finished cfd ↦ s
]

-- What happens next: a client connects and a thread is created for it, the thread `j` begins, or it comes
-- to its end.
pub data Act : Type 0 where
  connects begins finishes : ℕ → Act

pub act : Act → Server → Outcome Server
act (connects cfd) s = accept_client (some cfd) true s
act (begins j) s = begin j s
act (finishes j) s = ok (finish j s)

-- `main` and the threads in this order.
pub acts : List Act → Server → Outcome Server
acts [] s = ok s
acts (a ∷ rest) s = act a s >>= λ s'. acts rest s'
