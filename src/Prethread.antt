-- ===== src/Prethread.antt =====
-- unpv13e/server/serv08.c with pthread08.c: the main thread accepts clients and puts them into a circular
-- buffer, from which the other threads take them. The mutex makes each visit of the buffer one step.
pub mod Order
mod Tests
use network.Prelude.{ℕ, ◌+◌, Option, none, some, List, [], ◌∷◌, ◌++◌}
use network.Prelude.Maps.{update}
use network.Prelude.Tests.{◌==◌, if◌then◌else◌}
use network.Ending.{End, going, exits}
use network.Ring.{after}

abbrev pub maxncli : ℕ
maxncli = 32

-- `Thread`, with the client that the thread serves.
pub record Thread : Type 0 where
  pub thread_count : ℕ
  pub client : Option ℕ

-- The globals, with the clients that were accepted and those that were taken, with the thread.
pub record Server : Type 0 where
  pub clifd : ℕ → ℕ
  pub iget : ℕ
  pub iput : ℕ
  pub tptr : ℕ → Thread
  pub accepted : List ℕ
  pub taken : List (ℕ × ℕ)

pub start : (ℕ → ℕ) → Server
start clifd = record {
  clifd = clifd;
  iget = 0;
  iput = 0;
  tptr = λ i. record { thread_count = 0; client = none };
  accepted = [];
  taken = [];
}

-- The round of `main` for the answer of `Accept`.
pub main_round : Option ℕ → Server → End Server
main_round none s = exits
main_round (some connfd) s =
    let iput = after maxncli s.iput in
    let s' = record s {
      clifd = update s.clifd s.iput connfd;
      iput = iput;
      accepted = s.accepted ++ (connfd ∷ []);
    } in
    if iput == s.iget then exits else going s'

-- `thread_main` of the thread i, up to `web_child`; it waits while the buffer is empty.
pub take_client : ℕ → Server → Server
take_client i s =
    let connfd = s.clifd s.iget in
    let s' = record s {
      iget = after maxncli s.iget;
      tptr =
          update s.tptr i
            (record { thread_count = (s.tptr i).thread_count + 1; client = some connfd });
      taken = s.taken ++ ((i, connfd) ∷ []);
    } in
    if s.iget == s.iput then s else s'

-- `web_child` and `Close`.
pub finish_client : ℕ → Server → Server
finish_client i s = record s { tptr = update s.tptr i (record (s.tptr i) { client = none }) }
