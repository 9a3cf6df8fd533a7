-- ===== src/Multiplex/Epoll.antt =====
-- 多路IO转接服务器/epoll/epoll.c: the loop over `epoll_wait`, level-triggered, with a descriptor in each
-- entry of the set.
pub mod Leak
pub mod Batch
mod Tests
use network.Prelude.{ℕ, Bool, true, false, Option, none, some, List, [], ◌∷◌, ◌++◌, map}
use network.Prelude.Maps.{update}
use network.Prelude.Tests.{◌==◌, if◌then◌else◌}
use network.Posix.{Answer, got, failed, econnreset, Io, wrote, toupper}
use network.Outcome.{Outcome, ok, exited, ◌>>=◌}

-- Which descriptors are in the epoll set and which are open, and what was written.
pub record Server : Type 0 where
  pub watch : ℕ → Bool
  pub opened : ℕ → Bool
  pub trace : List Io

-- An entry that `epoll_wait` returned, with what `accept` or `read` then returns.
pub record Event : Type 0 where
  pub fd : ℕ
  pub accepted : Option ℕ
  pub answer : Answer

-- The state in front of `while(1)`.
pub start : ℕ → (ℕ → Bool) → Server
start lfd opened = record { watch = λ f. f == lfd; opened = opened; trace = [] }

-- The listening descriptor is ready.
pub accept_client : Option ℕ → Server → Outcome Server
accept_client none s = exited
accept_client (some cfd) s =
    ok (record s { watch = update s.watch cfd true; opened = update s.opened cfd true })

-- The descriptor `ccfd` of a client is ready.
pub serve_client : ℕ → Answer → Server → Outcome Server
serve_client ccfd (failed e) s =
    if e == econnreset then ok (record s { watch = update s.watch ccfd false }) else exited
serve_client ccfd (got []) s = ok (record s { watch = update s.watch ccfd false })
serve_client ccfd (got (b ∷ bs)) s =
    ok (record s { trace = s.trace ++ (wrote 1 (b ∷ bs) ∷ wrote ccfd (map toupper (b ∷ bs)) ∷ []) })

-- The body of the loop over the entries.
pub serve_event : ℕ → Event → Server → Outcome Server
serve_event lfd ev s =
    if ev.fd == lfd then accept_client ev.accepted s else serve_client ev.fd ev.answer s

-- The loop over the entries.
pub serve_events : ℕ → List Event → Server → Outcome Server
serve_events lfd [] s = ok s
serve_events lfd (ev ∷ evs) s = serve_event lfd ev s >>= λ s'. serve_events lfd evs s'

-- One round of `while(1)`, where `epoll_wait` fails or returns entries.
pub round : ℕ → Option (List Event) → Server → Outcome Server
round lfd none s = exited
round lfd (some evs) s = serve_events lfd evs s
