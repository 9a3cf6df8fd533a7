-- ===== src/Threads/Room.antt =====
-- One client and the room in `ttid`.
use network.Prelude.{ℕ, ◌+◌, ◌≤◌, ◌<◌, ◌≡◌, true, some}
use network.Prelude.Tests.{lt→ltb, ltb-false}
use network.Outcome.{ok, undefined}
use network.Prelude.Maps.{update}
use network.Threads.{created, Server, create, accept_client}

-- The state behind a client that was accepted.
abbrev pub joined : ℕ → Server → Server
joined cfd s = record s {
  ttid = update s.ttid s.i (some cfd);
  opened = update s.opened cfd true;
  threads = update s.threads s.i (created s.i);
  i = s.i + 1;
}

pub has_room :
    (cfd : ℕ) (s : Server) → s.i < 256 → accept_client (some cfd) true s ≡ ok (joined cfd s)
unfolding accept_client create
has_room cfd s h = rw (lt→ltb s.i 256 h)

pub no_room : (cfd : ℕ) (s : Server) → 256 ≤ s.i → accept_client (some cfd) true s ≡ undefined
unfolding accept_client
no_room cfd s h = rw (ltb-false s.i 256 h)
