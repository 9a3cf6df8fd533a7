-- ===== src/Threads/Tests.antt =====
-- Clients of server3.c, and its theorems at concrete runs.
use network.Prelude.{ℕ, ◌≡◌, ◌⊎◌, ◌≤◌, ◌<◌, refl, Bool, some, List, [], ◌∷◌}
use network.Prelude.Maps.{update}
use network.Prelude.Tests.{ltb}
use network.Outcome.{ok, undefined}
use network.Threads.{
  Server, start, create, accept_client, begin, serving, Act, connects, begins, finishes, acts,
}
use network.Threads.Room.{joined}
use network.Threads.Crowd.{connections, acts-room}
use network.Threads.Owners.{Reach, here, next, accepts, begins, client_at, threads_serve_own}

abbrev at_start : ℕ → Bool
at_start f = ltb f 4

-- Two clients connect before the first thread runs.
abbrev two : Server
two = joined 5 (joined 4 (start at_start))

abbrev first_runs : Server
first_runs = record two { threads = update two.threads 0 (serving 4) }

first_runs_run : begin 0 two ≡ ok first_runs
unfolding begin update start
first_runs_run = refl

two_clients : Reach at_start first_runs (4 ∷ 5 ∷ [])
unfolding accept_client create start
two_clients =
    next
      (next (next here (accepts 4 {s' = joined 4 (start at_start)} refl))
        (accepts 5 {s' = two} refl))
      (begins 0 first_runs_run)

threads_serve_own_example :
    ((c : ℕ) → first_runs.threads 1 ≡ serving c → client_at (4 ∷ 5 ∷ []) 1 ≡ some c)
    × ((s' : Server) × (begin 1 first_runs ≡ ok s'))
threads_serve_own_example = threads_serve_own at_start first_runs (4 ∷ 5 ∷ []) 1 two_clients

-- The first client has gone before the second one comes.
abbrev visits : List Act
visits = connects 4 ∷ begins 0 ∷ finishes 0 ∷ connects 5 ∷ begins 1 ∷ []

acts-room_example :
    ((connections visits ≤ 256)
      × (s : Server) × (acts visits (start at_start) ≡ ok s)
      × (s.i ≡ connections visits))
    ⊎ ((256 < connections visits) × (acts visits (start at_start) ≡ undefined))
acts-room_example = acts-room visits at_start
