-- ===== src/Forking/Tests.antt =====
-- Runs of the processes of client.c.
use network.Prelude.{◌≡◌, refl, true, false, some, [], ◌∷◌, ◌++◌, ◌^◌}
use mathlib.Core.List.{Perm}
use network.Prelude.Lists.{length}
use network.Posix.{got}
use network.Outcome.{ok}
use network.Forking.{
  at_stdin, at_socket, to_socket, Client, Turn, quiet, connect_loop, start, fork, turn, turn_at,
  joined, step,
}
use network.Forking.Reach.{begins, goes}
use network.Forking.Pieces.{all}
use network.Forking.Kept.{for_socket, for_stdout, pieces_kept}
use network.Forking.Doubles.{Each, forks_double}

abbrev hi : Turn
hi = record { forked = true; answer = got (104 ∷ 105 ∷ []); wrote = true }

-- Behind the first `fork`.
abbrev two : Client
two = record {
  traffic = quiet;
  processes = record { place = at_socket; forks = 1 } ∷ record { place = at_stdin; forks = 1 } ∷ [];
}

-- The child has read two bytes.
abbrev typed : Client
typed = record {
  traffic = record quiet { typed = (104 ∷ 105 ∷ []) ∷ [] };
  processes =
      record { place = at_socket; forks = 1 }
      ∷ record { place = to_socket (104 ∷ 105 ∷ []); forks = 1 }
      ∷ [];
}

first_fork : step 0 hi start ≡ ok two
unfolding step turn_at turn fork start joined
first_fork = refl

child_reads : step 1 hi two ≡ ok typed
unfolding step turn_at turn joined
child_reads = refl

third_try : connect_loop (false ∷ false ∷ true ∷ []) ≡ some []
unfolding connect_loop
third_try = refl

pieces_kept_example :
    Perm typed.traffic.typed (typed.traffic.sent ++ all for_socket typed.processes)
    × Perm typed.traffic.received (typed.traffic.printed ++ all for_stdout typed.processes)
pieces_kept_example =
    pieces_kept typed (goes 1 hi refl (goes 0 hi refl begins first_fork) child_reads)

forks_double_example : length two.processes ≡ 2 ^ 1
unfolding Each
forks_double_example = forks_double 1 two (goes 0 hi refl begins first_fork) (refl, (refl, tt))
