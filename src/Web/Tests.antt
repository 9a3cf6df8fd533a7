-- ===== src/Web/Tests.antt =====
-- Two files over one connection at a time, and the theorem on that run.
use network.Prelude.{ℕ, ◌+◌, ◌≤◌, ◌≡◌, refl, ◌⊎◌, true, Option, none, some, [], ◌∷◌}
use network.Prelude.Int.{ℤ, pos}
use network.Prelude.Counts.{count}
use network.Prelude.Maps.{update}
use network.Posix.{got}
use network.Ending.{End, going, exits, nothing_found, unfinished}
use network.Web.{
  File, unused, in_progress, Turn, Web, write_get_cmd, start_connect, find_unused, start_one,
  start_some, handle, handle_all, after_start, round, rounds, start, is_unused,
}
use network.Web.Tally.{is_active, is_open}
use network.Web.Counts.{web_counts}

abbrev named : ℕ → File
named i = record { fd = 0; flags = unused }

-- Connects take a round, and every answer ends at once.
abbrev slow : Turn
slow = record {
  socket = λ i. some (i + 4);
  connect = λ i. in_progress;
  written = λ i. true;
  selected = some (λ f. true, λ f. true);
  reads = λ i. got [];
}

left_to_read : End Web → Option (ℤ × ℤ)
left_to_read (going s) = some (s.nlefttoread, s.nconn)
left_to_read exits = none
left_to_read nothing_found = none
left_to_read unfinished = none

-- The first file needs two rounds, and then the second has its turn.
one_by_one : left_to_read (rounds 2 1 (slow ∷ slow ∷ []) (start 2 1 named)) ≡ some (pos 1, pos 0)
unfolding left_to_read rounds round start start_some start_one find_unused start_connect
    write_get_cmd after_start handle_all handle update
one_by_one = refl

web_counts_example :
    (rounds 2 1 (slow ∷ slow ∷ []) (start 2 1 named) ≡ exits)
    ⊎ ((s : Web) × (rounds 2 1 (slow ∷ slow ∷ []) (start 2 1 named) ≡ going s)
        × (s.nlefttoconn ≡ pos (count is_unused 2 s.file))
        × (s.nlefttoread ≡ pos (count is_open 2 s.file))
        × (s.nconn ≡ pos (count is_active 2 s.file))
        × (count is_active 2 s.file ≤ 1))
web_counts_example = web_counts 2 1 named (slow ∷ slow ∷ [])
