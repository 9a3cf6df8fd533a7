-- ===== src/Level/Tests.antt =====
-- Rounds of the two processes, and the theorem at a state they reach.
use network.Prelude.{ℕ, ◌≡◌, ◌≢◌, refl, [], ◌∷◌}
use network.Level.{State, start, next_char, half, parent_round, child_round}
use network.Level.Lines.{writes, reads, Reach, here, next, Lined, lines_in_order}

-- "aaaa\n" is out, "bbbb\n" is in the pipe.
abbrev half_way : State
half_way = child_round (parent_round start)

half_way_out : half_way.out ≡ 97 ∷ 97 ∷ 97 ∷ 97 ∷ 10 ∷ []
unfolding child_round parent_round start half next_char
half_way_out = refl

not_empty : (parent_round start).pipe ≢ []
unfolding parent_round start half next_char
not_empty q = cc q

reached : Reach half_way
reached = next (next here writes) (reads not_empty)

lines_in_order_example : (a n : ℕ) × Lined half_way a n
lines_in_order_example = lines_in_order half_way reached
