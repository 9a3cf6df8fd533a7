-- ===== src/Edge/Tests.antt =====
-- Arrivals in edge-triggered mode, and the theorem at concrete ones.
use network.Prelude.{ℕ, ◌≡◌, refl, List, [], ◌∷◌, ◌++◌, arith}
use network.Posix.Pipe.{
  nonblocking, nonblocking_to_come, nonblocking-FailsEmpty, nonblocking-IsSource,
}
use network.Run.{done}
use network.Edge.{drain, rounds}
use network.Edge.Drain.{joined, edge_leaves_nothing}

abbrev more : List ℕ → List ℕ × List ℕ → List ℕ × List ℕ
more bs w = (w.0 ++ bs, w.1)

abbrev seven : List ℕ
seven = 1 ∷ 2 ∷ 3 ∷ 4 ∷ 5 ∷ 6 ∷ 7 ∷ []

-- Seven bytes arrive at once, and then two.
two_arrivals :
    rounds (nonblocking 9) more 9 (seven ∷ (8 ∷ 9 ∷ []) ∷ []) [] ([], [])
    ≡ done (1 ∷ 2 ∷ 3 ∷ 4 ∷ 5 ∷ 6 ∷ 7 ∷ 8 ∷ 9 ∷ [], ([], []))
unfolding rounds drain
two_arrivals = refl

edge_leaves_nothing_example :
    (w' : List ℕ × List ℕ) × (rounds (nonblocking 9) more 9 (seven ∷ (8 ∷ 9 ∷ []) ∷ []) [] ([], [])
      ≡ done ([] ++ joined (seven ∷ (8 ∷ 9 ∷ []) ∷ []), w'))
    × (w'.0 ≡ [])
edge_leaves_nothing_example =
    edge_leaves_nothing (nonblocking 9) (nonblocking_to_come 9) (nonblocking-IsSource 9)
      (nonblocking-FailsEmpty 9) more (λ bs w. refl) 9 (seven ∷ (8 ∷ 9 ∷ []) ∷ []) [] ([], [])
      (omega arith, (omega arith, tt)) refl
