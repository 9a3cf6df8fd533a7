-- ===== src/Edge/Drain.antt =====
-- What is left unread in edge-triggered mode.
use network.Prelude.{
  ℕ, zero, suc, ◌<◌, ◌≡◌, refl, sym, ap, ◌∙◌, inl, inr, List, [], ◌∷◌, ◌++◌, append-nil,
  append_assoc, arith,
}
use network.Prelude.Lists.{length, length-append, All}
use network.Posix.{Answer-cases, Socket, IsSource, FailsEmpty}
use network.Run.{done}
use network.Edge.{drain, rounds}

-- The arrivals, one behind the other.
pub joined : List (List ℕ) → List ℕ
joined [] = []
joined (bs ∷ arrivals) = bs ++ joined arrivals

module _ (k : Socket) (pending : Socket.World k → List ℕ) where
  drain_lem :
      IsSource k pending
      → FailsEmpty k pending
      → (fuel : ℕ) (out : List ℕ) (w : Socket.World k) → length (pending w) < fuel
      → (w' : Socket.World k) × (drain k fuel out w ≡ done (out ++ pending w, w'))
        × (pending w' ≡ [])
  unfolding drain
  drain_lem src fe zero out w h = absurd (omega arith)
  drain_lem src fe (suc fuel) out w h = elim (Answer-cases (Socket.recv k 5 w).0) [
    | inl e ↦
        let w1 = (Socket.recv k 5 w).1 in
        let law = src.delivers 5 w [] (omega arith) e in
        let empty = law.2 refl in (w1, rw (e, drain, empty, append-nil out), sym law.1 ∙ empty)
    | inr (inl (b, bs, e)) ↦
        let w1 = (Socket.recv k 5 w).1 in
        let front = (src.delivers 5 w (b ∷ bs) (omega arith) e).1 in
        let (w', run, none_left) =
          drain_lem src fe fuel (out ++ (b ∷ bs)) w1
            (omega (arith, h, ap (λ l. length l) front, length-append (b ∷ bs) (pending w1))) in
        (
          w',
          rw (e, drain)
              (run
                ∙ ap (λ l. done (l, w'))
                    (append_assoc out (b ∷ bs) (pending w1) ∙ ap (λ l. out ++ l) (sym front))),
          none_left,
        )
    | inr (inr (er, e)) ↦
        let w1 = (Socket.recv k 5 w).1 in
        let empty = fe.empty 5 w er e in
        (w1, rw (e, drain, empty, append-nil out), src.keeps 5 w er e ∙ empty)
  ]

  -- Over a non-blocking connection whose read fails only where nothing is to come, with one event
  -- for each arrival, ET非阻塞模式.c has after any arrivals written all their bytes to standard output,
  -- in order, and leaves nothing unread: no byte waits for an event that does not come. Each loop
  -- over read ends within one round for each byte of the arrival and one more.
  pub edge_leaves_nothing :
      IsSource k pending
      → FailsEmpty k pending
      → (arrive : List ℕ → Socket.World k → Socket.World k)
      → ((bs : List ℕ) (w : Socket.World k) → pending (arrive bs w) ≡ pending w ++ bs)
      → (fuel : ℕ) (arrivals : List (List ℕ)) (out : List ℕ) (w : Socket.World k)
      → All (λ bs. length bs < fuel) arrivals
      → pending w ≡ []
      → (w' : Socket.World k) × (rounds k arrive fuel arrivals out w
          ≡ done (out ++ joined arrivals, w'))
        × (pending w' ≡ [])
  unfolding rounds joined
  edge_leaves_nothing src fe arrive law fuel [] out w small empty = (w, rw (append-nil out), empty)
  edge_leaves_nothing src fe arrive law fuel (bs ∷ arrivals) out w small empty =
      let came : pending (arrive bs w) ≡ bs = law bs w ∙ ap (λ l. l ++ bs) empty in
      let (w1, run, none_left) =
        drain_lem src fe fuel out (arrive bs w) (omega (arith, small.0, ap (λ l. length l) came)) in
      let (w', rest, none_left') =
        edge_leaves_nothing src fe arrive law fuel arrivals (out ++ pending (arrive bs w)) w1
          small.1 none_left in
      (
        w',
        rw run (
            rest
            ∙ ap (λ l. done (l, w'))
                (append_assoc out (pending (arrive bs w)) (joined arrivals)
                  ∙ ap (λ l. out ++ (l ++ joined arrivals)) came)),
        none_left',
      )
