-- ===== src/Single/Serves.antt =====
-- What a client of these servers gets back, over a connection that takes every `send` whole.
use network.Prelude.{
  ℕ, zero, suc, ◌≤◌, ◌<◌, ◌≡◌, refl, sym, ap, ◌∙◌, List, [], ◌∷◌, ◌++◌, map, append-nil,
  append_assoc, arith, inl, inr,
}
use mathlib.Core.List.{map-append}
use network.Prelude.Lists.{length, length-append, nil_of_length}
use network.Posix.{Answer-cases, got, Socket, IsSource, NoFailure, TakesAll, IsDuplex, toupper}
use network.Run.{done}
use network.Single.{bufsiz, single_round, single_rounds, child_loop, work_loop}

-- The loop of a child of server2.c and the thread function of server3.c do the same for a client:
-- on every connection and with every fuel, they end in the same way, with the same bytes on
-- standard output and the same state of the connection.
child_work :
    (k : Socket) (fuel : ℕ) (out : List ℕ) (w : Socket.World k)
    → child_loop k fuel out w ≡ work_loop k fuel out w
unfolding child_loop work_loop
child_work k zero out w = refl
child_work k (suc fuel) out w = elim (Answer-cases (Socket.recv k bufsiz w).0) [
  | inl e ↦ rw (e, child_loop, work_loop)
  | inr (inl (b, bs, e)) ↦
      let upper = map toupper (b ∷ bs) in
      rw (e, child_loop, work_loop)
        (child_work k fuel (out ++ upper) (Socket.send k upper (Socket.recv k bufsiz w).1).1)
  | inr (inr (er, e)) ↦
      rw (e, child_loop, work_loop) (child_work k fuel out (Socket.recv k bufsiz w).1)
]

shorter :
    (bs p p' : List ℕ) (n : ℕ)
    → p ≡ bs ++ p'
    → (bs ≡ [] → p ≡ [])
    → length p ≤ suc n
    → length p' ≤ n
shorter [] p p' n e empty h = omega (arith, ap (λ l. length l) (sym e ∙ empty refl))
shorter (b ∷ bs) p p' n e empty h = omega (arith, ap (λ l. length l) e, length-append (b ∷ bs) p')

module _ (k : Socket) (wire pending : Socket.World k → List ℕ) where
  -- One answered read: what came, and what went back.
  moved :
      IsSource k pending
      → TakesAll k wire
      → IsDuplex k wire pending
      → (n : ℕ) (bs : List ℕ) (w : Socket.World k) → 0 < n
      → (Socket.recv k n w).0 ≡ got bs
      → let w' = (Socket.send k (map toupper bs) (Socket.recv k n w).1).1 in
        (pending w ≡ bs ++ pending w') × (wire w' ≡ wire w ++ map toupper bs)
  moved src all dup n bs w low e =
      let w1 = (Socket.recv k n w).1 in
      (
        (src.delivers n w bs low e).1
            ∙ ap (λ l. bs ++ l) (sym (dup.send_keeps (map toupper bs) w1)),
        (all.whole (map toupper bs) w1).1 ∙ ap (λ l. l ++ map toupper bs) (dup.recv_keeps n w),
      )

  -- Over a connection whose reads do not fail and whose writes take everything, the child of
  -- server2.c ends within one round for each byte to come and one more; it has then written all
  -- that came, in upper case, to standard output and back to the client.
  pub child_serves :
      IsSource k pending
      → TakesAll k wire
      → IsDuplex k wire pending
      → NoFailure k
      → (fuel : ℕ) (out : List ℕ) (w : Socket.World k) → length (pending w) < fuel
      → (w' : Socket.World k) × (child_loop k fuel out w
          ≡ done (out ++ map toupper (pending w), w'))
        × (wire w' ≡ wire w ++ map toupper (pending w))
  unfolding child_loop
  child_serves src all dup nf zero out w h = absurd (omega arith)
  child_serves src all dup nf (suc fuel) out w h = elim (Answer-cases (Socket.recv k bufsiz w).0) [
    | inl e ↦
        let w1 = (Socket.recv k bufsiz w).1 in
        let empty = (src.delivers bufsiz w [] (omega arith) e).2 refl in
        (
          Socket.close k w1,
          rw (e, child_loop, empty, append-nil out),
          (dup.close_keeps w1).1 ∙ dup.recv_keeps bufsiz w ∙ rw (empty) (sym (append-nil (wire w))),
        )
    | inr (inl (b, bs, e)) ↦
        let upper = map toupper (b ∷ bs) in
        let w2 = (Socket.send k upper (Socket.recv k bufsiz w).1).1 in
        let (front, out_wire) = moved src all dup bufsiz (b ∷ bs) w (omega arith) e in
        let whole : map toupper (pending w) ≡ upper ++ map toupper (pending w2) =
          ap (λ l. map toupper l) front ∙ map-append toupper (b ∷ bs) (pending w2) in
        let (w', run, sent) =
          child_serves src all dup nf fuel (out ++ upper) w2
            (omega (arith, h, ap (λ l. length l) front, length-append (b ∷ bs) (pending w2))) in
        (
          w',
          rw (e, child_loop)
              (run
                ∙ ap (λ l. done (l, w'))
                    (append_assoc out upper (map toupper (pending w2))
                      ∙ ap (λ l. out ++ l) (sym whole))),
          sent
              ∙ ap (λ l. l ++ map toupper (pending w2)) out_wire
              ∙ append_assoc (wire w) upper (map toupper (pending w2))
              ∙ ap (λ l. wire w ++ l) (sym whole),
        )
    | inr (inr (er, e)) ↦ absurd (nf.receives bufsiz w er e)
  ]

  -- A round of server1.c: some of what is to come moves, and something does if there is anything.
  round_moves :
      IsSource k pending
      → TakesAll k wire
      → IsDuplex k wire pending
      → NoFailure k
      → (out : List ℕ) (w : Socket.World k)
      → let r = single_round k (out, w) in
        (bs : List ℕ) × (r.0 ≡ out ++ bs)
        × (pending w ≡ bs ++ pending r.1)
        × (wire r.1 ≡ wire w ++ map toupper bs)
        × (bs ≡ [] → pending w ≡ [])
  unfolding single_round
  round_moves src all dup nf out w = elim (Answer-cases (Socket.recv k bufsiz w).0) [
    | inl e ↦
        let (front, out_wire) = moved src all dup bufsiz [] w (omega arith) e in
        rw (e, single_round)
          ([], refl, front, out_wire, (src.delivers bufsiz w [] (omega arith) e).2)
    | inr (inl (b, bs, e)) ↦
        let (front, out_wire) = moved src all dup bufsiz (b ∷ bs) w (omega arith) e in
        rw (e, single_round)
          (b ∷ bs, refl, front, out_wire, (src.delivers bufsiz w (b ∷ bs) (omega arith) e).2)
    | inr (inr (er, e)) ↦ absurd (nf.receives bufsiz w er e)
  ]

  -- Over a connection whose reads do not fail and whose writes take everything, server1.c has,
  -- after any number of rounds that is at least the number of the bytes to come, put all of them
  -- on standard output and all of them, in upper case, on the way back, and is still in its loop.
  single_rounds-serves :
      IsSource k pending
      → TakesAll k wire
      → IsDuplex k wire pending
      → NoFailure k
      → (n : ℕ) (out : List ℕ) (w : Socket.World k) → length (pending w) ≤ n
      → let r = single_rounds k n (out, w) in
        (r.0 ≡ out ++ pending w)
        × (wire r.1 ≡ wire w ++ map toupper (pending w))
        × (pending r.1 ≡ [])
  unfolding single_rounds
  single_rounds-serves src all dup nf zero out w h =
      let empty : pending w ≡ [] = nil_of_length (pending w) (omega arith) in
      (rw empty (sym (append-nil out)), rw empty (sym (append-nil (wire w))), empty)
  single_rounds-serves src all dup nf (suc n) out w h =
      let (bs, shown, front, sent, some_move) = round_moves src all dup nf out w in
      let r = single_round k (out, w) in
      let (shown', sent', none_left) =
        single_rounds-serves src all dup nf n r.0 r.1
          (shorter bs (pending w) (pending r.1) n front some_move h) in
      (
        shown'
            ∙ ap (λ l. l ++ pending r.1) shown
            ∙ append_assoc out bs (pending r.1)
            ∙ ap (λ l. out ++ l) (sym front),
        sent'
            ∙ ap (λ l. l ++ map toupper (pending r.1)) sent
            ∙ append_assoc (wire w) (map toupper bs) (map toupper (pending r.1))
            ∙ ap (λ l. wire w ++ l)
                (sym (ap (λ l. map toupper l) front ∙ map-append toupper bs (pending r.1))),
        none_left,
      )
