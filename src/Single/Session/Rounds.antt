-- ===== src/Single/Session/Rounds.antt =====
-- The rounds of server1.c and scoket编程/client.c as steps of the session.
use network.Prelude.{
  ℕ, ◌≡◌, ◌⊎◌, refl, sym, ap, ◌∙◌, List, [], ◌++◌, map, append-nil, inl, inr, arith,
}
use network.Posix.{got, failed, Answer, Socket, IsSource, TakesAll, IsDuplex, toupper}
use network.Single.{bufsiz, single_round, hello_round}
use network.Single.Session.{
  Session, Runs, here, next, writing, taking, noting, returning, hello, client_hands,
  client_written, client_reads, server_reads, server_notes, server_hands, server_returned,
}

serves :
    (s : Session) (bs rest down noted : List ℕ)
    → s.server ≡ taking
    → s.up ≡ bs ++ rest
    → down ≡ s.down ++ map toupper bs
    → noted ≡ s.noted ++ bs
    → Runs s (record s { server = taking; up = rest; down = down; noted = noted })
serves s bs rest down noted at e d n =
    rw (d, n)
      (next
        (next
          (next (next here (server_reads bs rest at e) tt)
            (server_notes bs [] (ap noting (sym (append-nil bs)))) refl)
          (server_hands (map toupper bs) [] (
            ap (λ l. returning (map toupper l)) (append-nil bs)
            ∙ ap returning (sym (append-nil (map toupper bs)))))
          tt)
        (server_returned [] refl) refl)

greets :
    (s : Session) (bs rest up shown : List ℕ)
    → s.client ≡ writing hello
    → s.down ≡ bs ++ rest
    → up ≡ s.up ++ hello
    → shown ≡ s.shown ++ bs
    → Runs s (record s {
      client = writing hello;
      up = up;
      down = rest;
      said = s.said ++ hello;
      shown = shown;
    })
greets s bs rest up shown at e u n =
    rw (u, n)
      (next (next (next here (client_hands hello [] at) tt) (client_written [] refl) refl)
        (client_reads bs rest refl e) tt)

answered : (a : Answer) → ((bs : List ℕ) × (a ≡ got bs)) ⊎ ((e : ℕ) × (a ≡ failed e))
answered (got bs) = inl (bs, refl)
answered (failed e) = inr (e, refl)

module _ (k : Socket) (wire pending : Socket.World k → List ℕ) where
  module _ (src : IsSource k pending) (all : TakesAll k wire) (dup : IsDuplex k wire pending) where
    server_round :
        (s : Session) (w : Socket.World k)
        → s.server ≡ taking
        → s.up ≡ pending w
        → s.down ≡ wire w
        → let r = single_round k (s.noted, w) in
          Runs s (record s { server = taking; up = pending r.1; down = wire r.1; noted = r.0 })
    unfolding single_round
    server_round s w at up down = elim (answered (Socket.recv k bufsiz w).0) [
      | inl (bs, e) ↦
          let w1 = (Socket.recv k bufsiz w).1 in
          rw (e, single_round)
            (serves s bs _ _ _ at
              (up
                ∙ (src.delivers bufsiz w bs (omega arith) e).1
                ∙ ap (λ l. bs ++ l) (sym (dup.send_keeps (map toupper bs) w1)))
              ((all.whole (map toupper bs) w1).1
                ∙ ap (λ l. l ++ map toupper bs) (dup.recv_keeps bufsiz w ∙ sym down))
              refl)
      | inr (er, e) ↦
          rw (e, single_round)
            (serves s [] _ _ _ at (up ∙ sym (src.keeps bufsiz w er e))
              (dup.recv_keeps bufsiz w ∙ sym down ∙ sym (append-nil s.down))
              (sym (append-nil s.noted)))
    ]

    client_round :
        (s : Session) (v : Socket.World k)
        → s.client ≡ writing hello
        → s.up ≡ wire v
        → s.down ≡ pending v
        → let r = hello_round k (s.shown, v) in
          Runs s (record s {
            client = writing hello;
            up = wire r.1;
            down = pending r.1;
            said = s.said ++ hello;
            shown = r.0;
          })
    unfolding hello_round
    client_round s v at up down =
        let v1 = (Socket.send k hello v).1 in
        let there = down ∙ sym (dup.send_keeps hello v) in
        let gone : wire (Socket.recv k bufsiz v1).1 ≡ s.up ++ hello =
          dup.recv_keeps bufsiz v1 ∙ (all.whole hello v).1 ∙ ap (λ l. l ++ hello) (sym up) in
        elim (answered (Socket.recv k bufsiz v1).0) [
          | inl (bs, e) ↦
              rw (e, hello_round)
                (greets s bs _ _ _ at (there ∙ (src.delivers bufsiz v1 bs (omega arith) e).1) gone
                  refl)
          | inr (er, e) ↦
              rw (e, hello_round)
                (greets s [] _ _ _ at (there ∙ sym (src.keeps bufsiz v1 er e)) gone
                  (sym (append-nil s.shown)))
        ]

    -- On every connection whose writes take everything, whose reads hand over a front of what
    -- comes or fail, and whose two directions do not touch each other, with server1.c in front of
    -- its read, client.c in front of its write, and the bytes under way those of the connection: a
    -- round of the loop of server1.c and one of the loop of client.c are each a sequence of steps
    -- of the session with whole writes, to the state that the round leaves.
    pub rounds_are_steps :
        (s : Session) (w v : Socket.World k)
        → s.server ≡ taking
        → s.client ≡ writing hello
        → (s.up ≡ pending w) × (s.down ≡ wire w)
        → (s.up ≡ wire v) × (s.down ≡ pending v)
        → (let r = single_round k (s.noted, w) in
            Runs s (record s { server = taking; up = pending r.1; down = wire r.1; noted = r.0 }))
          × (let r = hello_round k (s.shown, v) in
              Runs s (record s {
                client = writing hello;
                up = wire r.1;
                down = pending r.1;
                said = s.said ++ hello;
                shown = r.0;
              }))
    rounds_are_steps s w v serving greeting (up, down) (up', down') =
        (server_round s w serving up down, client_round s v greeting up' down')
