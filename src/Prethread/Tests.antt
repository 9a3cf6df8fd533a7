-- ===== src/Prethread/Tests.antt =====
-- Two clients and two threads, and the theorem between them.
use network.Prelude.{ℕ, ◌<◌, ◌≡◌, ◌↔◌, refl, some, [], ◌∷◌, ◌++◌}
use network.Prelude.Maps.{update}
use network.Ending.{going, exits}
use network.Ring.{after, contents}
use network.Prethread.{maxncli, Server, start, main_round, take_client}
use network.Prethread.Order.{here, next, accepts, takes, clients, clients_in_order}

abbrev empty : ℕ → ℕ
empty i = 0

abbrev one_waits : Server
one_waits = record (start empty) { clifd = update empty 0 7; iput = 1; accepted = 7 ∷ [] }

first_client : main_round (some 7) (start empty) ≡ going one_waits
unfolding main_round start after
first_client = refl

-- Thread 1 takes the client, and has it while thread 0 finds nothing.
taken_once : (take_client 0 (take_client 1 one_waits)).taken ≡ (1, 7) ∷ []
unfolding take_client start after update
taken_once = refl

clients_in_order_example :
    let s = take_client 1 one_waits in
    (n : ℕ) × (s.accepted ≡ clients s.taken ++ contents maxncli s.clifd s.iget n)
    × (n < maxncli)
    × ((main_round (some 8) s ≡ exits) ↔ (n ≡ 31))
unfolding start
clients_in_order_example =
    clients_in_order empty (take_client 1 one_waits) 8
      (next (next here (accepts 7 first_client)) (takes 1 refl))
