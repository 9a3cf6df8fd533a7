-- ===== src/Multiplex/Select/Tests.antt =====
-- Rounds of select优化.c, and its theorems at concrete states.
use network.Prelude.{ℕ, ◌≤◌, ◌≡◌, refl, sym, ap, Bool, true, none, some, [], ◌∷◌, ◌++◌, arith}
use network.Prelude.Maps.{update, update_ne}
use network.Prelude.Tests.{ltb, ◌==◌}
use network.Posix.{Answer, got, wrote, toupper}
use network.Outcome.{ok, ◌>>=◌}
use network.Multiplex.Select.{
  Server, Turn, start, rset, free_entry, accept_client, answer, serve_clients, after_select, round,
}
use network.Multiplex.Select.Serve.{ready_count, serve_all, replies}
use network.Multiplex.Select.Table.{Table, some_inj}
use network.Multiplex.Select.Full.{Fresh}
use network.Multiplex.Select.Reach.{begins, goes, table_has_room}
use network.Multiplex.Select.Rounds.{entered, round_counts, round_connects}

abbrev std : ℕ → Bool
std f = ltb f 4

abbrev says_hi : ℕ → Answer
says_hi f = got (104 ∷ 105 ∷ [])

abbrev connects : Turn
connects = record { selected = some (1, λ f. f == 3); accepted = some 5; reads = says_hi }

abbrev speaks : Turn
speaks = record { selected = some (1, λ f. f == 5); accepted = none; reads = says_hi }

-- A second client connects while the first one speaks.
abbrev both : Turn
both = record { selected = some (2, λ f. true); accepted = some 6; reads = says_hi }

-- One client, on descriptor 5.
abbrev with_client : Server
with_client = entered (start 3 std) 0 5

-- A client connects, and its two bytes come back in upper case while another one connects.
echo_run :
    (round 3 connects (start 3 std) >>= λ s. round 3 both s >>= λ s'. ok s'.trace)
    ≡ ok (wrote 5 (72 ∷ 73 ∷ []) ∷ wrote 1 (72 ∷ 73 ∷ []) ∷ [])
unfolding round after_select start accept_client free_entry serve_clients answer toupper update
echo_run = refl

round_counts_example :
    (s' : Server) × (round 3 speaks with_client ≡ ok s')
    × (s' ≡ serve_all speaks (rset (λ f. f == 5) with_client) 1 0 with_client)
    × (s'.trace ≡ [] ++ replies speaks (rset (λ f. f == 5) with_client) 1 0 with_client.client)
unfolding start ready_count update
round_counts_example = round_counts 3 1 speaks with_client (λ f. f == 5) refl refl (omega arith)

unused : (i : ℕ) → 1 ≤ i → with_client.client i ≡ none
unfolding start
unused i h = update_ne _ 0 i _ (omega arith)

round_connects_example :
    (k : ℕ) × (k ≤ 1)
    × (with_client.client k ≡ none)
    × (let s1 = entered with_client k 6 in
        (s' : Server) × (round 3 both with_client ≡ ok s')
        × (s' ≡ serve_all both (rset (λ f. true) with_client) s1.slots 0 s1)
        × (s'.trace ≡ [] ++ replies both (rset (λ f. true) with_client) 1 0 with_client.client))
unfolding start ready_count update
round_connects_example =
    round_connects 3 1 6 1 both with_client (λ f. true) refl refl refl (omega arith) (omega arith)
      refl unused refl (omega arith)

connects-Fresh : Fresh (start 3 std) connects
unfolding start
connects-Fresh f e = ap std (sym (some_inj e))

first_client : round 3 connects (start 3 std) ≡ ok with_client
unfolding round after_select start accept_client free_entry serve_clients answer toupper update
first_client = refl

table_has_room_example :
    Table 3 with_client × ((s' : Server) × (round 3 both with_client ≡ ok s') × Table 3 s')
unfolding start update
table_has_room_example =
    table_has_room 3 2 6 std (λ f. true) with_client both refl (omega arith)
      (goes connects connects-Fresh begins first_client) refl refl (omega arith) refl
