-- ===== src/Multiplex/Poll/Tests.antt =====
-- Rounds of poll.c, and its theorems at concrete states.
use network.Prelude.{ℕ, ◌≤◌, ◌<◌, ◌≡◌, ◌≢◌, refl, ap, Bool, true, none, some, [], ◌∷◌, ◌++◌, arith}
use network.Prelude.Maps.{update}
use network.Prelude.Tests.{ltb, ◌==◌}
use network.Posix.{Answer, got, wrote, toupper}
use network.Outcome.{ok, undefined, ◌>>=◌}
use network.Multiplex.Poll.{
  Server, Turn, start, mark, poll, free_slot, accept_client, answer, serve_slot, serve_slots, spent,
  round, after_poll,
}
use network.Multiplex.Poll.Serve.{settled, replies, ReadsWell}
use network.Multiplex.Poll.Invariant.{Inv, marked, start-Inv}
use network.Multiplex.Poll.Rounds.{round_serves}
use network.Multiplex.Poll.Joins.{entered, entered-Inv}
use network.Multiplex.Poll.Unset.{round_reads_unset}

abbrev std : ℕ → Bool
std f = ltb f 4

abbrev only : ℕ → ℕ → Bool
only k i = i == k

-- The bytes "hi" come from each client.
abbrev says_hi : ℕ → Answer
says_hi f = got (104 ∷ 105 ∷ [])

says_hi-ReadsWell : (t : Turn) → t.reads ≡ says_hi → ReadsWell t
says_hi-ReadsWell t h f e q = absurd (cc (ap (λ r. r f) h, q))

abbrev connects : Turn
connects = record { polled = some (1, only 0); accepted = some 5; reads = says_hi }

abbrev speaks : Turn
speaks = record { polled = some (1, only 1); accepted = none; reads = says_hi }

abbrev both : Turn
both = record { polled = some (2, λ i. true); accepted = some 6; reads = says_hi }

-- One client, on descriptor 5.
abbrev with_client : Server
with_client = entered (start 3 std) 1 5

with_client-Inv : Inv 3 with_client
unfolding start
with_client-Inv =
    entered-Inv 3 (start 3 std) 1 5 (start-Inv 3 std refl) (omega arith) (omega arith) refl refl

-- A client connects, and its two bytes come back in upper case.
echo_run :
    (round connects (start 3 std) >>= λ s. round speaks s >>= λ s'. ok s'.trace)
    ≡ ok (wrote 1 (104 ∷ 105 ∷ []) ∷ wrote 5 (72 ∷ 73 ∷ []) ∷ [])
unfolding round after_poll poll mark start accept_client free_slot serve_slots serve_slot answer
    spent toupper update
echo_run = refl

round_serves_example :
    (s' : Server) × (round speaks with_client ≡ ok s')
    × Inv 3 s'
    × (s'.trace
        ≡ with_client.trace ++ replies speaks with_client.maxfd 1 (marked with_client (only 1)).fds)
    × ((j : ℕ)
        → 1 ≤ j
        → j ≤ with_client.maxfd
        → s'.fds j ≡ settled speaks ((marked with_client (only 1)).fds j))
    × ((j : ℕ) → with_client.maxfd < j → s'.fds j ≡ with_client.fds j)
round_serves_example =
    round_serves 3 1 speaks with_client (only 1) with_client-Inv refl refl
      (says_hi-ReadsWell speaks refl)

with_client_full : (i : ℕ) → i ≤ with_client.maxfd → (with_client.fds i).fd ≢ none
unfolding start update
with_client_full i h q = ground arith

round_reads_unset_example : round both with_client ≡ undefined
unfolding start
round_reads_unset_example =
    round_reads_unset 3 2 6 both with_client (λ i. true) with_client-Inv refl refl (omega arith)
      (says_hi-ReadsWell both refl) refl with_client_full (omega arith)
