-- ===== src/Multiplex/Plain/Tests.antt =====
-- A round of select.c, and its theorem at a concrete state.
use network.Prelude.{ℕ, ◌+◌, ◌-◌, ◌≤◌, ◌<◌, ◌≡◌, refl, ◌⊎◌, ◌||◌, none, some, [], ◌∷◌, ◌++◌, arith}
use network.Prelude.Maps.{update}
use network.Prelude.Tests.{ltb, ◌==◌}
use network.Posix.{got, wrote, toupper}
use network.Outcome.{ok, ◌>>=◌}
use network.Multiplex.Plain.{
  Server, Turn, start, left_in, accept_client, answer, serve_fd, serve_fds, after_select, round,
}
use network.Multiplex.Plain.Serve.{replies, stays, pass_serves}

abbrev connects : Turn
connects = record { selected = some (1, λ f. f == 3); accepted = some 5; reads = λ f. got [] }

abbrev speaks : Turn
speaks = record {
  selected = some (1, λ f. f == 5);
  accepted = none;
  reads = λ f. got (104 ∷ 105 ∷ []);
}

echo_run :
    (round 3 connects (start 3 (λ f. ltb f 4)) >>= λ s. round 3 speaks s >>= λ s'. ok s'.trace)
    ≡ ok (wrote 5 (72 ∷ 73 ∷ []) ∷ [])
unfolding round after_select start accept_client serve_fds serve_fd answer toupper update
echo_run = refl

abbrev with_client : Server
with_client = record {
  maxfd = 5;
  allset = λ f. f == 3 || f == 5;
  opened = λ f. ltb f 6;
  trace = [];
}

pass_serves_example :
    let set = left_in (λ f. f == 5) with_client in
    (s' : Server) × (round 3 speaks with_client ≡ ok s')
    × (s'.trace ≡ [] ++ replies speaks set (5 - 3) (3 + 1))
    × (s'.maxfd ≡ 5)
    × ((f : ℕ)
        → (3 < f) × (f ≤ 5)
        → (s'.allset f ≡ stays speaks set f (with_client.allset f))
          × (s'.opened f ≡ stays speaks set f (with_client.opened f)))
    × ((f : ℕ)
        → (f ≤ 3) ⊎ (5 < f)
        → (s'.allset f ≡ with_client.allset f) × (s'.opened f ≡ with_client.opened f))
pass_serves_example = pass_serves 3 1 speaks with_client (λ f. f == 5) refl refl (omega arith)
