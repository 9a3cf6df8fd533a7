-- ===== src/Multiplex/Epoll/Tests.antt =====
-- A batch of epoll.c, and its theorems at concrete states.
use network.Prelude.{
  subst, ◌||◌, ℕ, ◌≡◌, ◌≢◌, map, refl, Bool, true, false, none, some, [], ◌∷◌, ◌++◌, arith,
}
use mathlib.Core.Option
use network.Prelude.Maps.{update}
use network.Prelude.Tests.{ltb, ◌==◌}
use network.Posix.{got, wrote, toupper}
use network.Outcome.{ok, ◌>>=◌}
use network.Multiplex.Epoll.{
  Server, Event, start, accept_client, serve_client, serve_event, serve_events, round,
}
use network.Multiplex.Epoll.Leak.{Step, event, here, next, IsLost, ended_leaks}
use network.Multiplex.Epoll.Batch.{AllWell, replies, joins, watched, heard, sent_to, batch_served}

abbrev std : ℕ → Bool
std f = ltb f 5

abbrev connects : Event
connects = record { fd = 3; accepted = some 5; answer = got [] }

abbrev says_hi : Event
says_hi = record { fd = 5; accepted = none; answer = got (104 ∷ 105 ∷ []) }

abbrev leaves : Event
leaves = record { fd = 5; accepted = none; answer = got [] }

abbrev another : Event
another = record { fd = 3; accepted = some 6; answer = got [] }

-- A client connects, is answered and leaves.
whole_visit :
    (round 3 (some (connects ∷ [])) (start 3 std) >>= λ s.
    round 3 (some (says_hi ∷ leaves ∷ [])) s >>= λ s'. ok s'.trace)
    ≡ ok (wrote 1 (104 ∷ 105 ∷ []) ∷ wrote 5 (72 ∷ 73 ∷ []) ∷ [])
unfolding round serve_events serve_event accept_client serve_client start toupper update
whole_visit = refl

batch_well : AllWell 3 (connects ∷ says_hi ∷ [])
batch_well = (((λ e q. cc q), (λ e. cc e)), (((λ e. cc e), (λ e k q. absurd (cc q))), tt))

batch_served_example :
    (s' : Server) × (round 3 (some (connects ∷ says_hi ∷ [])) (start 3 std) ≡ ok s')
    × (s'.trace ≡ [] ++ replies 3 (connects ∷ says_hi ∷ []))
    × ((f : ℕ)
        → (s'.opened f ≡ (std f || joins 3 f (connects ∷ says_hi ∷ [])))
          × (s'.watch f ≡ watched 3 f (connects ∷ says_hi ∷ []) (f == 3))
          × (f ≢ 1
              → sent_to f s'.trace
                ≡ sent_to f [] ++ map toupper (heard 3 f (connects ∷ says_hi ∷ []))))
unfolding start
batch_served_example = batch_served 3 (connects ∷ says_hi ∷ []) (start 3 std) batch_well

abbrev connected : Server
connected = record { watch = λ f. f == 3 || f == 5; opened = λ f. ltb f 6; trace = [] }

abbrev after_leaving : Server
after_leaving = record connected { watch = update connected.watch 5 false }

abbrev after_another : Server
after_another = record after_leaving {
  watch = update after_leaving.watch 6 true;
  opened = update after_leaving.opened 6 true;
}

arrives : Step 3 after_leaving after_another
unfolding serve_event accept_client
arrives =
    event another (λ cfd q. subst (λ f. ltb f 6 ≡ false) (Option.some-injective 6 cfd q) refl) refl

ended_leaks_example : IsLost 5 after_another
unfolding serve_event serve_client
ended_leaks_example =
    ended_leaks 3 leaves connected after_leaving after_another (omega arith) refl refl refl
      (next here arrives)
