-- ===== src/Reactor/Tests.antt =====
-- Runs of the event loop, and its theorems at concrete states.
use network.Prelude.Maps.{update}
use network.Prelude.{subst, ℕ, ◌≡◌, refl, Bool, true, false, none, some, [], ◌∷◌, ◌++◌, arith}
use mathlib.Core.Option
use network.Prelude.Tests.{ltb, ◌==◌, if◌then◌else◌}
use network.Prelude.Lists.{take, replicate}
use network.Posix.{got, failed, sent, refused}
use network.Reactor.{
  Event, reading, recvdata, Reactor, came, went, max_events, blank, buflen, Input, Ready, overruns,
  receive, on_recvdata, on_senddata, on_acceptconn, find_free, dispatch, initlistensocket, boot,
  eventset, eventadd, eventdel, put, ctl_add, terminate, call,
}
use network.Reactor.Table.{IsActive}
use network.Reactor.Invariant.{Inv}
use network.Reactor.Steps.{Served}
use network.Reactor.Reach.{here, reach_serves}
use network.Reactor.Echo.{echo}
use network.Reactor.First
use network.Reactor.First.Stolen.{accept_steals}

-- Standard input, output and error are open.
abbrev std : ℕ → Bool
std f = ltb f 3

abbrev accepts : ℕ → Input
accepts f = record {
  accepted = some f;
  nonblocking = true;
  received = failed 11;
  taken = refused 11;
  now = 7;
}

-- The bytes "hi" come, and four bytes could be sent.
abbrev hears : Input
hears = record {
  accepted = none;
  nonblocking = true;
  received = got (104 ∷ 105 ∷ []);
  taken = sent 2;
  now = 8;
}

abbrev listener_ready : Ready
listener_ready = record { slot = max_events; readable = true; writable = false }

abbrev first_ready : Ready
first_ready = record { slot = 0; readable = true; writable = true }

-- A client is accepted, and its two bytes are echoed in one round.
echo_run :
    (Option.map
      (λ r. Reactor.trace r)
      (Option.bind
        (dispatch listener_ready (accepts 5) hears (initlistensocket 3 0 (boot std)))
        (dispatch first_ready hears hears)))
    ≡ some (came 5 (104 ∷ 105 ∷ []) ∷ went 5 (104 ∷ 105 ∷ []) ∷ [])
unfolding dispatch call on_recvdata overruns receive on_senddata on_acceptconn find_free
    initlistensocket boot eventset eventadd eventdel put ctl_add terminate update Option.bind
echo_run = refl

reach_serves_example :
    let r = initlistensocket 3 0 (boot std) in
    Inv r × Served (dispatch listener_ready (accepts 5) hears r)
unfolding initlistensocket boot eventset eventadd put ctl_add update
reach_serves_example =
    reach_serves std 3 0 (initlistensocket 3 0 (boot std)) 3 reading listener_ready (accepts 5)
      hears refl here refl not_open tt
  where
    not_open : (f : ℕ) → some 5 ≡ some f → (initlistensocket 3 0 (boot std)).opened f ≡ false
    not_open f e =
        subst (λ g. (initlistensocket 3 0 (boot std)).opened g ≡ false)
          (Option.some-injective 5 f e) refl

abbrev client_slot : Event
client_slot = record {
  fd = 5;
  events = reading;
  arg = some 0;
  call_back = recvdata;
  status = 1;
  buf = replicate buflen 0;
  len = 0;
  last_active = 0;
}

abbrev one_client : Reactor
one_client = record {
  slots = λ i. if i == 0 then client_slot else blank;
  watch = λ f. if f == 5 then some (reading, 0) else none;
  opened = λ f. f == 5;
  trace = [];
}

one_client-IsActive : IsActive one_client 0
one_client-IsActive = record { used = refl; is_open = refl }

echo_example :
    (r1 : Reactor) × (on_recvdata 5 0 (got (104 ∷ 105 ∷ [])) 1 one_client ≡ some r1)
    × ((on_senddata 5 0 (sent 1) 2 r1).trace
        ≡ [] ++ (came 5 (104 ∷ 105 ∷ []) ∷ went 5 (take 1 (104 ∷ 105 ∷ [])) ∷ []))
echo_example = echo one_client 0 1 2 104 0 (105 ∷ []) one_client-IsActive (omega arith)

accept_steals_example :
    let r1 = First.on_acceptconn (accepts 6) one_client in
    (r2 : Reactor) × (First.call (r1.slots 1) hears r1 ≡ some r2)
    × (r2.watch 5 ≡ none)
    × (r2.opened 5 ≡ true)
    × ((r2.slots 0).fd ≡ 6)
    × (r2.watch 6 ≡ some (reading, 1))
unfolding find_free
accept_steals_example =
    accept_steals one_client 6 1 104 (105 ∷ []) (accepts 6) hears refl (omega arith) refl refl refl
      refl refl (omega arith)
