-- ===== src/Reactor/Steps.antt =====
-- One ready entry in the loop of `main`: its two tests and the callbacks behind them.
use network.Prelude.{ℕ, ◌≡◌, refl, ◌∙◌, ap, ◌⊎◌, inl, inr, Bool, true, false, ◌&&◌, Option, some}
use network.Prelude.Tests.{Bool-cases, if◌then◌else◌}
use network.Reactor.{
  Event, reading, recvdata, senddata, acceptconn, Reactor, receive, on_senddata, on_acceptconn,
  Input, Ready, call, dispatch, is_reading, is_writing,
}
use network.Reactor.Invariant.{Inv, Mode}
use network.Reactor.Callbacks.{Fits, on_recvdata_within, recv_step, send_step}
use network.Reactor.Accept.{IsFresh, accept_step, accept_keeps}

-- What holds after one ready entry: the callbacks were not null, and the invariant is kept.
abbrev pub Served : Option Reactor → Type 0
Served o = (r' : Reactor) × (o ≡ some r') × Inv r'

call_accept :
    (ev : Event) (inp : Input) (r : Reactor)
    → ev.call_back ≡ acceptconn
    → call ev inp r ≡ some (on_acceptconn inp r)
unfolding call
call_accept ev inp r cb = rw (cb, call)

call_recv :
    (ev : Event) (i : ℕ) (inp : Input) (r : Reactor)
    → ev.call_back ≡ recvdata
    → ev.arg ≡ some i
    → Fits inp.received
    → call ev inp r ≡ some (receive ev.fd i inp.received inp.now r)
unfolding call
call_recv ev i inp r cb arg fits =
    rw (cb, call, arg) (on_recvdata_within ev.fd i inp.received inp.now r fits)

call_send :
    (ev : Event) (i : ℕ) (inp : Input) (r : Reactor)
    → ev.call_back ≡ senddata
    → ev.arg ≡ some i
    → call ev inp r ≡ some (on_senddata ev.fd i inp.taken inp.now r)
unfolding call
call_send ev i inp r cb arg = rw (cb, call, arg)

-- The second test: the slot waits to send.
second_step :
    (r : Reactor) (i : ℕ) (inp : Input) (writable : Bool)
    → Inv r
    → (((r.slots i).status ≡ 1) ⊎ ((r.slots i).events ≡ reading))
    → Served (if writable && is_writing (r.slots i).events then call (r.slots i) inp r else some r)
second_step r i inp false v h = (r, refl, v)
second_step r i inp true v (inr m) = (r, rw m, v)
second_step r i inp true v (inl used) = waits (v.used_watched i used).2
  where
    waits :
        Mode i (r.slots i)
        → Served (if is_writing (r.slots i).events then call (r.slots i) inp r else some r)
    waits (inl (_, _, m)) = (r, rw m, v)
    waits (inr (_, _, inl (_, m))) = (r, rw m, v)
    waits (inr (client, arg, inr (cb, m, _, _))) = (
      on_senddata (r.slots i).fd i inp.taken inp.now r,
      ap (λ x. if is_writing x then call (r.slots i) inp r else some r) m
          ∙ call_send (r.slots i) i inp r cb arg,
      send_step r i inp.now v used client inp.taken,
    )

-- The first test of the loop body, with what it leaves.
first_test : Ready → Input → Reactor → Option Reactor
first_test e inp r =
    if e.readable && is_reading (r.slots e.slot).events then call (r.slots e.slot) inp r else some r

dispatch_first :
    (e : Ready) (first second : Input) (r r' : Reactor)
    → first_test e first r ≡ some r'
    → dispatch e first second r ≡ (
        if e.writable && is_writing (r'.slots e.slot).events
        then call (r'.slots e.slot) second r'
        else some r')
unfolding dispatch first_test
dispatch_first e first second r r' h = rw (h, dispatch)

first_step :
    (e : Ready) (inp : Input) (r : Reactor)
    → Inv r
    → (r.slots e.slot).status ≡ 1
    → IsFresh r inp
    → Fits inp.received
    → (r' : Reactor) × (first_test e inp r ≡ some r')
      × Inv r'
      × (((r'.slots e.slot).status ≡ 1) ⊎ ((r'.slots e.slot).events ≡ reading))
unfolding first_test
first_step e inp r v used fresh fits = elim (Bool-cases e.readable) [
  | inr not_ready ↦ (r, rw not_ready, v, inl used)
  | inl ready ↦ by_mode ready (v.used_watched e.slot used).2
]
  where
    by_mode :
        e.readable ≡ true
        → Mode e.slot (r.slots e.slot)
        → (r' : Reactor) × ((if e.readable && is_reading (r.slots e.slot).events
              then call (r.slots e.slot) inp r
              else some r)
            ≡ some r')
          × Inv r'
          × (((r'.slots e.slot).status ≡ 1) ⊎ ((r'.slots e.slot).events ≡ reading))
    by_mode ready (inl (last, cb, m)) = (
      on_acceptconn inp r,
      rw ready (
          ap (λ x. if is_reading x then call (r.slots e.slot) inp r else some r) m
          ∙ call_accept (r.slots e.slot) inp r cb),
      accept_step r inp v fresh,
      inl (rw (accept_keeps r inp e.slot v fresh used) used),
    )
    by_mode ready (inr (client, arg, inl (cb, m))) =
        let (v', after) = recv_step r e.slot inp.now v used client inp.received fits m in
        (
          receive (r.slots e.slot).fd e.slot inp.received inp.now r,
          rw ready (
              ap (λ x. if is_reading x then call (r.slots e.slot) inp r else some r) m
              ∙ call_recv (r.slots e.slot) e.slot inp r cb arg fits),
          v',
          after,
        )
    by_mode ready (inr (client, arg, inr (cb, m, _, _))) = (r, rw (ready, m), v, inl used)

-- One ready entry, for a slot in use.
pub dispatch_step :
    (e : Ready) (first second : Input) (r : Reactor)
    → Inv r
    → (r.slots e.slot).status ≡ 1
    → IsFresh r first
    → Fits first.received
    → Served (dispatch e first second r)
dispatch_step e first second r v used fresh fits =
    let (r1, run, v1, after) = first_step e first r v used fresh fits in
    rw (dispatch_first e first second r r1 run) (second_step r1 e.slot second e.writable v1 after)
