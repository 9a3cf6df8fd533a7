-- ===== src/Reactor/First/Stolen.antt =====
-- Two clients and the one slot that `&g_events` points to.
use network.Prelude.Maps.{update, update_self, update_ne}
use network.Prelude.{
  ℕ, ◌<◌, ◌≡◌, ◌≢◌, refl, sym, ◌∙◌, ap, ap₂, true, Option, none, some, List, [], ◌∷◌, ◌++◌, arith,
}
use network.Prelude.Tests.{◌==◌, if◌then◌else◌}
use network.Prelude.Lists.{length, drop}
use network.Posix.{got}
use network.Reactor.{
  Event, Callback, Reactor, Interest, reading, writing, recvdata, senddata, Input, max_events, put,
  eventset, eventadd, eventdel, ctl_add, terminate, find_free, buflen, receive, on_recvdata, came,
}
use network.Reactor.Table.{eventdel_lem, eventadd-Retargets}
use network.Reactor.Callbacks.{on_recvdata_within}
use network.Reactor.Accept.{find_free_lem}
use network.Reactor.First.{on_acceptconn, call}

-- `eventset` and `eventadd` with a descriptor that is watched already: the slot changes, the set does
-- not.
eventadd_watched :
    (r : Reactor) (i fd now : ℕ) (cb : Callback) (arg : Option ℕ) (ev : Event) (m : Interest)
    (w : Interest × ℕ)
    → r.watch fd ≡ some w
    → let r' = eventadd m i (put i (eventset ev fd cb arg now) r) in
      ((r'.slots i).fd ≡ fd) × (r'.watch ≡ r.watch) × (r'.opened ≡ r.opened)
unfolding ctl_add eventset eventadd put
eventadd_watched r i fd now cb arg ev m w watched =
    let set_self = update_self r.slots i (eventset ev fd cb arg now) in
    let at = update_self (update r.slots i (eventset ev fd cb arg now)) i in
    (
      ap (λ e. Event.fd e)
            (at (record (update r.slots i (eventset ev fd cb arg now) i) {
              events = m;
              status =
                  if (update r.slots i (eventset ev fd cb arg now) i).status == 0
                  then 1
                  else (update r.slots i (eventset ev fd cb arg now) i).status;
            }))
          ∙ ap (λ e. Event.fd e) set_self,
      rw (set_self, ctl_add) (rw watched),
      refl,
    )

-- `recvdata` for the descriptor `c`, which another slot watches, with slot `i` as its argument.
takes_over :
    (r : Reactor) (i c now b : ℕ) (bs : List ℕ) (w : Interest × ℕ)
    → (r.slots i).status ≡ 1
    → (r.slots i).fd ≢ c
    → r.watch c ≡ some w
    → let r' = receive c i (got (b ∷ bs)) now r in
      (r'.watch (r.slots i).fd ≡ none)
      × (r'.opened ≡ r.opened)
      × ((r'.slots i).fd ≡ c)
      × (r'.watch c ≡ some w)
unfolding receive put
takes_over r i c now b bs w used apart watched =
    let a = (r.slots i).fd in
    let filled = record (r.slots i) { buf = (b ∷ bs) ++ drop (length (b ∷ bs)) (r.slots i).buf } in
    let r1 = put i filled (record r { trace = r.trace ++ (came c (b ∷ bs) ∷ []) }) in
    let at = update_self r.slots i filled in
    let del = eventdel_lem r1 i (rw at used) in
    let watch1 : (eventdel i r1).watch ≡ update r.watch a none =
      ap (λ x. Reactor.watch x) del ∙ ap (λ e. update r.watch (Event.fd e) none) at in
    let still : (eventdel i r1).watch c ≡ some w =
      ap (λ g. g c) watch1 ∙ update_ne r.watch a c none apart ∙ watched in
    let (fd, watch, same) =
      eventadd_watched (eventdel i r1) i c now senddata (some i)
        (terminate (length (b ∷ bs)) ((eventdel i r1).slots i)) writing w still in
    (
      ap (λ g. g a) (watch ∙ watch1) ∙ update_self r.watch a none,
      same ∙ ap (λ x. Reactor.opened x) del,
      fd,
      ap (λ g. g c) watch ∙ still,
    )

call_recv :
    (ev : Event) (i fd b : ℕ) (bs : List ℕ) (inp : Input) (r : Reactor)
    → ev.call_back ≡ recvdata
    → ev.arg ≡ some i
    → ev.fd ≡ fd
    → inp.received ≡ got (b ∷ bs)
    → length (b ∷ bs) < buflen
    → call ev inp r ≡ some (receive fd i (got (b ∷ bs)) inp.now r)
unfolding call
call_recv ev i fd b bs inp r cb arg same data' room =
    rw (cb, call, arg)
      (ap₂ (λ f d. on_recvdata f i d inp.now r) same data'
        ∙ on_recvdata_within fd i (got (b ∷ bs)) inp.now r room)

enlisted :
    (ev : Event) (cfd now : ℕ)
    → let e = record (eventset ev cfd recvdata (some 0) now) { events = reading; status = 1 } in
      (e.call_back ≡ recvdata) × (e.arg ≡ some 0) × (e.fd ≡ cfd)
unfolding eventset
enlisted ev cfd now = (refl, refl, refl)

-- With a client on the first slot, any client accepted after it is put on another slot i, and its
-- first data, of 1 to 4095 bytes, goes to the first slot: the first client's descriptor stays open
-- but is watched no more, the first slot now holds the other client's descriptor, and that
-- descriptor is still watched through the slot i.
pub accept_steals :
    (r : Reactor) (cfd i b : ℕ) (bs : List ℕ) (inp later : Input)
    → (r.slots 0).status ≡ 1
    → (r.slots 0).fd ≢ cfd
    → find_free max_events r.slots 0 ≡ some i
    → inp.accepted ≡ some cfd
    → inp.nonblocking ≡ true
    → r.watch cfd ≡ none
    → later.received ≡ got (b ∷ bs)
    → length (b ∷ bs) < buflen
    → let a = (r.slots 0).fd in
      let r1 = on_acceptconn inp r in
      (r2 : Reactor) × (call (r1.slots i) later r1 ≡ some r2)
      × (r2.watch a ≡ none)
      × (r2.opened a ≡ r.opened a)
      × ((r2.slots 0).fd ≡ cfd)
      × (r2.watch cfd ≡ some (reading, i))
unfolding on_acceptconn
accept_steals r cfd i b bs inp later used apart found e good unwatched data' short =
    let r0 = record r { opened = update r.opened cfd true } in
    let (at, watch, same, tr, other) =
      eventadd-Retargets r0 i cfd inp.now recvdata (some 0) (r.slots i) reading unwatched
        (update_self r.opened cfd true) in
    let r1 = eventadd reading i (put i (eventset (r.slots i) cfd recvdata (some 0) inp.now) r0) in
    let (room, free) = find_free_lem max_events 0 i r.slots found in
    let not_first : i ≢ 0 =
      λ z. absurd (omega (arith, ap (λ k. (r.slots k).status) z, free, used)) in
    let slot_0 = other 0 not_first in
    let (cb, arg, fd) = enlisted (r.slots i) cfd inp.now in
    let a_same : (r1.slots 0).fd ≡ (r.slots 0).fd = ap (λ x. Event.fd x) slot_0 in
    let (lost, opens, holds, still) =
      takes_over r1 0 cfd later.now b bs (reading, i) (ap (λ x. Event.status x) slot_0 ∙ used)
        (λ q. apart (sym a_same ∙ q))
        (ap (λ g. g cfd) watch ∙ update_self r.watch cfd (some (reading, i))) in
    let r2 = receive cfd 0 (got (b ∷ bs)) later.now r1 in
    rw (e, on_acceptconn, found, good)
      (
        r2,
        call_recv (r1.slots i) 0 cfd b bs later r1 (ap (λ x. Event.call_back x) at ∙ cb)
            (ap (λ x. Event.arg x) at ∙ arg) (ap (λ x. Event.fd x) at ∙ fd) data' short,
        ap r2.watch (sym a_same) ∙ lost,
        ap (λ g. g (r.slots 0).fd) (opens ∙ same)
            ∙ update_ne r.opened cfd (r.slots 0).fd true (λ q. apart (sym q)),
        holds,
        still,
      )
