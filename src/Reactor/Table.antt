-- ===== src/Reactor/Table.antt =====
-- What each callback does to the slots, the epoll set and the open descriptors, field by field.
use network.Prelude.Maps.{update, update_self, update_ne}
use network.Prelude.{
  ℕ, suc, ◌≡◌, ◌≢◌, refl, sym, ◌∙◌, ap, true, false, Option, none, some, List, [], ◌∷◌, ◌++◌,
}
use network.Prelude.Lists.{length, take, drop}
use network.Posix.{got, sent}
use network.Reactor.{
  Event, Interest, reading, writing, Callback, recvdata, senddata, Reactor, ctl_add, eventset,
  eventadd, eventdel, put, close, terminate, receive, on_senddata, Io, came, went,
}

-- Slot `i` keeps its descriptor `fd` and is watched as `e` says; nothing else changes.
pub record Retargets (r r' : Reactor) (i : ℕ) (e : Event) : Type 0 where
  pub slot_at : r'.slots i ≡ e
  pub slot_other : (j : ℕ) → i ≢ j → r'.slots j ≡ r.slots j
  pub watch_at : r'.watch (r.slots i).fd ≡ some (e.events, i)
  pub watch_other : (f : ℕ) → (r.slots i).fd ≢ f → r'.watch f ≡ r.watch f
  pub opened_same : (f : ℕ) → r'.opened f ≡ r.opened f

-- `eventset` and `eventadd` on a slot whose descriptor is open and not watched.
pub eventadd-Retargets :
    (r : Reactor) (i fd now : ℕ) (cb : Callback) (arg : Option ℕ) (ev : Event) (m : Interest)
    → r.watch fd ≡ none
    → r.opened fd ≡ true
    → let r' = eventadd m i (put i (eventset ev fd cb arg now) r) in
      (r'.slots i ≡ record (eventset ev fd cb arg now) { events = m; status = 1 })
      × (r'.watch ≡ update r.watch fd (some (m, i)))
      × (r'.opened ≡ r.opened)
      × (r'.trace ≡ r.trace)
      × ((j : ℕ) → i ≢ j → r'.slots j ≡ r.slots j)
unfolding ctl_add eventset eventadd put
eventadd-Retargets r i fd now cb arg ev m unwatched opened =
    let set_self = update_self r.slots i (eventset ev fd cb arg now) in
    (
      rw set_self (update_self _ i _),
      rw (set_self, ctl_add, unwatched) (rw (set_self, opened)),
      refl,
      refl,
      (λ j h. update_ne _ i j _ h ∙ update_ne r.slots i j _ h),
    )

-- `eventdel` on a slot that is in use.
pub eventdel_lem :
    (r : Reactor) (i : ℕ)
    → (r.slots i).status ≡ 1
    → eventdel i r ≡ record r {
      slots = update r.slots i (record (r.slots i) { status = 0 });
      watch = update r.watch (r.slots i).fd none;
    }
unfolding eventdel
eventdel_lem r i h = rw h

pub eventdel_slot :
    (r : Reactor) (i : ℕ)
    → (r.slots i).status ≡ 1
    → (eventdel i r).slots i ≡ record (r.slots i) { status = 0 }
eventdel_slot r i h =
    ap (λ x. Reactor.slots x i) (eventdel_lem r i h)
    ∙ update_self r.slots i (record (r.slots i) { status = 0 })

-- The slot after `recvdata` got `bs`.
unfoldable pub loaded : Event → ℕ → List ℕ → ℕ → Event
loaded ev i bs now =
    record (eventset
      (terminate (length bs) (record ev { buf = bs ++ drop (length bs) ev.buf; status = 0 })) ev.fd
      senddata (some i) now) { events = writing; status = 1 }

-- The slot after `senddata` sent something.
unfoldable pub rearmed : Event → ℕ → ℕ → Event
rearmed ev i now = record (eventset (record ev { status = 0 }) ev.fd recvdata (some i) now) {
  events = reading;
  status = 1;
}

-- A slot `i` in use, with an open descriptor.
pub record IsActive (r : Reactor) (i : ℕ) : Type 0 where
  pub used : (r.slots i).status ≡ 1
  pub is_open : r.opened (r.slots i).fd ≡ true

-- A slot taken off the set, changed to `ev`, and added again.
again :
    (r : Reactor) (i fd now : ℕ) (ev : Event) (cb : Callback) (m : Interest)
    → IsActive r i
    → fd ≡ (r.slots i).fd
    → let e = record (eventset ev fd cb (some i) now) { events = m; status = 1 } in
      let r' = eventadd m i (put i (eventset ev fd cb (some i) now) (eventdel i r)) in
      Retargets r r' i e × (r'.trace ≡ r.trace)
again r i fd now ev cb m a same =
    let del = eventdel_lem r i a.used in
    let r1 = record r {
      slots = update r.slots i (record (r.slots i) { status = 0 });
      watch = update r.watch (r.slots i).fd none;
    } in
    let (at, watch, open', tr, other) =
      eventadd-Retargets r1 i fd now cb (some i) ev m
        (rw same (update_self r.watch (r.slots i).fd none)) (rw same a.is_open) in
    rw del (
      record {
        slot_at = at;
        slot_other = λ j h. other j h ∙ update_ne r.slots i j (record (r.slots i) { status = 0 }) h;
        watch_at =
            ap (λ g. g (r.slots i).fd) watch
            ∙ rw same (update_self r1.watch (r.slots i).fd (some (m, i)));
        watch_other = λ f h.
            ap (λ g. g f) watch
            ∙ update_ne r1.watch fd f (some (m, i)) (λ q. h (sym same ∙ q))
            ∙ update_ne r.watch (r.slots i).fd f none h;
        opened_same = λ f. ap (λ g. g f) open';
      },
      tr,
    )

-- Writing into the slot, or to the trace, before that.
Retargets-put :
    (r r' : Reactor) (i : ℕ) (ev e : Event) (trace : List Io)
    → ev.fd ≡ (r.slots i).fd
    → Retargets (put i ev (record r { trace = trace })) r' i e
    → Retargets r r' i e
unfolding put
Retargets-put r r' i ev e trace same t =
    let fd_at : (update r.slots i ev i).fd ≡ (r.slots i).fd =
      ap (λ x. Event.fd x) (update_self r.slots i ev) ∙ same in
    record {
      slot_at = t.slot_at;
      slot_other = λ j h. t.slot_other j h ∙ update_ne r.slots i j ev h;
      watch_at = rw fd_at at t.watch_at;
      watch_other = λ f h. t.watch_other f (λ q. h (sym fd_at ∙ q));
      opened_same = t.opened_same;
    }

-- `recvdata` with bytes: the slot holds them, and its descriptor is watched for writing.
pub receive_lem :
    (r : Reactor) (i now b : ℕ) (bs : List ℕ)
    → IsActive r i
    → let r' = receive (r.slots i).fd i (got (b ∷ bs)) now r in
      Retargets r r' i (loaded (r.slots i) i (b ∷ bs) now)
      × (r'.trace ≡ r.trace ++ (came (r.slots i).fd (b ∷ bs) ∷ []))
unfolding receive loaded put
receive_lem r i now b bs a =
    let ev = r.slots i in
    let filled = record ev { buf = (b ∷ bs) ++ drop (length (b ∷ bs)) ev.buf } in
    let trace = r.trace ++ (came ev.fd (b ∷ bs) ∷ []) in
    let r1 = put i filled (record r { trace = trace }) in
    let at = update_self r.slots i filled in
    let active : IsActive r1 i = record { used = rw at a.used; is_open = rw at a.is_open } in
    let emptied : (eventdel i r1).slots i ≡ record filled { status = 0 } =
      eventdel_slot r1 i active.used
      ∙ ap {A = Event} {B = Event} (λ x. record x { status = 0 }) at in
    let t =
      again r1 i ev.fd now (terminate (length (b ∷ bs)) (record filled { status = 0 })) senddata
        writing active (ap (λ x. Event.fd x) (sym at)) in
    rw emptied (Retargets-put r _ i filled _ trace refl t.0, t.1)

-- `senddata` with bytes taken: the slot is as it was but for its mode, and is watched for reading.
pub on_senddata_lem :
    (r : Reactor) (i now n : ℕ)
    → IsActive r i
    → let r' = on_senddata (r.slots i).fd i (sent (suc n)) now r in
      Retargets r r' i (rearmed (r.slots i) i now)
      × (r'.trace
          ≡ r.trace
            ++ (went (r.slots i).fd (take (suc n) (take (r.slots i).len (r.slots i).buf)) ∷ []))
unfolding on_senddata rearmed
on_senddata_lem r i now n a =
    let ev = r.slots i in
    let trace = r.trace ++ (went ev.fd (take (suc n) (take ev.len ev.buf)) ∷ []) in
    let r1 = record r { trace = trace } in
    let (t, tr) =
      again r1 i ev.fd now (record ev { status = 0 }) recvdata reading
        (record { used = a.used; is_open = a.is_open }) refl in
    rw (eventdel_slot r1 i a.used) (
      record {
        slot_at = t.slot_at;
        slot_other = t.slot_other;
        watch_at = t.watch_at;
        watch_other = t.watch_other;
        opened_same = t.opened_same;
      },
      tr,
    )

-- Slot `i` is free, and its descriptor is closed and not watched; nothing else changes.
pub record Retires (r r' : Reactor) (i : ℕ) : Type 0 where
  pub slot_at : r'.slots i ≡ record (r.slots i) { status = 0 }
  pub slot_other : (j : ℕ) → i ≢ j → r'.slots j ≡ r.slots j
  pub watch_at : r'.watch (r.slots i).fd ≡ none
  pub watch_other : (f : ℕ) → (r.slots i).fd ≢ f → r'.watch f ≡ r.watch f
  pub opened_at : r'.opened (r.slots i).fd ≡ false
  pub opened_other : (f : ℕ) → (r.slots i).fd ≢ f → r'.opened f ≡ r.opened f
  pub trace_same : r'.trace ≡ r.trace

-- `eventdel`, then `close(ev->fd)`.
pub hang_up :
    (r : Reactor) (i : ℕ)
    → (r.slots i).status ≡ 1
    → Retires r (close ((eventdel i r).slots i).fd (eventdel i r)) i
unfolding close
hang_up r i h =
    let fd = (r.slots i).fd in
    rw (eventdel_slot r i h, eventdel_lem r i h)
      (record {
        slot_at = update_self r.slots i (record (r.slots i) { status = 0 });
        slot_other = λ j q. update_ne r.slots i j (record (r.slots i) { status = 0 }) q;
        watch_at = update_self (update r.watch fd none) fd none;
        watch_other =
            λ f q. update_ne (update r.watch fd none) fd f none q ∙ update_ne r.watch fd f none q;
        opened_at = update_self r.opened fd false;
        opened_other = λ f q. update_ne r.opened fd f false q;
        trace_same = refl;
      })
