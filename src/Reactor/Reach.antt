-- ===== src/Reactor/Reach.antt =====
-- The runs of the program: from `initlistensocket` on, any number of ready entries, each for a
-- descriptor that the epoll set holds, with any results of the system calls.
use network.Prelude.Maps.{update, update_self}
use network.Prelude.{
  ℕ, zero, suc, ◌+◌, ◌<◌, ◌≡◌, refl, sym, ◌∙◌, subst, inl, Bool, true, false, none, some, arith,
}
use network.Reactor.{
  Event, Interest, reading, acceptconn, Reactor, max_events, blank, eventset, on_acceptconn,
  find_free, Input, Ready, dispatch, initlistensocket, boot,
}
use network.Reactor.Table.{eventadd-Retargets}
use network.Reactor.Invariant.{Inv, Mode, enlist-Inv, opened-Inv, not_watched}
use network.Reactor.Callbacks.{Fits}
use network.Reactor.Accept.{IsFresh}
use network.Reactor.Steps.{Served, dispatch_step}

-- One entry of `epoll_wait`: `data.ptr` is the slot that the set holds for some descriptor.
pub data Step (r : Reactor) (r' : Reactor) : Type 0 where
  serve :
      (f : ℕ) (m : Interest) (e : Ready) (first second : Input)
      → r.watch f ≡ some (m, e.slot)
      → IsFresh r first
      → Fits first.received
      → dispatch e first second r ≡ some r'
      → Step r r'

pub data Reach (s : Reactor) : Reactor → Type 0 where
  here : Reach s s
  next : {r r' : Reactor} → Reach s r → Step r r' → Reach s r'

boot-Inv : (opened : ℕ → Bool) → Inv (boot opened)
unfolding boot
boot-Inv opened = record {
  used_watched = λ i h. absurd (omega arith);
  watched_used = λ f i m h. absurd (cc h);
  status_bit = λ i. inl refl;
}

listening :
    (ev : Event) (lfd now : ℕ)
    → let e = record (eventset ev lfd acceptconn (some max_events) now) {
      events = reading;
      status = 1;
    } in
      (e.fd ≡ lfd) × (e.status ≡ 1) × Mode max_events e
unfolding eventset
listening ev lfd now = (refl, refl, inl (refl, refl, refl))

start-Inv :
    (opened : ℕ → Bool) (lfd now : ℕ)
    → opened lfd ≡ false
    → Inv (initlistensocket lfd now (boot opened))
unfolding initlistensocket boot
start-Inv opened lfd now h =
    let r1 = record (boot opened) { opened = update opened lfd true } in
    let is_open = update_self opened lfd true in
    let (at, watch, same, tr, other) =
      eventadd-Retargets r1 max_events lfd now acceptconn (some max_events) blank reading refl
        is_open in
    let (fd, st, mode) = listening blank lfd now in
    enlist-Inv r1 _ max_events lfd _ (opened-Inv (boot opened) lfd (boot-Inv opened) h) is_open refl
      refl at other watch same fd st mode

some_inj : {a b : Reactor} → some a ≡ some b → a ≡ b
some_inj q = cc

Reach-Inv : {s r : Reactor} → Inv s → Reach s r → Inv r
Reach-Inv v here = v
Reach-Inv v (next path (serve f m e first second w fresh fits run)) =
    let u = Reach-Inv v path in
    let (r1, run1, v1) =
      dispatch_step e first second _ u (u.watched_used f e.slot m w).0 fresh fits in
    subst Inv (some_inj (sym run1 ∙ run)) v1

-- In every state that the server reaches, as long as each recv brings fewer than 4096 bytes, a
-- descriptor is in the epoll set exactly if a slot in use holds it, with that slot's events and
-- pointer; the slot's callback fits its events; and every ready entry is served without a null
-- callback and without a write behind a buffer.
pub reach_serves :
    (opened : ℕ → Bool) (lfd now : ℕ) (r : Reactor) (f : ℕ) (m : Interest) (e : Ready)
    (first second : Input)
    → opened lfd ≡ false
    → Reach (initlistensocket lfd now (boot opened)) r
    → r.watch f ≡ some (m, e.slot)
    → IsFresh r first
    → Fits first.received
    → Inv r × Served (dispatch e first second r)
reach_serves opened lfd now r f m e first second h path w fresh fits =
    let v = Reach-Inv (start-Inv opened lfd now h) path in
    (v, dispatch_step e first second r v (v.watched_used f e.slot m w).0 fresh fits)

find_free-none :
    (n i : ℕ) (slots : ℕ → Event)
    → ((j : ℕ) → j < i + n → (slots j).status ≡ 1)
    → find_free n slots i ≡ none
unfolding find_free
find_free-none zero i slots h = refl
find_free-none (suc n) i slots h =
    let busy : (slots i).status ≡ 1 = h i (omega arith) in
    rw busy (find_free-none n (i + 1) slots (λ j q. h j (omega arith)))

-- With all 1024 slots in use, a new connection stays open but is put into no slot and not watched.
pub accept_full :
    (r : Reactor) (inp : Input) (cfd : ℕ)
    → Inv r
    → ((i : ℕ) → i < max_events → (r.slots i).status ≡ 1)
    → inp.accepted ≡ some cfd
    → r.opened cfd ≡ false
    → let r' = on_acceptconn inp r in
      (r'.opened cfd ≡ true) × (r'.watch cfd ≡ none) × ((i : ℕ) → r'.slots i ≡ r.slots i)
unfolding on_acceptconn
accept_full r inp cfd v busy e fresh =
    let full = find_free-none max_events 0 r.slots (λ j q. busy j (omega arith)) in
    rw (e, on_acceptconn, full)
      (update_self r.opened cfd true, not_watched r cfd v fresh, λ i. refl)
