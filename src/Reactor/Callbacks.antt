-- ===== src/Reactor/Callbacks.antt =====
-- The table that `recvdata` and `senddata` leave.
use network.Prelude.{
  ℕ, zero, suc, ◌≤◌, ◌<◌, ◌≡◌, refl, ◌⊎◌, inl, inr, true, false, some, none, List, [], ◌∷◌, arith,
}
use network.Prelude.Lists.{length}
use network.Prelude.Tests.{leb}
use network.Posix.{Answer, got, failed, Sent, sent, refused}
use network.Reactor.{
  Event, reading, Reactor, max_events, buflen, eventset, terminate, overruns, receive, on_recvdata,
  on_senddata,
}
use network.Reactor.Table.{
  IsActive, Retires, loaded, rearmed, receive_lem, on_senddata_lem, hang_up,
}
use network.Reactor.Invariant.{Inv, Mode, Retargets-Inv, Retires-Inv}

-- `recv` leaves room for the zero in `buf`.
abbrev pub Fits : Answer → Type 0
Fits (got bs) = length bs < buflen
Fits (failed e) = Unit

pub on_recvdata_within :
    (fd i : ℕ) (answer : Answer) (now : ℕ) (r : Reactor)
    → Fits answer
    → on_recvdata fd i answer now r ≡ some (receive fd i answer now r)
unfolding on_recvdata overruns
on_recvdata_within fd i (failed e) now r fits = refl
on_recvdata_within fd i (got bs) now r fits =
    let room : leb buflen (length bs) ≡ false = ground arith in rw room

-- A `recv` that fills `buf` leads to a zero behind it.
on_recvdata_beyond :
    (fd i : ℕ) (bs : List ℕ) (now : ℕ) (r : Reactor)
    → buflen ≤ length bs
    → on_recvdata fd i (got bs) now r ≡ none
unfolding on_recvdata overruns
on_recvdata_beyond fd i bs now r full =
    let filled : leb buflen (length bs) ≡ true = ground arith in rw filled

loaded_fields :
    (ev : Event) (i now b : ℕ) (bs : List ℕ)
    → length (b ∷ bs) < buflen
    → i < max_events
    → let e = loaded ev i (b ∷ bs) now in (e.fd ≡ ev.fd) × (e.status ≡ 1) × Mode i e
unfolding loaded eventset terminate
loaded_fields ev i now b bs fits h =
    (refl, refl, inr (h, refl, inr (refl, refl, ground arith, ground arith)))

rearmed_fields :
    (ev : Event) (i now : ℕ)
    → i < max_events
    → let e = rearmed ev i now in (e.fd ≡ ev.fd) × (e.status ≡ 1) × Mode i e
unfolding rearmed eventset
rearmed_fields ev i now h = (refl, refl, inr (h, refl, inl (refl, refl)))

module _ (r : Reactor) (i now : ℕ) (v : Inv r) (used : (r.slots i).status ≡ 1)
    (client : i < max_events) where
  pub active : IsActive r i
  active = record { used = used; is_open = (v.used_watched i used).1 }

  pub closed :
      (r.slots i).events ≡ reading
      → (r' : Reactor) → Retires r r' i
      → Inv r' × (((r'.slots i).status ≡ 1) ⊎ ((r'.slots i).events ≡ reading))
  closed m r' t = (Retires-Inv r r' i v used t, inr (rw t.slot_at m))

  pub recv_step :
      (answer : Answer)
      → Fits answer
      → (r.slots i).events ≡ reading
      → let r' = receive (r.slots i).fd i answer now r in
        Inv r' × (((r'.slots i).status ≡ 1) ⊎ ((r'.slots i).events ≡ reading))
  unfolding receive
  recv_step (failed e) fits m = closed m _ (hang_up r i used)
  recv_step (got []) fits m = closed m _ (hang_up r i used)
  recv_step (got (b ∷ bs)) fits m =
      let (t, tr) = receive_lem r i now b bs active in
      let (fd, st, mode) = loaded_fields (r.slots i) i now b bs fits client in
      (Retargets-Inv r _ i _ v used t fd st mode, inl (rw t.slot_at st))

  pub send_step : (answer : Sent) → Inv (on_senddata (r.slots i).fd i answer now r)
  unfolding on_senddata
  send_step (refused e) = Retires-Inv r _ i v used (hang_up r i used)
  send_step (sent zero) = Retires-Inv r _ i v used (hang_up r i used)
  send_step (sent (suc n)) =
      let (t, tr) = on_senddata_lem r i now n active in
      let (fd, st, mode) = rearmed_fields (r.slots i) i now client in
      Retargets-Inv r _ i _ v used t fd st mode
