-- ===== src/Reactor/Accept.antt =====
-- `acceptconn`: its search for a slot, and the table it leaves.
use network.Prelude.Maps.{update, update_self}
use network.Prelude.{
  ℕ, zero, suc, ◌+◌, ◌<◌, ◌≡◌, refl, sym, ◌∙◌, ap, inl, inr, true, false, some, arith,
}
use network.Prelude.Tests.{◌==◌, ==_iff, Bool-cases, Option-cases}
use network.Reactor.{
  Event, reading, recvdata, Reactor, max_events, eventset, on_acceptconn, find_free, Input,
}
use network.Reactor.Table.{eventadd-Retargets}
use network.Reactor.Invariant.{Inv, Mode, opened-Inv, not_watched, enlist-Inv}

enlisted_fields :
    (ev : Event) (cfd i now : ℕ)
    → i < max_events
    → let e = record (eventset ev cfd recvdata (some i) now) { events = reading; status = 1 } in
      (e.fd ≡ cfd) × (e.status ≡ 1) × Mode i e
unfolding eventset
enlisted_fields ev cfd i now h = (refl, refl, inr (h, refl, inl (refl, refl)))

-- The search for a slot stops at a free one within its range.
pub find_free_lem :
    (n i j : ℕ) (slots : ℕ → Event)
    → find_free n slots i ≡ some j
    → (j < i + n) × ((slots j).status ≡ 0)
unfolding find_free
find_free_lem zero i j slots e = absurd (cc e)
find_free_lem (suc n) i j slots e = elim (Bool-cases ((slots i).status == 0)) [
  | inl z ↦
      let here : i ≡ j = some_inj (rw z at e) in
      (omega arith, ap (λ k. (slots k).status) (sym here) ∙ (==_iff (slots i).status 0).0 z)
  | inr nz ↦
      let rest = find_free_lem n (i + 1) j slots (rw nz at e) in (omega (arith, rest.0), rest.1)
]
  where
    some_inj : {a b : ℕ} → some a ≡ some b → a ≡ b
    some_inj q = cc

-- `accept` returns a descriptor that was not open.
abbrev pub IsFresh : Reactor → Input → Type 0
IsFresh r inp = (f : ℕ) → inp.accepted ≡ some f → r.opened f ≡ false

pub accept_step : (r : Reactor) (inp : Input) → Inv r → IsFresh r inp → Inv (on_acceptconn inp r)
unfolding on_acceptconn
accept_step r inp v fresh = elim (Option-cases inp.accepted) [
  | inl e ↦ rw (e, on_acceptconn) v
  | inr (cfd, e) ↦
      let r1 = record r { opened = update r.opened cfd true } in
      let v1 = opened-Inv r cfd v (fresh cfd e) in
      elim (Option-cases (find_free max_events r.slots 0)) [
        | inl full ↦ rw (e, on_acceptconn, full) v1
        | inr (i, found) ↦
            let (room, free) = find_free_lem max_events 0 i r.slots found in
            elim (Bool-cases inp.nonblocking) [
              | inr bad ↦ rw (e, on_acceptconn, found, bad) v1
              | inl good ↦
                  rw (e, on_acceptconn, found, good)
                    (let is_open = update_self r.opened cfd true in
                      let unwatched = not_watched r cfd v (fresh cfd e) in
                      let (at, watch, same, tr, other) =
                        eventadd-Retargets r1 i cfd inp.now recvdata (some i) (r.slots i) reading
                          unwatched is_open in
                      let (fd, st, mode) = enlisted_fields (r.slots i) cfd i inp.now room in
                      enlist-Inv r1 _ i cfd _ v1 is_open unwatched free at other watch same fd st
                        mode)
            ]
      ]
]

-- `acceptconn` writes to a free slot only.
pub accept_keeps :
    (r : Reactor) (inp : Input) (j : ℕ)
    → Inv r
    → IsFresh r inp
    → (r.slots j).status ≡ 1
    → (on_acceptconn inp r).slots j ≡ r.slots j
unfolding on_acceptconn
accept_keeps r inp j v fresh used = elim (Option-cases inp.accepted) [
  | inl e ↦ rw (e, on_acceptconn)
  | inr (cfd, e) ↦
      let r1 = record r { opened = update r.opened cfd true } in
      elim (Option-cases (find_free max_events r.slots 0)) [
        | inl full ↦ rw (e, on_acceptconn, full)
        | inr (i, found) ↦
            let (room, free) = find_free_lem max_events 0 i r.slots found in
            elim (Bool-cases inp.nonblocking) [
              | inr bad ↦ rw (e, on_acceptconn, found, bad)
              | inl good ↦
                  let (at, watch, same, tr, other) =
                    eventadd-Retargets r1 i cfd inp.now recvdata (some i) (r.slots i) reading
                      (not_watched r cfd v (fresh cfd e)) (update_self r.opened cfd true) in
                  rw (e, on_acceptconn, found, good)
                    (other j
                      (λ q. absurd (omega (arith, ap (λ k. (r.slots k).status) q, free, used))))
            ]
      ]
]
