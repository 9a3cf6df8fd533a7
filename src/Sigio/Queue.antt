-- ===== src/Sigio/Queue.antt =====
-- What the queue holds at each place of the main loop.
use network.Prelude.{
  ℕ, suc, ◌-◌, ◌≤◌, ◌<◌, ◌≡◌, ◌≢◌, refl, sym, ap, ap₂, subst, ◌∙◌, ◌⊎◌, inl, inr, List, [], ◌∷◌,
  ◌++◌, map, arith,
}
use mathlib.Core.List.{map-append}
use network.Prelude.Lists.{length, drop, take-append}
use network.Prelude.Maps.{update}
use network.Ring.{after, contents, steps}
use network.Ring.Laws.{steps_below, contents-put, steps-suc}
use network.Sigio.{
  qsize, Datagram, Slot, Place, at_top, unblocked, behind_send, behind_get, Server, cut, outgoing,
  receive, following, store,
}

pub following-after : (i : ℕ) → i < qsize → following i ≡ after qsize i
unfolding following after
following-after i h = ground arith

-- The first slot with a datagram that is not yet echoed, and how many there are.
unfoldable pub front : Server → ℕ
front s = elim s.place [
  | at_top ↦ s.iget
  | unblocked ↦ s.iget
  | behind_send ↦ after qsize s.iget
  | behind_get ↦ s.iget
]

unfoldable pub held : Server → ℕ
held s = elim s.place [
  | at_top ↦ s.nqueue
  | unblocked ↦ s.nqueue
  | behind_send ↦ s.nqueue - 1
  | behind_get ↦ s.nqueue - 1
]

-- The datagrams that wait.
unfoldable pub waiting : Server → List Datagram
waiting s = map outgoing (contents qsize s.dg (front s) (held s))

-- The indices are inside the table, the next slot to fill is behind those that wait, and the main loop
-- has something to send where it is on the way.
pub record Inv (s : Server) : Type 0 where
  pub front_inside : front s < qsize
  pub iget_inside : s.iget < qsize
  pub few : s.nqueue ≤ qsize
  pub ends : s.iput ≡ steps qsize (front s) (held s)
  pub some_left : s.place ≢ at_top → 0 < s.nqueue

outgoing-receive : (d : Datagram) (p : Slot) → outgoing (receive d p) ≡ cut d
unfolding receive cut outgoing
outgoing-receive d p = rw (take-append (cut d).text (drop (length (cut d).text) p.dg_data))

Place-cases :
    (x : Place) → (x ≡ at_top) ⊎ ((x ≡ unblocked) ⊎ ((x ≡ behind_send) ⊎ (x ≡ behind_get)))
Place-cases at_top = inl refl
Place-cases unblocked = inr (inl refl)
Place-cases behind_send = inr (inr (inl refl))
Place-cases behind_get = inr (inr (inr refl))

front-store : (d : Datagram) (s : Server) → front (store d s) ≡ front s
unfolding front store
front-store d s = refl

held-store : (d : Datagram) (s : Server) → Inv s → held (store d s) ≡ suc (held s)
unfolding held store
held-store d s v = elim (Place-cases s.place) [
  | inl e ↦ rw e (omega arith)
  | inr (inl e) ↦ rw e (omega arith)
  | inr (inr (inl e)) ↦ rw e (omega (arith, v.some_left (λ q. cc (e, q))))
  | inr (inr (inr e)) ↦ rw e (omega (arith, v.some_left (λ q. cc (e, q))))
]

pub held_small : (s : Server) → held s ≤ s.nqueue
unfolding held
held_small s = elim (Place-cases s.place) [
  | inl e ↦ rw e (omega arith)
  | inr (inl e) ↦ rw e (omega arith)
  | inr (inr (inl e)) ↦ rw e (omega arith)
  | inr (inr (inr e)) ↦ rw e (omega arith)
]

dg-store :
    (d : Datagram) (s : Server) → (store d s).dg ≡ update s.dg s.iput (receive d (s.dg s.iput))
unfolding store
dg-store d s = refl

-- A datagram that is stored waits behind the others.
pub waiting-store :
    (d : Datagram) (s : Server)
    → Inv s
    → s.nqueue < qsize
    → waiting (store d s) ≡ waiting s ++ (cut d ∷ [])
unfolding waiting
waiting-store d s v h =
    let new : Slot = receive d (s.dg s.iput) in
    let put : contents qsize (update s.dg s.iput new) (front s) (suc (held s))
        ≡ contents qsize s.dg (front s) (held s) ++ (new ∷ []) =
      subst
        (λ k.
          contents qsize (update s.dg k new) (front s) (suc (held s))
          ≡ contents qsize s.dg (front s) (held s) ++ (new ∷ []))
        (sym v.ends)
        (contents-put qsize s.dg new (front s) (held s) v.front_inside
          (omega (arith, held_small s, h))) in
    ap (map outgoing) (
      ap₂ (contents qsize (store d s).dg) (front-store d s) (held-store d s v)
      ∙ ap (λ f. contents qsize f (front s) (suc (held s))) (dg-store d s)
      ∙ put)
    ∙ map-append outgoing (contents qsize s.dg (front s) (held s)) (new ∷ [])
    ∙ ap (λ y. map outgoing (contents qsize s.dg (front s) (held s)) ++ (y ∷ []))
        (outgoing-receive d (s.dg s.iput))

pub store-Inv : (d : Datagram) (s : Server) → Inv s → s.nqueue < qsize → Inv (store d s)
unfolding store
store-Inv d s v h = record {
  front_inside = subst (λ k. k < qsize) (sym (front-store d s)) v.front_inside;
  iget_inside = v.iget_inside;
  few = omega (arith, h);
  ends =
      following-after s.iput
        (subst (λ k. k < qsize) (sym v.ends) (steps_below qsize (front s) (held s) v.front_inside))
      ∙ ap (after qsize) v.ends
      ∙ sym (steps-suc qsize (front s) (held s))
      ∙ sym (ap₂ (steps qsize) (front-store d s) (held-store d s v));
  some_left = λ q. omega arith;
}
