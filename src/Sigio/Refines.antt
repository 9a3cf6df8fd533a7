-- ===== src/Sigio/Refines.antt =====
-- The server with its handler does what a queue does.
use network.Prelude.{
  ℕ, zero, suc, ◌+◌, ◌<◌, ◌≡◌, refl, sym, ap, subst, ◌∙◌, inl, inr, List, [], ◌∷◌, ◌++◌, map,
  append_assoc, arith,
}
use network.Prelude.Lists.{length}
use network.Prelude.Maps.{update}
use network.Prelude.Tests.{leb, ◌==◌, Bool-cases}
use network.Posix.{eagain}
use network.Ending.{going}
use network.Ring.{after, contents, steps}
use network.Sigio.{qsize, Datagram, Slot, Server, start, cut, outgoing, store, sig_io}
use network.Sigio.Queue.{front, held, waiting, Inv, waiting-store, store-Inv, held_small}
use network.Sigio.Spec.{
  Echo, arrives, Moves, none, then_move, Step, main_goes_on, signal_comes, Reach, here, next, view,
  Goes,
}
use network.Sigio.Main.{advance-Goes}

length-map-contents : (dg : ℕ → Slot) (i n : ℕ) → length (map outgoing (contents qsize dg i n)) ≡ n
unfolding contents
length-map-contents dg i zero = refl
length-map-contents dg i (suc n) = ap suc (length-map-contents dg (after qsize i) n)

Moves-then : (a b c : Echo) → Moves a b → Moves b c → Moves a c
Moves-then a b c m none = m
Moves-then a b c m (then_move n one) = then_move (Moves-then a b _ m n) one

Goes-then : (s s1 s2 : Server) → Goes s s1 → Goes s1 s2 → Goes s s2
unfolding Goes
Goes-then s s1 s2 (v, m, e) (w, n, f) = (w, Moves-then (view s) (view s1) (view s2) m n, f)

length-waiting : (s : Server) → length (waiting s) ≡ held s
unfolding waiting
length-waiting s = length-map-contents s.dg (front s) (held s)

store-Goes :
    (d : Datagram) (s : Server)
    → Inv s
    → (s.arrived ≡ s.echoed ++ waiting s)
    → s.nqueue < qsize
    → Goes s (store d s)
unfolding Goes view store
store-Goes d s v e h =
    let put = waiting-store d s v h in
    (
      store-Inv d s v h,
      subst (λ l. Moves (view s) (record { queue = l; echoed = s.echoed })) (sym put)
          (then_move none (arrives (cut d) (omega (arith, length-waiting s, held_small s, h)))),
      ap (λ l. l ++ (cut d ∷ [])) e
          ∙ append_assoc s.echoed (waiting s) (cut d ∷ [])
          ∙ ap (λ l. s.echoed ++ l) (sym put),
    )

counted_Goes :
    (cntread : ℕ → ℕ) (s : Server)
    → Inv s
    → (s.arrived ≡ s.echoed ++ waiting s)
    → Goes s (record s { cntread = cntread })
unfolding Goes view waiting front held
counted_Goes cntread s v e = (
  record {
    front_inside = v.front_inside;
    iget_inside = v.iget_inside;
    few = v.few;
    ends = v.ends;
    some_left = v.some_left;
  },
  none,
  e,
)

going_inj : {a b : Server} → going a ≡ going b → a ≡ b
going_inj e = cc

sig_io-Goes :
    (errno nread : ℕ) (ds : List Datagram) (s s' : Server)
    → Inv s
    → (s.arrived ≡ s.echoed ++ waiting s)
    → sig_io errno nread ds s ≡ going s'
    → Goes s s'
unfolding sig_io Goes
sig_io-Goes errno nread [] s s' v e run = elim (Bool-cases (leb qsize s.nqueue)) [
  | inl full ↦ absurd (cc (rw full at run))
  | inr free ↦ elim (Bool-cases (errno == eagain)) [
    | inl empty ↦
        subst (Goes s) (going_inj (rw (free, empty) at run))
          (counted_Goes (update s.cntread nread (s.cntread nread + 1)) s v e)
    | inr other ↦ absurd (cc (rw (free, other) at run))
  ]
]
sig_io-Goes errno nread (d ∷ ds) s s' v e run = elim (Bool-cases (leb qsize s.nqueue)) [
  | inl full ↦ absurd (cc (rw full at run))
  | inr free ↦
      let room : s.nqueue < qsize = ground (arith, free) in
      let one = store-Goes d s v e room in
      Goes-then s (store d s) s' one
        (sig_io-Goes errno (nread + 1) ds (store d s) s' one.0 one.2 (rw free at run))
]

start_Inv : (dg : ℕ → Slot) → Inv (start dg)
unfolding start front held steps
start_Inv dg = record {
  front_inside = omega arith;
  iget_inside = omega arith;
  few = omega arith;
  ends = refl;
  some_left = λ q. absurd (q refl);
}

Step_Goes : (s s' : Server) → Step s s' → Inv s → (s.arrived ≡ s.echoed ++ waiting s) → Goes s s'
Step_Goes s s' main_goes_on v e = advance-Goes s v e
Step_Goes s s' (signal_comes errno ds open_ run) v e = sig_io-Goes errno 0 ds s s' v e run

Reach_Inv : (dg : ℕ → Slot) (s : Server) → Reach dg s → Inv s × (s.arrived ≡ s.echoed ++ waiting s)
unfolding start waiting front held Goes contents
Reach_Inv dg s here = (start_Inv dg, refl)
Reach_Inv dg s (next {s = before} path step) =
    let (v, e) = Reach_Inv dg before path in let r = Step_Goes before s step v e in (r.0, r.2)

-- In every state that dgecho01.c reaches, with SIGIO at any place where it is not blocked, each
-- statement of the main loop and each run of the handler does moves of a queue of datagrams that
-- has room for eight and from which the first is echoed, and what arrived is what was echoed and
-- then what is in the queue.
pub dgecho_refines :
    (dg : ℕ → Slot) (s s' : Server)
    → Reach dg s
    → Step s s'
    → Moves (view s) (view s') × (s'.arrived ≡ s'.echoed ++ (view s').queue)
unfolding view Goes
dgecho_refines dg s s' path step =
    let (v, e) = Reach_Inv dg s path in let r = Step_Goes s s' step v e in (r.1, r.2)
