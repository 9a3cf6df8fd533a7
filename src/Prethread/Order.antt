-- ===== src/Prethread/Order.antt =====
-- The clients in every order of the threads.
use network.Prelude.{
  ℕ, zero, suc, ◌+◌, ◌<◌, ◌≡◌, ◌≢◌, ◌↔◌, refl, sym, ap, subst, ◌∙◌, inl, inr, none, some, List, [],
  ◌∷◌, ◌++◌, map, append_assoc, arith,
}
use mathlib.Core.List.{map-append}
use network.Prelude.Maps.{update}
use network.Prelude.Tests.{◌==◌, ==_iff, Bool-cases}
use network.Ending.{going, exits}
use network.Ring.{after, contents, steps}
use network.Ring.Laws.{after_below, steps_around, steps_full, steps-suc, contents-put}
use network.Prethread.{maxncli, Server, start, main_round, take_client, finish_client}

-- A thread takes a client only when it has finished the one before.
pub data Step (s : Server) : Server → Type 0 where
  accepts : {s' : Server} (fd : ℕ) → main_round (some fd) s ≡ going s' → Step s s'
  takes : (i : ℕ) → (s.tptr i).client ≡ none → Step s (take_client i s)
  finishes : (i : ℕ) → Step s (finish_client i s)

pub data Reach (clifd : ℕ → ℕ) : Server → Type 0 where
  here : Reach clifd (start clifd)
  next : {s s' : Server} → Reach clifd s → Step s s' → Reach clifd s'

abbrev pub clients : List (ℕ × ℕ) → List ℕ
clients = map (λ x. x.1)

-- n clients wait in the buffer, and those before them were taken.
pub record Waits (n : ℕ) (s : Server) : Type 0 where
  pub few : n < maxncli
  pub inside : s.iget < maxncli
  pub ends : s.iput ≡ steps maxncli s.iget n
  pub in_order : s.accepted ≡ clients s.taken ++ contents maxncli s.clifd s.iget n

going_inj : {a b : Server} → going a ≡ going b → a ≡ b
going_inj e = cc

-- The test of `main` sees whether 31 clients wait.
full_iff : (n : ℕ) (s : Server) → Waits n s → (after maxncli s.iput ≡ s.iget) ↔ (n ≡ 31)
full_iff n s v =
    let next_put : after maxncli s.iput ≡ steps maxncli s.iget (suc n) =
      ap (after maxncli) v.ends ∙ sym (steps-suc maxncli s.iget n) in
    (
      (λ e. elim (steps_around maxncli s.iget (suc n) v.inside v.few (sym next_put ∙ e)) [
        | inl q ↦ absurd (omega (arith, q))
        | inr q ↦ omega (arith, q)
      ]),
      (λ e. next_put ∙ ap (steps maxncli s.iget) (ap suc e) ∙ steps_full maxncli s.iget v.inside),
    )

accepts_Waits :
    (n fd : ℕ) (s s' : Server) → Waits n s → main_round (some fd) s ≡ going s' → Waits (suc n) s'
unfolding main_round
accepts_Waits n fd s s' v run = elim (Bool-cases (after maxncli s.iput == s.iget)) [
  | inl full ↦ absurd (cc (rw full at run))
  | inr free ↦
      let room : n ≢ 31 = λ q. absurd (cc (free, (==_iff _ _).1 ((full_iff n s v).1 q))) in
      let put : contents maxncli (update s.clifd s.iput fd) s.iget (suc n)
          ≡ contents maxncli s.clifd s.iget n ++ (fd ∷ []) =
        subst
          (λ k.
            contents maxncli (update s.clifd k fd) s.iget (suc n)
            ≡ contents maxncli s.clifd s.iget n ++ (fd ∷ []))
          (sym v.ends) (contents-put maxncli s.clifd fd s.iget n v.inside v.few) in
      subst (Waits (suc n)) (going_inj (rw free at run)) (record {
        few = omega (arith, v.few, room);
        inside = v.inside;
        ends = ap (after maxncli) v.ends ∙ sym (steps-suc maxncli s.iget n);
        in_order =
            ap (λ l. l ++ (fd ∷ [])) v.in_order
            ∙ append_assoc (clients s.taken) (contents maxncli s.clifd s.iget n) (fd ∷ [])
            ∙ ap (λ l. clients s.taken ++ l) (sym put);
      })
]

-- One client less waits.
taken_Waits :
    (n i : ℕ) (s : Server)
    → Waits n s
    → n ≢ 0
    → (m : ℕ) × Waits m (record s {
      iget = after maxncli s.iget;
      tptr =
          update s.tptr i
            (record { thread_count = (s.tptr i).thread_count + 1; client = some (s.clifd s.iget) });
      taken = s.taken ++ ((i, s.clifd s.iget) ∷ []);
    })
unfolding contents steps
taken_Waits zero i s v h = absurd (h refl)
taken_Waits (suc m) i s v h =
    let fd = s.clifd s.iget in
    let rest = contents maxncli s.clifd (after maxncli s.iget) m in
    (
      m,
      record {
        few = omega (arith, v.few);
        inside = after_below maxncli s.iget v.inside;
        ends = v.ends;
        in_order =
            v.in_order
            ∙ sym (append_assoc (clients s.taken) (fd ∷ []) rest)
            ∙ ap (λ l. l ++ rest) (sym (map-append (λ (x : ℕ × ℕ). x.1) s.taken ((i, fd) ∷ [])));
      },
    )

empty_buffer : (n : ℕ) (s : Server) → Waits n s → n ≡ 0 → s.iget ≡ s.iput
unfolding steps
empty_buffer n s v q = sym (v.ends ∙ ap (steps maxncli s.iget) q)

takes_Waits : (n i : ℕ) (s : Server) → Waits n s → (m : ℕ) × Waits m (take_client i s)
unfolding take_client
takes_Waits n i s v = elim (Bool-cases (s.iget == s.iput)) [
  | inl e ↦ (n, rw e v)
  | inr e ↦
      rw e (
        taken_Waits n i s v (λ q. absurd (cc (e, (==_iff s.iget s.iput).1 (empty_buffer n s v q)))))
]

Reach_Waits : (clifd : ℕ → ℕ) (s : Server) → Reach clifd s → (n : ℕ) × Waits n s
unfolding start steps contents finish_client
Reach_Waits clifd s here =
    (0, record { few = omega arith; inside = omega arith; ends = refl; in_order = refl })
Reach_Waits clifd s (next {s = before} path (accepts fd run)) =
    let (n, v) = Reach_Waits clifd before path in (suc n, accepts_Waits n fd before s v run)
Reach_Waits clifd s (next {s = before} path (takes i idle)) =
    let (n, v) = Reach_Waits clifd before path in takes_Waits n i before v
Reach_Waits clifd s (next {s = before} path (finishes i)) =
    let (n, v) = Reach_Waits clifd before path in
    (n, record { few = v.few; inside = v.inside; ends = v.ends; in_order = v.in_order })

-- In every order of the rounds of main of serv08.c and of the steps of its threads, the clients
-- that were accepted are those that threads took, each once and in the order of the connections,
-- and then those that wait in the buffer, at most 31; and the next client that connects makes main
-- exit exactly where 31 wait.
pub clients_in_order :
    (clifd : ℕ → ℕ) (s : Server) (fd : ℕ)
    → Reach clifd s
    → (n : ℕ) × (s.accepted ≡ clients s.taken ++ contents maxncli s.clifd s.iget n)
      × (n < maxncli)
      × ((main_round (some fd) s ≡ exits) ↔ (n ≡ 31))
unfolding main_round
clients_in_order clifd s fd path =
    let (n, v) = Reach_Waits clifd s path in
    let full = full_iff n s v in
    (
      n,
      v.in_order,
      v.few,
      elim (Bool-cases (after maxncli s.iput == s.iget)) [
        | inl e ↦ ((λ q. full.0 ((==_iff _ _).0 e)), (λ q. rw e))
        | inr e ↦
            ((λ q. absurd (cc (rw e at q))), (λ q. absurd (cc (e, (==_iff _ _).1 (full.1 q)))))
      ],
    )
