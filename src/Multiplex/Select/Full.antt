-- ===== src/Multiplex/Select/Full.antt =====
-- The table of select优化.c has a free entry for every client whose descriptor fits into the set.
use network.Prelude.{
  ℕ, zero, suc, ◌<◌, ◌≡◌, sym, ap, ◌∙◌, ◌⊎◌, inl, inr, false, Option, none, some, arith,
}
use network.Prelude.Maps.{ℕ-cases}
use network.Prelude.Pigeons.{pigeonhole}
use network.Prelude.Tests.{Option-cases}
use network.Outcome.{ok}
use network.Multiplex.Select.{Server, Turn, fd_setsize, accept_client}
use network.Multiplex.Select.Rounds.{entered, free_entry_lem, accepted_at}
use network.Multiplex.Select.Table.{Table}

some_free :
    (client : ℕ → Option ℕ) (n : ℕ)
    → ((j : ℕ) × (j < n) × (client j ≡ none)) ⊎ ((j : ℕ) → j < n → (f : ℕ) × (client j ≡ some f))
some_free client zero = inr (λ j h. absurd (omega arith))
some_free client (suc n) = elim (Option-cases (client n)) [
  | inl e ↦ inl (n, omega arith, e)
  | inr (f, e) ↦ elim (some_free client n) [
    | inl (j, h, d) ↦ inl (j, omega arith, d)
    | inr all ↦ inr (λ j h. elim (ℕ-cases n j) [
      | inl q ↦ (f, ap client (sym q) ∙ e)
      | inr q ↦ all j (omega (arith, q, h))
    ])
  ]
]

-- The descriptor in entry i, and the listening one where there is none.
place : ℕ → (ℕ → Option ℕ) → ℕ → ℕ
place listenfd client i = elim (client i) [ none ↦ listenfd | some f ↦ f ]

place_some :
    (listenfd i f : ℕ) (client : ℕ → Option ℕ) → client i ≡ some f → place listenfd client i ≡ f
unfolding place
place_some listenfd i f client e = rw (e, place)

place_none :
    (listenfd i : ℕ) (client : ℕ → Option ℕ) → client i ≡ none → place listenfd client i ≡ listenfd
unfolding place
place_none listenfd i client e = rw (e, place)

place-cases :
    (listenfd n i : ℕ) (client : ℕ → Option ℕ)
    → ((j : ℕ) → j < n → (f : ℕ) × (client j ≡ some f))
    → client n ≡ none
    → i < suc n
    → ((f : ℕ) × (client i ≡ some f) × (place listenfd client i ≡ f))
      ⊎ ((i ≡ n) × (place listenfd client i ≡ listenfd))
place-cases listenfd n i client all end h = elim (ℕ-cases n i) [
  | inl q ↦ inr (sym q, place_none listenfd i client (ap client (sym q) ∙ end))
  | inr q ↦ let (f, e) = all i (omega (arith, q, h)) in inl (f, e, place_some listenfd i f client e)
]

module _ (listenfd : ℕ) (s : Server) (v : Table listenfd s) where
  unused_end : s.client fd_setsize ≡ none
  unused_end = elim (Option-cases (s.client fd_setsize)) [
    | inl e ↦ e
    | inr (f, e) ↦ absurd (omega (arith, v.entry_slot fd_setsize f e, v.slots_fit))
  ]

  places_Apart :
      ((j : ℕ) → j < fd_setsize → (f : ℕ) × (s.client j ≡ some f))
      → (i j : ℕ) → i < suc fd_setsize
      → j < suc fd_setsize
      → place listenfd s.client i ≡ place listenfd s.client j
      → i ≡ j
  places_Apart all i j hi hj q =
      elim (place-cases listenfd fd_setsize i s.client all unused_end hi) [
        | inl (f, e, p) ↦ elim (place-cases listenfd fd_setsize j s.client all unused_end hj) [
          | inl (g, d, r) ↦ v.entry_once i j f e (d ∙ ap some (sym r ∙ sym q ∙ p))
          | inr (d, r) ↦ absurd (v.entry_other i f e (sym p ∙ q ∙ r))
        ]
        | inr (e, p) ↦ elim (place-cases listenfd fd_setsize j s.client all unused_end hj) [
          | inl (g, d, r) ↦ absurd (v.entry_other j g d (sym r ∙ sym q ∙ p))
          | inr (d, r) ↦ e ∙ sym d
        ]
      ]

  places_fit :
      ((j : ℕ) → j < fd_setsize → (f : ℕ) × (s.client j ≡ some f))
      → (i : ℕ) → i < suc fd_setsize
      → place listenfd s.client i < fd_setsize
  places_fit all i h = elim (place-cases listenfd fd_setsize i s.client all unused_end h) [
    | inl (f, e, p) ↦ omega (arith, p, v.set_fits f (v.entry_set i f e))
    | inr (e, p) ↦ omega (arith, p, v.set_fits listenfd v.listens)
  ]

  -- 1024 clients and the listening descriptor do not fit into a set of 1024 descriptors.
  pub has_room : (j : ℕ) × (j < fd_setsize) × (s.client j ≡ none)
  has_room = elim (some_free s.client fd_setsize) [
    | inl r ↦ r
    | inr all ↦ absurd (
        omega (
          arith,
          pigeonhole fd_setsize (suc fd_setsize) (place listenfd s.client) (places_Apart all)
              (places_fit all),
        ))
  ]

  pub accepts :
      (t : Turn) (connfd : ℕ)
      → t.accepted ≡ some connfd
      → connfd < fd_setsize
      → (k : ℕ) × (k < fd_setsize)
        × (s.client k ≡ none)
        × (accept_client t s ≡ ok (entered s k connfd))
  accepts t connfd e fits =
      let (j, low, free) = has_room in
      let (k, found, above, below, unused) =
        free_entry_lem fd_setsize 0 j s.client (omega arith) (omega arith) free in
      (k, omega arith, unused, accepted_at t s connfd k e fits found)

-- Turns in which accept gives only descriptors that are not open.
abbrev pub Fresh : Server → Turn → Type 0
Fresh s t = (f : ℕ) → t.accepted ≡ some f → s.opened f ≡ false
