-- ===== src/Framing/Programs/Clients.antt =====
-- Several clients of serve.c at once: what each of them leads to, whatever the order of the entries.
use network.Prelude.{
  ℕ, suc, ◌+◌, ◌≡◌, ◌≢◌, refl, sym, ap, ◌∙◌, ◌⊎◌, inl, inr, Bool, false, none, List, [], ◌∷◌, ◌++◌,
  map, append-nil, append_assoc, arith, subst,
}
use network.Prelude.Maps.{update, update_self, update_ne, ℕ-cases}
use network.Prelude.Tests.{◌==◌, ==_iff, Bool-cases, if◌then◌else◌}
use network.Prelude.Lists.{All}
use network.Posix.{Socket}
use network.Run.{Run, done, undefined, unfinished, ◌>>=◌}
use network.Framing.Programs.{
  unwatch, Served, printed, removed, serve_client, serve_rounds, Entry, Server, serve_fd,
  serve_entry, serve_entries,
}

Run-cases {ℓ} :
    {A : Type ℓ} (r : Run A) → ((a : A) × (r ≡ done a)) ⊎ ((r ≡ undefined) ⊎ (r ≡ unfinished))
Run-cases (done a) = inl (a, refl)
Run-cases undefined = inr (inl refl)
Run-cases unfinished = inr (inr refl)

done_injective {ℓ} : {A : Type ℓ} {a b : A} → done a ≡ done b → a ≡ b
done_injective q = cc

-- How often `f` is in a list.
unfoldable pub times : ℕ → List ℕ → ℕ
times f [] = 0
times f (g ∷ gs) = (if g == f then 1 else 0) + times f gs

-- What the client `f` led to.
pub results_of : ℕ → List (ℕ × Served) → List Served
results_of f [] = []
results_of f ((g, r) ∷ rs) = if g == f then r ∷ results_of f rs else results_of f rs

results_of-append :
    (f : ℕ) (xs ys : List (ℕ × Served))
    → results_of f (xs ++ ys) ≡ results_of f xs ++ results_of f ys
unfolding results_of
results_of-append f [] ys = refl
results_of-append f ((g, r) ∷ xs) ys = elim (Bool-cases (g == f)) [
  | inl e ↦ rw e (ap (λ l. r ∷ l) (results_of-append f xs ys))
  | inr e ↦ rw e (results_of-append f xs ys)
]

times_self : (f : ℕ) (fds : List ℕ) → times f (f ∷ fds) ≡ suc (times f fds)
unfolding times
times_self f fds = rw ((==_iff f f).1 refl) (omega arith)

pub times_other : (f g : ℕ) (fds : List ℕ) → f ≢ g → times g (f ∷ fds) ≡ times g fds
unfolding times
times_other f g fds h = elim (Bool-cases (f == g)) [
  | inl e ↦ absurd (h ((==_iff f g).0 e))
  | inr e ↦ rw e (omega arith)
]

one_result :
    (f g : ℕ) (r : Served) (rest : List Served) (outs : ℕ → List Served)
    → outs f ≡ r ∷ rest
    → results_of g ((f, r) ∷ []) ++ update outs f rest g ≡ outs g
unfolding results_of
one_result f g r rest outs split = elim (ℕ-cases f g) [
  | inl e ↦
      subst (λ h. results_of h ((f, r) ∷ []) ++ update outs f rest h ≡ outs h) e
        (rw ((==_iff f f).1 refl, update_self outs f rest) (sym split))
  | inr e ↦ elim (Bool-cases (f == g)) [
    | inl q ↦ absurd (e ((==_iff f g).0 q))
    | inr q ↦ rw (q, update_ne outs f g rest e)
  ]
]

-- Whether a client stays in the epoll set, if `b` tells whether it was in it: until it is removed.
unfoldable pub stays : List Served → Bool → Bool
stays [] b = b
stays (printed m ∷ l) b = stays l b
stays (removed ∷ l) b = stays l false

module _ (k : Socket) (malloc : ℕ → Bool) where
  open k use {World}

  stays-unwatch :
      (f g : ℕ) (r : Served) (rest : List Served) (outs : ℕ → List Served) (watch : ℕ → Bool)
      → outs f ≡ r ∷ rest
      → stays (update outs f rest g) (unwatch k malloc r f watch g) ≡ stays (outs g) (watch g)
  unfolding unwatch stays
  stays-unwatch f g (printed m) rest outs watch split = elim (ℕ-cases f g) [
    | inl e ↦
        subst (λ h. stays (update outs f rest h) (watch h) ≡ stays (outs h) (watch h)) e
          (rw (update_self outs f rest, split) refl)
    | inr e ↦ ap (λ l. stays l (watch g)) (update_ne outs f g rest e)
  ]
  stays-unwatch f g removed rest outs watch split = elim (ℕ-cases f g) [
    | inl e ↦
        subst
          (λ h. stays (update outs f rest h) (update watch f false h) ≡ stays (outs h) (watch h)) e
          (rw (update_self outs f rest, update_self watch f false, split) refl)
    | inr e ↦ rw (update_ne outs f g rest e, update_ne watch f g false e) refl
  ]

  two_steps :
      (n : ℕ) (w : World) (a : Served × World) (b : List Served × World)
      → serve_client k malloc w ≡ done a
      → serve_rounds k malloc n a.1 ≡ done b
      → serve_rounds k malloc (suc n) w ≡ done (a.0 ∷ b.0, b.1)
  unfolding serve_rounds
  two_steps n w a b e q = rw (e, q)

  stops_first :
      (n : ℕ) (w : World) (r : Run (Served × World))
      → serve_client k malloc w ≡ r
      → serve_rounds k malloc (suc n) w
        ≡ (r >>= λ a. serve_rounds k malloc n a.1 >>= λ b. done (a.0 ∷ b.0, b.1))
  unfolding serve_rounds
  stops_first n w r e =
      ap (λ o. o >>= λ a. serve_rounds k malloc n a.1 >>= λ b. done (a.0 ∷ b.0, b.1)) e

  -- A run of n + 1 rounds is a round and a run of n.
  first_round :
      (n : ℕ) (w w'' : World) (out : List Served)
      → serve_rounds k malloc (suc n) w ≡ done (out, w'')
      → (r : Served) × (w' : World) × (rest : List Served) × (serve_client k malloc w
          ≡ done (r, w'))
        × (serve_rounds k malloc n w' ≡ done (rest, w''))
        × (out ≡ r ∷ rest)
  first_round n w w'' out h = elim (Run-cases (serve_client k malloc w)) [
    | inr (inl e) ↦ absurd (cc (sym h ∙ stops_first n w undefined e))
    | inr (inr e) ↦ absurd (cc (sym h ∙ stops_first n w unfinished e))
    | inl ((r, w'), e) ↦ elim (Run-cases (serve_rounds k malloc n w')) [
      | inr (inl q) ↦ absurd (
          cc
            (sym h ∙ stops_first n w (done (r, w')) e ∙ ap (λ o. o >>= λ b. done (r ∷ b.0, b.1)) q))
      | inr (inr q) ↦ absurd (
          cc
            (sym h ∙ stops_first n w (done (r, w')) e ∙ ap (λ o. o >>= λ b. done (r ∷ b.0, b.1)) q))
      | inl ((rest, w2), q) ↦
          let both = done_injective (sym h ∙ two_steps n w (r, w') (rest, w2) e q) in
          (
            r,
            w',
            rest,
            e,
            q ∙ ap (λ v. done (rest, v)) (sym (ap (λ x. x.1) both)),
            ap (λ x. x.0) both,
          )
    ]
  ]

  -- An entry for the client `f`.
  abbrev pub ready : ℕ → Entry k malloc
  ready f = record { fd = f; accepted = none }

  at_client :
      (listenfd f : ℕ) (s : Server k malloc)
      → f ≢ listenfd
      → serve_entry k malloc listenfd (ready f) s ≡ serve_fd k malloc f s
  unfolding serve_entry
  at_client listenfd f s apart = elim (Bool-cases (f == listenfd)) [
    | inl e ↦ absurd (apart ((==_iff f listenfd).0 e))
    | inr e ↦ rw e
  ]

  -- The state behind the result `r` of the client `f`.
  abbrev after : ℕ → Served → World → Server k malloc → Server k malloc
  after f r w s = record s {
    watch = unwatch k malloc r f s.watch;
    worlds = update s.worlds f w;
    out = s.out ++ ((f, r) ∷ []);
  }

  serve_ready :
      (listenfd f : ℕ) (s : Server k malloc) (r : Served) (w : World)
      → f ≢ listenfd
      → serve_client k malloc (s.worlds f) ≡ done (r, w)
      → serve_entry k malloc listenfd (ready f) s ≡ done (after f r w s)
  unfolding serve_fd
  serve_ready listenfd f s r w apart e = at_client listenfd f s apart ∙ rw e

  -- What is asked of the clients: alone, each would come to these results in its rounds.
  abbrev Alone : List ℕ → Server k malloc → (ℕ → List Served) → (ℕ → World) → Type 0
  Alone fds s outs ends =
      (f : ℕ) → serve_rounds k malloc (times f fds) (s.worlds f) ≡ done (outs f, ends f)

  Alone-rest :
      (f : ℕ) (fds : List ℕ) (s : Server k malloc) (outs : ℕ → List Served) (ends : ℕ → World)
      (r : Served) (w : World) (rest : List Served)
      → Alone (f ∷ fds) s outs ends
      → serve_rounds k malloc (times f fds) w ≡ done (rest, ends f)
      → Alone fds (after f r w s) (update outs f rest) ends
  Alone-rest f fds s outs ends r w rest alone run g = elim (ℕ-cases f g) [
    | inl e ↦
        subst
          (λ h.
            serve_rounds k malloc (times h fds) (update s.worlds f w h)
            ≡ done (update outs f rest h, ends h))
          e
          (ap (serve_rounds k malloc (times f fds)) (update_self s.worlds f w)
            ∙ run
            ∙ ap (λ l. done (l, ends f)) (sym (update_self outs f rest)))
    | inr e ↦
        ap (serve_rounds k malloc (times g fds)) (update_ne s.worlds f g w e)
        ∙ ap (λ n. serve_rounds k malloc n (s.worlds g)) (sym (times_other f g fds e))
        ∙ alone g
        ∙ ap (λ l. done (l, ends g)) (sym (update_ne outs f g rest e))
  ]

  -- In a batch of entries of ready clients, in any order and with any repetitions, where each
  -- client alone would come through its rounds, serve.c handles them all, and each client is left
  -- with the same connection, leads to the same messages and removals as in its rounds alone, and
  -- is on the epoll set afterwards exactly if it was before and none of its rounds removed it,
  -- whatever the others send.
  pub clients_apart :
      (listenfd : ℕ) (fds : List ℕ) (s : Server k malloc) (outs : ℕ → List Served)
      (ends : ℕ → World)
      → All (λ f. f ≢ listenfd) fds
      → ((f : ℕ) → serve_rounds k malloc (times f fds) (s.worlds f) ≡ done (outs f, ends f))
      → (s' : Server k malloc) × (serve_entries k malloc listenfd (map ready fds) s ≡ done s')
        × ((f : ℕ)
            → (s'.worlds f ≡ ends f)
              × (results_of f s'.out ≡ results_of f s.out ++ outs f)
              × (s'.watch f ≡ stays (outs f) (s.watch f)))
  unfolding serve_entries serve_rounds times stays
  clients_apart listenfd [] s outs ends apart alone = (
    s,
    refl,
    (λ f.
        let e = done_injective (alone f) in
        (
          ap (λ x. x.1) e,
          sym (append-nil _) ∙ ap (λ x. results_of f s.out ++ x.0) e,
          ap (λ x. stays x.0 (s.watch f)) e,
        )),
  )
  clients_apart listenfd (f ∷ fds) s outs ends apart alone =
      let (r, w, rest, served, later, split) =
        first_round (times f fds) (s.worlds f) (ends f) (outs f)
          (ap (λ n. serve_rounds k malloc n (s.worlds f)) (sym (times_self f fds)) ∙ alone f) in
      let (s', run, ends_at) =
        clients_apart listenfd fds (after f r w s) (update outs f rest) ends apart.1
          (Alone-rest f fds s outs ends r w rest alone later) in
      (
        s',
        rw (serve_ready listenfd f s r w apart.0 served) run,
        (λ g. (
          (ends_at g).0,
          (ends_at g).1
              ∙ ap (λ l. l ++ update outs f rest g) (results_of-append g s.out ((f, r) ∷ []))
              ∙ append_assoc (results_of g s.out) (results_of g ((f, r) ∷ []))
                  (update outs f rest g)
              ∙ ap (λ l. results_of g s.out ++ l) (one_result f g r rest outs split),
          (ends_at g).2 ∙ stays-unwatch f g r rest outs s.watch split,
        )),
      )
