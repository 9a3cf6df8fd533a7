-- ===== src/Prefork/Children.antt =====
-- The parent and its children in every order of their steps.
use network.Prelude.{
  ℕ, zero, suc, ◌+◌, ◌≤◌, ◌<◌, ◌≡◌, ◌≢◌, refl, sym, ap, subst, ◌∙◌, inl, inr, Bool, true, ◌&&◌,
  arith,
}
use network.Prelude.Lists.{length}
use network.Prelude.Int.{ℤ, pos, decreased, increased, is_positive}
use network.Prelude.Maps.{update, update_ne}
use network.Prelude.Counts.{bit, count, count-update, count_same, count_all, count_absent}
use network.Prelude.Tests.{ltb, ltb→lt, Bool-cases, Option-cases}
use network.Ending.{End, going, nothing_found, Safe, Safe-then}
use network.Prefork.{
  Child, Pool, Turn, is_nought, is_ready, start, pass, finish, collect, accept_client, collect_all,
  after_select, round,
}
use network.Prefork.Orderly.{
  IsOrderly, find_ready_lem, and_right, pass-IsOrderly, finish-IsOrderly, is_ready-finish,
  collect-IsOrderly, is_busy, told_kept, update-IsOrderly,
}

module _ (nchildren : ℕ) where
  -- A step of the pool: a child is done with a client, or a round of the parent goes through.
  pub data Step (s : Pool) : Pool → Type 0 where
    child_done : (i : ℕ) → Step s (record s { child = update s.child i (finish (s.child i)) })
    parent_round : {s' : Pool} (t : Turn) → round nchildren t s ≡ going s' → Step s s'

  pub data Reach : Pool → Type 0 where
    here : Reach (start nchildren)
    next : {s s' : Pool} → Reach s → Step s s' → Reach s'

  record Inv (s : Pool) : Type 0 where
    pub available : s.navail ≡ pos (count is_ready nchildren s.child)
    pub orderly : (i : ℕ) → IsOrderly (s.child i)

  -- A client is given to a child, and no pipe changes.
  accept_client-Safe :
      (t : Turn) (s : Pool)
      → Inv s
      → is_positive s.navail ≡ true
      → Safe
          (λ s'. Inv s' × ((i : ℕ) → (s'.child i).told ≡ (s.child i).told))
          (accept_client nchildren t s)
  unfolding Safe accept_client pass
  accept_client-Safe t s v idle = elim (Option-cases t.accepted) [
    | inl e ↦ rw (accept_client, e) tt
    | inr (fd, e) ↦ elim (find_ready_lem nchildren 0 s.child) [
      | inl (run, nobody) ↦ absurd (
          cc (
            v.available
                ∙ ap pos (
                    count_absent is_ready nchildren s.child
                      (λ j q. nobody j (omega arith) (omega arith))),
            idle,
          ))
      | inr (k, run, high, it) ↦ elim (Bool-cases t.written) [
        | inr q ↦ rw (accept_client, e, run, q) tt
        | inl q ↦
            let given : Child = pass fd (s.child k) in
            let moved : count is_ready nchildren (update s.child k given)
                  + bit (is_ready (s.child k))
                ≡ count is_ready nchildren s.child + bit (is_ready given) =
              count-update is_ready nchildren k s.child given (omega arith) in
            let one_less : count is_ready nchildren s.child
                ≡ suc (count is_ready nchildren (update s.child k given)) =
              omega (arith, (rw it at moved)) in
            rw (accept_client, e, run, q)
              (
                record {
                  available = ap decreased (v.available ∙ ap pos one_less);
                  orderly =
                      update-IsOrderly s.child k given v.orderly
                        (pass-IsOrderly fd (s.child k) (v.orderly k) it);
                },
                (λ i. told_kept s.child k given refl i),
              )
      ]
    ]
  ]

  -- A child whose byte is read.
  collected-Inv :
      (i : ℕ) (s : Pool)
      → Inv s
      → i < nchildren
      → 0 < (s.child i).told
      → Inv
          (record s { child = update s.child i (collect (s.child i)); navail = increased s.navail })
  unfolding collect
  collected-Inv i s v h told =
      let free : Child = collect (s.child i) in
      let busy = is_busy (s.child i) (v.orderly i) told in
      let moved : count is_ready nchildren (update s.child i free) + bit (is_ready (s.child i))
          ≡ count is_ready nchildren s.child + bit (is_ready free) =
        count-update is_ready nchildren i s.child free h in
      let one_more : suc (count is_ready nchildren s.child)
          ≡ count is_ready nchildren (update s.child i free) =
        omega (arith, (rw busy at moved)) in
      record {
        available = ap increased v.available ∙ ap pos one_more;
        orderly =
            update-IsOrderly s.child i free v.orderly
              (collect-IsOrderly (s.child i) (v.orderly i) told);
      }

  -- The rest of the loop over the children.
  collect_all-Safe :
      (t : Turn) (set : ℕ → Bool) (n i : ℕ) (nsel : ℤ) (s : Pool)
      → i + n ≤ nchildren
      → Inv s
      → ((j : ℕ) → i ≤ j → set j ≡ true → 0 < (s.child j).told)
      → Safe Inv (collect_all nchildren t set n i nsel s)
  unfolding Safe collect_all
  collect_all-Safe t set zero i nsel s h v told = v
  collect_all-Safe t set (suc n) i nsel s h v told = elim (Bool-cases (set i)) [
    | inr e ↦
        rw (collect_all, e)
          (collect_all-Safe t set n (i + 1) nsel s (omega arith) v (λ j q. told j (omega arith)))
    | inl e ↦ elim (Bool-cases (t.read i)) [
      | inr q ↦ rw (collect_all, e, q) tt
      | inl q ↦
          let free : Child = collect (s.child i) in
          let s1 : Pool = record s { child = update s.child i free; navail = increased s.navail } in
          let v1 = collected-Inv i s v (omega arith) (told i (omega arith) e) in
          let rest =
            collect_all-Safe t set n (i + 1) (decreased nsel) s1 (omega arith) v1 (λ j low on.
              subst (λ c. 0 < c.told) (sym (update_ne s.child i j free (omega arith)))
                (told j (omega arith) on)) in
          elim (Bool-cases (is_nought (decreased nsel))) [
            | inl last ↦ rw (collect_all, e, q, last) v1
            | inr more ↦ rw (collect_all, e, q, more) rest
          ]
    ]
  ]

  after_select-Safe :
      (t : Turn) (nsel : ℤ) (s : Pool) → Inv s → Safe Inv (after_select nchildren t nsel s)
  unfolding Safe after_select
  after_select-Safe t nsel s v =
      let set : ℕ → Bool = λ i. t.reported i && ltb 0 (s.child i).told in
      let all : (s' : Pool)
          → ((i : ℕ) → (s'.child i).told ≡ (s.child i).told)
          → (j : ℕ) → 0 ≤ j
          → set j ≡ true
          → 0 < (s'.child j).told =
        λ s' same j low on.
          subst (λ m. 0 < m) (sym (same j))
            (ltb→lt 0 (s.child j).told (and_right (t.reported j) _ on)) in
      elim (Bool-cases (t.connects && is_positive s.navail)) [
        | inr e ↦
            rw (after_select, e)
              (collect_all-Safe t set nchildren 0 nsel s (omega arith) v (all s (λ i. refl)))
        | inl e ↦
            rw (after_select, e)
              (Safe-then _ _ (accept_client nchildren t s) _
                (accept_client-Safe t s v (and_right t.connects _ e))
                (λ s' r. elim (Bool-cases (is_nought (decreased nsel))) [
                  | inl last ↦ rw last r.0
                  | inr more ↦ rw more (
                      collect_all-Safe t set nchildren 0 (decreased nsel) s' (omega arith) r.0
                        (all s' r.1))
                ]))
      ]

  round-Safe : (t : Turn) (s : Pool) → Inv s → Safe Inv (round nchildren t s)
  unfolding Safe round
  round-Safe t s v = elim (Option-cases t.nsel) [
    | inl e ↦ rw (round, e) tt
    | inr (nsel, e) ↦ rw (round, e) (after_select-Safe t nsel s v)
  ]

  Step-Inv : (s s' : Pool) → Step s s' → Inv s → Inv s'
  unfolding Safe
  Step-Inv s s' (child_done i) v = record {
    available =
        v.available
        ∙ ap pos (
            sym (
              count_same is_ready nchildren i s.child (finish (s.child i))
                (is_ready-finish (s.child i))));
    orderly =
        update-IsOrderly s.child i (finish (s.child i)) v.orderly
          (finish-IsOrderly (s.child i) (v.orderly i));
  }
  Step-Inv s s' (parent_round t e) v = subst (Safe Inv) e (round-Safe t s v)

  Reach-Inv : (s : Pool) → Reach s → Inv s
  unfolding start
  Reach-Inv s here = record {
    available = ap pos (sym (count_all is_ready nchildren (start nchildren).child (λ i. refl)));
    orderly = λ i. (refl, omega arith);
  }
  Reach-Inv s (next {s = before} path step) = Step-Inv before s step (Reach-Inv before path)

  always_one : (m : End Pool) → Safe Inv m → m ≢ nothing_found
  unfolding Safe
  always_one m v e = subst (Safe Inv) e v

  -- In every order of the rounds of the parent of serv05.c and of the steps of its children,
  -- navail is the number of children whose status is 0, a child has at most one client to serve or
  -- one byte on the way to the parent, just as its status says, and the next round of the parent
  -- never comes to the exit for no available child.
  pub pool_serves :
      (s : Pool) (t : Turn)
      → Reach s
      → (round nchildren t s ≢ nothing_found)
        × (s.navail ≡ pos (count is_ready nchildren s.child))
        × ((i : ℕ)
            → (length (s.child i).clients + (s.child i).told ≡ (s.child i).child_status)
              × ((s.child i).child_status ≤ 1))
  pool_serves s t path =
      let v = Reach-Inv s path in
      (always_one (round nchildren t s) (round-Safe t s v), v.available, v.orderly)
