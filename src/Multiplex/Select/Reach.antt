-- ===== src/Multiplex/Select/Reach.antt =====
-- The states that select优化.c reaches.
use network.Prelude.{
  ℕ, ◌<◌, ◌≡◌, refl, sym, ap, subst, ◌∙◌, inl, inr, Bool, true, false, none, some,
}
use network.Prelude.Int.{ℤ, pos}
use network.Prelude.Tests.{ltb, Bool-cases, Option-cases, if◌then◌else◌, ltb→lt}
use network.Outcome.{Outcome, ok, exited, undefined, ◌>>=◌}
use network.Multiplex.Select.{
  Server, Turn, fd_setsize, rset, decrement, is_zero, start, accept_client, serve_clients,
  after_select, round,
}
use network.Multiplex.Select.Rounds.{entered, round_selected}
use network.Multiplex.Select.Table.{Table, serve_clients_Table}
use network.Multiplex.Select.Joined.{entered_Table, start_Table}
use network.Multiplex.Select.Full.{Fresh, accepts}

-- Any rounds from the start on.
pub data Reach (listenfd : ℕ) (opened : ℕ → Bool) : Server → Type 0 where
  begins : Reach listenfd opened (start listenfd opened)
  goes :
      {s s' : Server} (t : Turn)
      → Fresh s t
      → Reach listenfd opened s
      → round listenfd t s ≡ ok s'
      → Reach listenfd opened s'

-- `accept` with a descriptor that fits into the set enters a client in the table.
accepts_Table :
    (listenfd connfd : ℕ) (t : Turn) (s : Server)
    → Table listenfd s
    → t.accepted ≡ some connfd
    → connfd < fd_setsize
    → s.opened connfd ≡ false
    → (s' : Server) × (accept_client t s ≡ ok s') × Table listenfd s'
accepts_Table listenfd connfd t s v e fits closed =
    let (k, low, unused, run) = accepts listenfd s v t connfd e fits in
    (entered s k connfd, run, entered_Table listenfd k connfd s v unused low fits closed)

no_accept : (t : Turn) (s : Server) → t.accepted ≡ none → accept_client t s ≡ exited
unfolding accept_client
no_accept t s e = rw (e, accept_client)

too_high :
    (t : Turn) (s : Server) (connfd : ℕ)
    → t.accepted ≡ some connfd
    → ltb connfd fd_setsize ≡ false
    → accept_client t s ≡ undefined
unfolding accept_client
too_high t s connfd e h = rw (e, accept_client, h)

ok_inj : {s s' : Server} → ok s ≡ ok s' → s ≡ s'
ok_inj e = cc

accept_client_Table :
    (listenfd : ℕ) (t : Turn) (s s' : Server)
    → Table listenfd s
    → Fresh s t
    → accept_client t s ≡ ok s'
    → Table listenfd s'
accept_client_Table listenfd t s s' v fresh run = elim (Option-cases t.accepted) [
  | inl e ↦ absurd (cc (run, no_accept t s e))
  | inr (f, e) ↦ elim (Bool-cases (ltb f fd_setsize)) [
    | inr h ↦ absurd (cc (run, too_high t s f e h))
    | inl h ↦
        let (s'', run', w) = accepts_Table listenfd f t s v e (ltb→lt f fd_setsize h) (fresh f e) in
        subst (Table listenfd) (ok_inj (sym run' ∙ run)) w
  ]
]

-- Behind `accept`.
rest : Turn → (ℕ → Bool) → ℤ → Server → Outcome Server
rest t set nready s = if is_zero nready then ok s else ok (serve_clients t set s.slots 0 nready s)

rest_Table :
    (listenfd : ℕ) (t : Turn) (set : ℕ → Bool) (nready : ℤ) (s : Server)
    → Table listenfd s
    → (s' : Server) × (rest t set nready s ≡ ok s') × Table listenfd s'
unfolding rest
rest_Table listenfd t set nready s v = elim (Bool-cases (is_zero nready)) [
  | inl e ↦ (s, rw e, v)
  | inr e ↦ (
    serve_clients t set s.slots 0 nready s,
    rw e,
    serve_clients_Table listenfd t set s.slots 0 nready s v,
  )
]

quiet :
    (listenfd : ℕ) (t : Turn) (set : ℕ → Bool) (nready : ℤ) (s : Server)
    → set listenfd ≡ false
    → after_select listenfd t set nready s ≡ ok (serve_clients t set s.slots 0 nready s)
unfolding after_select
quiet listenfd t set nready s e = rw (e)

connects :
    (listenfd : ℕ) (t : Turn) (set : ℕ → Bool) (nready : ℤ) (s : Server)
    → set listenfd ≡ true
    → after_select listenfd t set nready s ≡ (accept_client t s >>= rest t set (decrement nready))
unfolding after_select rest
connects listenfd t set nready s e = rw (e)

-- A round where accept, if it comes to it, enters a client in the table.
after_select_Table :
    (listenfd : ℕ) (t : Turn) (set : ℕ → Bool) (nready : ℤ) (s : Server)
    → Table listenfd s
    → (set listenfd ≡ true → (s' : Server) × (accept_client t s ≡ ok s') × Table listenfd s')
    → (s' : Server) × (after_select listenfd t set nready s ≡ ok s') × Table listenfd s'
after_select_Table listenfd t set nready s v joins = elim (Bool-cases (set listenfd)) [
  | inr e ↦ (
    serve_clients t set s.slots 0 nready s,
    quiet listenfd t set nready s e,
    serve_clients_Table listenfd t set s.slots 0 nready s v,
  )
  | inl e ↦
      let (s1, run, w) = joins e in
      let (s2, run2, w2) = rest_Table listenfd t set (decrement nready) s1 w in
      (
        s2,
        connects listenfd t set nready s e
            ∙ ap (λ o. o >>= rest t set (decrement nready)) run
            ∙ run2,
        w2,
      )
]

came :
    (o : Outcome Server) (f : Server → Outcome Server) (s' : Server)
    → (o >>= f) ≡ ok s'
    → (s1 : Server) × (o ≡ ok s1)
came (ok s1) f s' h = (s1, refl)
came exited f s' h = absurd (cc h)
came undefined f s' h = absurd (cc h)

select_fails :
    (listenfd : ℕ) (t : Turn) (s : Server) → t.selected ≡ none → round listenfd t s ≡ exited
unfolding round
select_fails listenfd t s e = simp (e, round)

-- In a round that came through, accept did.
joined :
    (listenfd : ℕ) (t : Turn) (set : ℕ → Bool) (nready : ℤ) (s s' : Server)
    → Table listenfd s
    → Fresh s t
    → after_select listenfd t set nready s ≡ ok s'
    → set listenfd ≡ true
    → (s1 : Server) × (accept_client t s ≡ ok s1) × Table listenfd s1
joined listenfd t set nready s s' v fresh run h =
    let (s1, accepted) =
      came (accept_client t s) (rest t set (decrement nready)) s'
        (sym (connects listenfd t set nready s h) ∙ run) in
    (s1, accepted, accept_client_Table listenfd t s s1 v fresh accepted)

round_Table :
    (listenfd : ℕ) (t : Turn) (s s' : Server)
    → Table listenfd s
    → Fresh s t
    → round listenfd t s ≡ ok s'
    → Table listenfd s'
round_Table listenfd t s s' v fresh run = elim (Option-cases t.selected) [
  | inl e ↦ absurd (cc (run, select_fails listenfd t s e))
  | inr ((n, ready), e) ↦
      let set = rset ready s in
      let run' = sym (round_selected listenfd n t s ready e) ∙ run in
      let (s'', came, w) =
        after_select_Table listenfd t set (pos n) s v
          (joined listenfd t set (pos n) s s' v fresh run') in
      subst (Table listenfd) (ok_inj (sym came ∙ run')) w
]

reach_Table :
    (listenfd : ℕ) (opened : ℕ → Bool) (s : Server)
    → opened listenfd ≡ true
    → listenfd < fd_setsize
    → Reach listenfd opened s
    → Table listenfd s
reach_Table listenfd opened s e fits begins = start_Table listenfd opened e fits
reach_Table listenfd opened s' e fits (goes {s} t fresh r run) =
    round_Table listenfd t s s' (reach_Table listenfd opened s e fits r) fresh run

-- In every state that the loop of select优化.c reaches from a start with an open listening
-- descriptor below 1024, where accept only gives descriptors that are not open, the set holds
-- exactly the listening descriptor and those of the clients, each in one entry, all of them open
-- and none above maxfd; and a round where select succeeds and accept gives a descriptor below 1024
-- that is not open comes through and keeps this, so that the exit for too many clients is never
-- taken.
pub table_has_room :
    (listenfd n connfd : ℕ) (opened ready : ℕ → Bool) (s : Server) (t : Turn)
    → opened listenfd ≡ true
    → listenfd < fd_setsize
    → Reach listenfd opened s
    → t.selected ≡ some (n, ready)
    → t.accepted ≡ some connfd
    → connfd < fd_setsize
    → s.opened connfd ≡ false
    → Table listenfd s × ((s' : Server) × (round listenfd t s ≡ ok s') × Table listenfd s')
table_has_room listenfd n connfd opened ready s t e fits r selected accepted low closed =
    let v = reach_Table listenfd opened s e fits r in
    let set = rset ready s in
    let (s', run, w) =
      after_select_Table listenfd t set (pos n) s v
        (λ h. accepts_Table listenfd connfd t s v accepted low closed) in
    (v, (s', round_selected listenfd n t s ready selected ∙ run, w))
