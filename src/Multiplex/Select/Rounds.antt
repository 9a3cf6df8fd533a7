-- ===== src/Multiplex/Select/Rounds.antt =====
-- Whole rounds of select优化.c, without and with a new connection.
use network.Prelude.{
  ℕ, zero, suc, ◌+◌, ◌≤◌, ◌<◌, ◌≡◌, ◌≢◌, refl, sym, ap, ◌∙◌, inl, inr, Bool, true, false, Option,
  none, some, ◌++◌, arith,
}
use network.Prelude.Int.{pos}
use network.Prelude.Maps.{update}
use network.Prelude.Tests.{ltb, Bool-cases, Option-cases, if◌then◌else◌, lt→ltb}
use network.Outcome.{ok}
use network.Multiplex.Select.{
  Server, Turn, fd_setsize, rset, is_zero, free_entry, accept_client, serve_clients, after_select,
  round,
}
use network.Multiplex.Select.Serve.{
  ready_count, serve_all, serve_all-nobody, serve_clients_lem, replies, trace-serve_all,
}
use network.Multiplex.Select.Entered.{
  count_waits, count_more, waits_entered, replies-reply, replies_more, reply_entered,
}

pub round_selected :
    (listenfd n : ℕ) (t : Turn) (s : Server) (ready : ℕ → Bool)
    → t.selected ≡ some (n, ready)
    → round listenfd t s ≡ after_select listenfd t (rset ready s) (pos n) s
unfolding round
round_selected listenfd n t s ready e = simp (e, round)

no_connection :
    (listenfd n : ℕ) (t : Turn) (set : ℕ → Bool) (s : Server)
    → set listenfd ≡ false
    → after_select listenfd t set (pos n) s ≡ ok (serve_clients t set s.slots 0 (pos n) s)
unfolding after_select
no_connection listenfd n t set s e = rw (e)

-- If select counts at least the ready clients and there is no new connection, the round, which
-- stops when the count is used up, does what serving every entry without a count does, and what is
-- written is the answers to the ready clients in the order of the entries.
pub round_counts :
    (listenfd n : ℕ) (t : Turn) (s : Server) (ready : ℕ → Bool)
    → t.selected ≡ some (n, ready)
    → rset ready s listenfd ≡ false
    → ready_count (rset ready s) s.slots 0 s.client ≤ n
    → (s' : Server) × (round listenfd t s ≡ ok s')
      × (s' ≡ serve_all t (rset ready s) s.slots 0 s)
      × (s'.trace ≡ s.trace ++ replies t (rset ready s) s.slots 0 s.client)
round_counts listenfd n t s ready selected quiet enough =
    let set = rset ready s in
    (
      serve_all t set s.slots 0 s,
      round_selected listenfd n t s ready selected
          ∙ no_connection listenfd n t set s quiet
          ∙ ap (λ s'. ok s') (serve_clients_lem t set s.slots 0 n s enough),
      refl,
      trace-serve_all t set s.slots 0 s,
    )

-- The state behind the entry of `connfd` at `k`.
abbrev pub entered : Server → ℕ → ℕ → Server
entered s k connfd = record s {
  client = update s.client k (some connfd);
  slots = if ltb s.slots (k + 1) then k + 1 else s.slots;
  maxfd = if ltb s.maxfd connfd then connfd else s.maxfd;
  allset = update s.allset connfd true;
  opened = update s.opened connfd true;
}

pub free_entry_lem :
    (n i j : ℕ) (client : ℕ → Option ℕ)
    → i ≤ j
    → j < i + n
    → client j ≡ none
    → (k : ℕ) × (free_entry n client i ≡ some k) × (i ≤ k) × (k ≤ j) × (client k ≡ none)
unfolding free_entry
free_entry_lem zero i j client low high free = absurd (omega arith)
free_entry_lem (suc n) i j client low high free = elim (Option-cases (client i)) [
  | inl e ↦ (i, rw (e, free_entry), omega arith, low, e)
  | inr (f, e) ↦
      let apart : i ≢ j = λ q. absurd (cc (e, free, ap client q)) in
      let (k, found, above, below, unused) =
        free_entry_lem n (i + 1) j client (omega (arith, apart)) (omega arith) free in
      (k, rw (e, free_entry) found, omega arith, below, unused)
]

pub accepted_at :
    (t : Turn) (s : Server) (connfd k : ℕ)
    → t.accepted ≡ some connfd
    → connfd < fd_setsize
    → free_entry fd_setsize s.client 0 ≡ some k
    → accept_client t s ≡ ok (entered s k connfd)
unfolding accept_client
accepted_at t s connfd k e fits found = rw (e, accept_client, lt→ltb connfd fd_setsize fits, found)

connection :
    (listenfd n : ℕ) (t : Turn) (set : ℕ → Bool) (s s' : Server)
    → set listenfd ≡ true
    → accept_client t s ≡ ok s'
    → after_select listenfd t set (pos (suc n)) s
      ≡ (if is_zero (pos n) then ok s' else ok (serve_clients t set s'.slots 0 (pos n) s'))
unfolding after_select
connection listenfd n t set s s' e run = rw (e, run)

-- The rest of a round that entered a client: with a count of 0 nobody is ready.
rest_served :
    (t : Turn) (set : ℕ → Bool) (n : ℕ) (s : Server)
    → ready_count set s.slots 0 s.client ≤ n
    → (if is_zero (pos n) then ok s else ok (serve_clients t set s.slots 0 (pos n) s))
      ≡ ok (serve_all t set s.slots 0 s)
rest_served t set zero s h =
    ap (λ s'. ok s') (sym (serve_all-nobody t set s.slots 0 s (omega arith)))
rest_served t set (suc n) s h = ap (λ s'. ok s') (serve_clients_lem t set s.slots 0 (suc n) s h)

not_in_set : (ready : ℕ → Bool) (s : Server) (f : ℕ) → s.allset f ≡ false → rset ready s f ≡ false
not_in_set ready s f h = elim (Bool-cases (ready f)) [ inl e ↦ rw (e, h) | inr e ↦ rw e ]

-- If select counts the listening descriptor and at least the ready clients, and a descriptor below
-- 1024 that is not in the set is accepted while some entry is free, the new client is entered in a
-- free entry that no free entry precedes, and the ready clients are all served in the same round,
-- as without a new client.
pub round_connects :
    (listenfd n connfd j : ℕ) (t : Turn) (s : Server) (ready : ℕ → Bool)
    → t.selected ≡ some (suc n, ready)
    → rset ready s listenfd ≡ true
    → t.accepted ≡ some connfd
    → connfd < fd_setsize
    → j < fd_setsize
    → s.client j ≡ none
    → ((i : ℕ) → s.slots ≤ i → s.client i ≡ none)
    → s.allset connfd ≡ false
    → ready_count (rset ready s) s.slots 0 s.client ≤ n
    → (k : ℕ) × (k ≤ j)
      × (s.client k ≡ none)
      × (let s1 = entered s k connfd in
          (s' : Server) × (round listenfd t s ≡ ok s')
          × (s' ≡ serve_all t (rset ready s) s1.slots 0 s1)
          × (s'.trace ≡ s.trace ++ replies t (rset ready s) s.slots 0 s.client))
round_connects listenfd n connfd j t s ready selected new accepted fits room free beyond fresh
      enough =
    let set = rset ready s in
    let (k, found, above, below, unused) =
      free_entry_lem fd_setsize 0 j s.client (omega arith) (omega arith) free in
    let s1 = entered s k connfd in
    let apart : set connfd ≡ false = not_in_set ready s connfd fresh in
    let wider : s.slots ≤ s1.slots = ground arith in
    let count : ready_count set s1.slots 0 s1.client ≡ ready_count set s.slots 0 s.client =
      count_waits t set s1.slots 0 s1.client s.client
        (waits_entered t set s.client k connfd unused apart)
      ∙ count_more t set s1.slots s.slots 0 s.client wider (λ i q. beyond i (omega arith)) in
    (
      k,
      below,
      unused,
      (
        serve_all t set s1.slots 0 s1,
        round_selected listenfd (suc n) t s ready selected
            ∙ connection listenfd n t set s s1 new (accepted_at t s connfd k accepted fits found)
            ∙ rest_served t set n s1 (omega (arith, count, enough)),
        refl,
        trace-serve_all t set s1.slots 0 s1
            ∙ ap (λ l. s.trace ++ l)
                (replies-reply t set s1.slots 0 s1.client s.client
                    (reply_entered t set s.client k connfd unused apart)
                  ∙ replies_more t set s1.slots s.slots 0 s.client wider
                      (λ i q. beyond i (omega arith))),
      ),
    )
