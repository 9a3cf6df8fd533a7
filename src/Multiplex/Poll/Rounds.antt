-- ===== src/Multiplex/Poll/Rounds.antt =====
-- Rounds of poll.c without a new client.
use network.Prelude.{
  subst, ℕ, ◌≤◌, ◌<◌, ◌≡◌, ◌≢◌, sym, ap, ◌∙◌, inl, inr, Bool, false, Option, none, some, ◌++◌,
  arith,
}
use network.Prelude.Int.{ℤ, pos}
use network.Prelude.Tests.{Option-cases}
use network.Outcome.{ok}
use network.Multiplex.Poll.{Slot, Server, Turn, mark, poll, serve_slots, round, after_poll}
use network.Multiplex.Poll.Serve.{
  serve_all, settled, replies, ReadsWell, serve_slots_lem, trace-serve_all, slot_inside-serve_all,
  slot_outside-serve_all,
}
use network.Multiplex.Poll.Invariant.{Inv, marked, marked-Inv, marked_beyond, serve_all-Inv}

marked_at :
    (s : Server) (ready : ℕ → Bool) (j : ℕ)
    → j ≤ s.maxfd
    → (marked s ready).fds j ≡ mark ready j (s.fds j)
marked_at s ready j h = ground arith

revents_mark : (ready : ℕ → Bool) (j : ℕ) (sl : Slot) → (mark ready j sl).revents ≢ none
unfolding mark
revents_mark ready j sl q = elim (Option-cases sl.fd) [
  | inl e ↦ cc (
      subst
        (λ o. (elim o as (λ x. Option Bool) [ none ↦ some false | some f ↦ some (ready j) ]) ≡ none)
        e q)
  | inr (f, e) ↦ cc (
      subst
        (λ o. (elim o as (λ x. Option Bool) [ none ↦ some false | some f ↦ some (ready j) ]) ≡ none)
        e q)
]

revents_used-mark :
    (ready : ℕ → Bool) (j f : ℕ) (sl : Slot)
    → sl.fd ≡ some f
    → (mark ready j sl).revents ≡ some (ready j)
unfolding mark
revents_used-mark ready j f sl e = rw e

pub marked_seen :
    (s : Server) (ready : ℕ → Bool) (j : ℕ) → j ≤ s.maxfd → ((marked s ready).fds j).revents ≢ none
marked_seen s ready j h q =
    revents_mark ready j (s.fds j) (ap (λ sl. Slot.revents sl) (sym (marked_at s ready j h)) ∙ q)

pub marked_first :
    (lfd : ℕ) (s : Server) (ready : ℕ → Bool)
    → Inv lfd s
    → ((marked s ready).fds 0).revents ≡ some (ready 0)
marked_first lfd s ready v =
    ap (λ sl. Slot.revents sl) (marked_at s ready 0 (omega arith))
    ∙ revents_used-mark ready 0 lfd (s.fds 0) v.listener

poll-marked :
    (n : ℕ) (t : Turn) (s : Server) (ready : ℕ → Bool)
    → t.polled ≡ some (n, ready)
    → poll t s ≡ (pos n, marked s ready)
unfolding poll
poll-marked n t s ready e = rw (e, poll)

pub round_polled :
    (n : ℕ) (t : Turn) (s : Server) (ready : ℕ → Bool)
    → t.polled ≡ some (n, ready)
    → round t s ≡ after_poll t (pos n) (marked s ready)
unfolding round
round_polled n t s ready e = ap (λ p. after_poll t p.0 p.1) (poll-marked n t s ready e)

no_connection :
    (t : Turn) (n : ℤ) (s : Server)
    → (s.fds 0).revents ≡ some false
    → after_poll t n s ≡ serve_slots t s.maxfd 1 s
unfolding after_poll
no_connection t n s e = rw (e, after_poll)

-- In a round without a new connection, where no read fails but by a reset, each client is served
-- once: what is written is what the ready clients sent, client by client in the order of the
-- slots, to standard output and in upper case back to the client; the slots of those that left or
-- were reset lose their descriptor, no other slot changes, and the invariant of the table holds
-- again.
pub round_serves :
    (lfd n : ℕ) (t : Turn) (s : Server) (ready : ℕ → Bool)
    → Inv lfd s
    → t.polled ≡ some (n, ready)
    → ready 0 ≡ false
    → ReadsWell t
    → (s' : Server) × (round t s ≡ ok s')
      × Inv lfd s'
      × (s'.trace ≡ s.trace ++ replies t s.maxfd 1 (marked s ready).fds)
      × ((j : ℕ) → 1 ≤ j → j ≤ s.maxfd → s'.fds j ≡ settled t ((marked s ready).fds j))
      × ((j : ℕ) → s.maxfd < j → s'.fds j ≡ s.fds j)
round_serves lfd n t s ready v polled quiet well =
    let s1 = marked s ready in
    let w = marked-Inv lfd s ready v in
    let first : (s1.fds 0).revents ≡ some false = marked_first lfd s ready v ∙ ap some quiet in
    (
      serve_all t s.maxfd 1 s1,
      round_polled n t s ready polled
          ∙ no_connection t (pos n) s1 first
          ∙ serve_slots_lem t s.maxfd 1 s1 well
              (λ j low high used. marked_seen s ready j (omega arith)),
      serve_all-Inv lfd t s.maxfd 1 s1 (omega arith) w,
      trace-serve_all t s.maxfd 1 s1,
      (λ j low high. slot_inside-serve_all t s.maxfd 1 j s1 low (omega arith)),
      (λ j high.
          slot_outside-serve_all t s.maxfd 1 j s1 (inr (omega arith))
          ∙ marked_beyond s ready j high),
    )
