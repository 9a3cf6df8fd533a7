-- ===== src/Multiplex/Poll/Unset.antt =====
-- A new client of poll.c beside a ready one: the loop over the clients comes to a slot that `poll` has
-- not seen.
use network.Prelude.{
  subst, ℕ, zero, suc, ◌+◌, ◌-◌, ◌≤◌, ◌<◌, ◌≡◌, ◌≢◌, refl, sym, ap, ◌∙◌, inl, inr, Bool, true,
  false, none, some, arith,
}
use network.Prelude.Maps.{update_self, update_ne}
use network.Prelude.Tests.{ltb, leb, Bool-cases, if◌then◌else◌}
use network.Outcome.{Outcome, ok, exited, undefined, ◌>>=◌}
use network.Multiplex.Poll.{Slot, Server, Turn, open_max, serve_slot, serve_slots, round}
use network.Multiplex.Poll.Serve.{
  ReadsWell, serve_all, Seen, Seen-served, served, serve_slot_lem, slot_outside-serve_all,
}
use network.Multiplex.Poll.Invariant.{Inv, marked, marked-Inv, fd-marked}
use network.Multiplex.Poll.Rounds.{round_polled, marked_first, marked_seen}
use network.Multiplex.Poll.Joins.{free_slot_lem, connection, accepted_at, entered}

bind_ok : (o : Outcome Server) → (o >>= λ s. ok s) ≡ o
bind_ok (ok s) = refl
bind_ok exited = refl
bind_ok undefined = refl

-- The slot behind those that are served.
serve_slots_last :
    (t : Turn) (n i : ℕ) (s : Server)
    → ReadsWell t
    → Seen n i s.fds
    → serve_slots t (suc n) i s ≡ serve_slot t (i + n) (serve_all t n i s)
unfolding serve_slots serve_all
serve_slots_last t zero i s well seen =
    bind_ok (serve_slot t i s) ∙ ap (λ m. serve_slot t m s) (omega arith)
serve_slots_last t (suc n) i s well seen =
    rw (serve_slot_lem t i s well (seen i (omega arith) (omega arith))) (
      serve_slots_last t n (i + 1) (served t i s) well (Seen-served t n i s seen)
      ∙ ap (λ m. serve_slot t m (serve_all t n (i + 1) (served t i s))) (omega arith))

unset :
    (t : Turn) (i f : ℕ) (s : Server)
    → (s.fds i).fd ≡ some f
    → (s.fds i).revents ≡ none
    → serve_slot t i s ≡ undefined
unfolding serve_slot
unset t i f s e q = rw (e, q, serve_slot)

two_left : (n : ℕ) → 2 ≤ n → leb n 1 ≡ false
two_left n h = ground arith

top_is : (m : ℕ) → (if ltb m (m + 1) then m + 1 else m) ≡ suc m
top_is m = ground arith

-- With the slots up to maxfd in use and room behind them, a client that connects in a round where
-- poll counts two or more gets the next slot, and where no read fails but by a reset the round
-- comes to the revents of that slot, which nothing has set: undefined behaviour.
pub round_reads_unset :
    (lfd n cfd : ℕ) (t : Turn) (s : Server) (ready : ℕ → Bool)
    → Inv lfd s
    → t.polled ≡ some (n, ready)
    → ready 0 ≡ true
    → 2 ≤ n
    → ReadsWell t
    → t.accepted ≡ some cfd
    → ((i : ℕ) → i ≤ s.maxfd → (s.fds i).fd ≢ none)
    → s.maxfd + 1 < open_max
    → round t s ≡ undefined
round_reads_unset lfd n cfd t s ready v polled new more well accepted full room =
    let s1 = marked s ready in
    let top = s.maxfd + 1 in
    let w = marked-Inv lfd s ready v in
    let behind = w.beyond top (omega arith) in
    let (k, found, above, below, unused) =
      free_slot_lem (open_max - 1) 1 top s1.fds (omega arith) (omega arith) behind.0 in
    let k_top : k ≡ top = elim (Bool-cases (leb k s.maxfd)) [
      | inl e ↦ absurd (full k (ground (arith, e)) (sym (fd-marked s ready k) ∙ unused))
      | inr e ↦ ground (arith, e, below)
    ] in
    let s2 = entered s1 top cfd in
    let passed = serve_all t s.maxfd 1 s2 in
    let last : passed.fds top ≡ record (s1.fds top) { fd = some cfd } =
      slot_outside-serve_all t s.maxfd 1 top s2 (inr (omega arith)) ∙ update_self s1.fds top _ in
    round_polled n t s ready polled
    ∙ connection t n s1 s2 (marked_first lfd s ready v ∙ ap some new)
        (accepted_at t s1 cfd top accepted (found ∙ ap some k_top))
    ∙ ap (λ b. if b then ok s2 else serve_slots t s2.maxfd 1 s2) (two_left n more)
    ∙ ap (λ m. serve_slots t m 1 s2) (top_is s.maxfd)
    ∙ serve_slots_last t s.maxfd 1 s2 well (λ j low high used.
      subst (λ sl. sl.revents ≢ none) (sym (update_ne s1.fds top j _ (omega arith)))
        (marked_seen s ready j (omega arith)))
    ∙ ap (λ m. serve_slot t m passed) (omega arith)
    ∙ unset t top cfd passed (ap (λ sl. Slot.fd sl) last)
        (ap (λ sl. Slot.revents sl) last ∙ behind.1)
