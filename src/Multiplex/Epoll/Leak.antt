-- ===== src/Multiplex/Epoll/Leak.antt =====
-- What becomes of the descriptor of a client of epoll.c that left.
use network.Prelude.{
  ℕ, ◌≡◌, ◌≢◌, refl, sym, ap, ◌∙◌, inl, inr, true, false, Option, none, some, [], ◌∷◌, arith, subst,
}
use network.Prelude.Maps.{update, update_self, update_ne, ℕ-cases}
use network.Prelude.Tests.{◌==◌, Bool-cases}
use network.Posix.{Answer, got, failed, econnreset}
use network.Outcome.{ok, exited}
use network.Multiplex.Epoll.{Server, Event, accept_client, serve_client, serve_event}

-- One entry is handled; `accept` gives descriptors that are not open.
pub data Step (lfd : ℕ) (s : Server) : Server → Type 0 where
  event :
      {s' : Server} (ev : Event)
      → ((cfd : ℕ) → ev.accepted ≡ some cfd → s.opened cfd ≡ false)
      → serve_event lfd ev s ≡ ok s'
      → Step lfd s s'

pub data Reach (lfd : ℕ) (s : Server) : Server → Type 0 where
  here : Reach lfd s s
  next : {s' s'' : Server} → Reach lfd s s' → Step lfd s' s'' → Reach lfd s s''

-- Open, but watched no more.
abbrev pub IsLost : ℕ → Server → Type 0
IsLost f s = (s.opened f ≡ true) × (s.watch f ≡ false)

ok_injective : {a b : Server} → ok a ≡ ok b → a ≡ b
ok_injective q = cc

accept_keeps :
    (f : ℕ) (o : Option ℕ) (s s' : Server)
    → ((cfd : ℕ) → o ≡ some cfd → s.opened cfd ≡ false)
    → IsLost f s
    → accept_client o s ≡ ok s'
    → IsLost f s'
unfolding accept_client
accept_keeps f none s s' fresh lost run = absurd (cc (run))
accept_keeps f (some cfd) s s' fresh lost run =
    let apart : cfd ≢ f = λ e. cc (fresh cfd refl, lost.0, ap s.opened e) in
    subst (IsLost f) (ok_injective run)
      (update_ne s.opened cfd f true apart ∙ lost.0, update_ne s.watch cfd f true apart ∙ lost.1)

unwatch_keeps :
    (f g : ℕ) (s : Server) → IsLost f s → IsLost f (record s { watch = update s.watch g false })
unwatch_keeps f g s lost = elim (ℕ-cases g f) [
  | inl e ↦ (lost.0, subst (λ h. update s.watch g false h ≡ false) e (update_self s.watch g false))
  | inr e ↦ (lost.0, update_ne s.watch g f false e ∙ lost.1)
]

serve_keeps :
    (f g : ℕ) (a : Answer) (s s' : Server) → IsLost f s → serve_client g a s ≡ ok s' → IsLost f s'
unfolding serve_client
serve_keeps f g (failed e) s s' lost run = elim (Bool-cases (e == econnreset)) [
  | inl q ↦ subst (IsLost f) (ok_injective (reset e g s q ∙ run)) (unwatch_keeps f g s lost)
  | inr q ↦ absurd (cc (sym (stops e g s q) ∙ run))
]
  where
    reset :
        (e g : ℕ) (s : Server)
        → (e == econnreset) ≡ true
        → ok (record s { watch = update s.watch g false }) ≡ serve_client g (failed e) s
    reset e g s q = rw q

    stops :
        (e g : ℕ) (s : Server) → (e == econnreset) ≡ false → serve_client g (failed e) s ≡ exited
    stops e g s q = rw q
serve_keeps f g (got []) s s' lost run =
    subst (IsLost f) (ok_injective run) (unwatch_keeps f g s lost)
serve_keeps f g (got (b ∷ bs)) s s' lost run = subst (IsLost f) (ok_injective run) lost

at_listener :
    (lfd : ℕ) (ev : Event) (s : Server)
    → (ev.fd == lfd) ≡ true
    → serve_event lfd ev s ≡ accept_client ev.accepted s
unfolding serve_event
at_listener lfd ev s e = rw (e, serve_event)

at_client :
    (lfd : ℕ) (ev : Event) (s : Server)
    → (ev.fd == lfd) ≡ false
    → serve_event lfd ev s ≡ serve_client ev.fd ev.answer s
unfolding serve_event
at_client lfd ev s e = rw (e, serve_event)

Step-IsLost : (lfd f : ℕ) (s s' : Server) → Step lfd s s' → IsLost f s → IsLost f s'
Step-IsLost lfd f s s' (event ev fresh run) lost = elim (Bool-cases (ev.fd == lfd)) [
  | inl e ↦ accept_keeps f ev.accepted s s' fresh lost (sym (at_listener lfd ev s e) ∙ run)
  | inr e ↦ serve_keeps f ev.fd ev.answer s s' lost (sym (at_client lfd ev s e) ∙ run)
]

Reach-IsLost : (lfd f : ℕ) (s s' : Server) → Reach lfd s s' → IsLost f s → IsLost f s'
Reach-IsLost lfd f s s' here lost = lost
Reach-IsLost lfd f s s' (next path step) lost =
    Step-IsLost lfd f _ s' step (Reach-IsLost lfd f s _ path lost)

-- Once the end of the data of a client was read, its descriptor stays open and out of the epoll
-- set in every later state, if accept gives only descriptors that are not open.
pub ended_leaks :
    (lfd : ℕ) (ev : Event) (s s1 s2 : Server)
    → ev.fd ≢ lfd
    → ev.answer ≡ got []
    → s.opened ev.fd ≡ true
    → serve_event lfd ev s ≡ ok s1
    → Reach lfd s1 s2
    → IsLost ev.fd s2
unfolding serve_client
ended_leaks lfd ev s s1 s2 client end is_open run path =
    let gone : serve_event lfd ev s ≡ ok (record s { watch = update s.watch ev.fd false }) =
      at_client lfd ev s (ground (arith, client)) ∙ ap (λ a. serve_client ev.fd a s) end in
    Reach-IsLost lfd ev.fd s1 s2 path (
      subst (IsLost ev.fd) (ok_injective (sym gone ∙ run))
        (is_open, update_self s.watch ev.fd false))
