-- ===== src/Processes/Signals.antt =====
-- The end of a child of server2.c and its signal.
use network.Prelude.{ℕ, zero, suc, ◌≡◌, refl, sym, ap, ◌∙◌, inl, inr, Bool, true, List, [], ◌∷◌}
use network.Outcome.{ok, exited}
use network.Processes.{Family, Turn, start, round, rounds, sigcatch, child_ends}
use network.Processes.Descriptors.{
  forked, round_cases, run_exits, run_rest, ok_injective, exited_ok,
}

pub sigcatch_all : (zombies : ℕ) → sigcatch zombies ≡ 0
unfolding sigcatch
sigcatch_all zero = refl
sigcatch_all (suc n) = sigcatch_all n

rounds-handler :
    (lfd : ℕ) (ts : List Turn) (s s' : Family)
    → s.handler ≡ true
    → rounds lfd ts s ≡ ok s'
    → s'.handler ≡ true
unfolding rounds
rounds-handler lfd [] s s' h run = ap (λ x. Family.handler x) (sym (ok_injective run)) ∙ h
rounds-handler lfd (t ∷ ts) s s' h run = elim (round_cases lfd t s) [
  | inl e ↦ absurd (exited_ok (sym (run_exits lfd t ts s e) ∙ run))
  | inr (cfd, e, made) ↦
      rounds-handler lfd ts (forked lfd cfd s) s' refl
        (run_rest lfd t ts s (forked lfd cfd s) s' made run)
]

-- If server2.c has accepted at least one client, the end of any child while the parent waits in
-- accept makes the parent exit.
pub first_leaver_ends_server :
    (lfd i : ℕ) (opened : ℕ → Bool) (t : Turn) (ts : List Turn) (later : Turn) (s : Family)
    → rounds lfd (t ∷ ts) (start opened) ≡ ok s
    → child_ends lfd i later s ≡ exited
unfolding child_ends round
first_leaver_ends_server lfd i opened t ts later s run = elim (round_cases lfd t (start opened)) [
  | inl e ↦ absurd (exited_ok (sym (run_exits lfd t ts (start opened) e) ∙ run))
  | inr (cfd, e, made) ↦
      let s1 = forked lfd cfd (start opened) in
      rw (rounds-handler lfd ts s1 s refl (run_rest lfd t ts (start opened) s1 s made run))
]
