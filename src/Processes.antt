-- ===== src/Processes.antt =====
-- scoket编程/server2.c: a process for each client. What a process has open is a function of the
-- descriptor; `fork` copies it. The loop of a child is `Single.child_loop`.
pub mod Descriptors
pub mod Signals
mod Tests
use network.Prelude.{ℕ, zero, suc, Bool, true, false, Option, none, some, List, [], ◌∷◌}
use network.Prelude.Maps.{update}
use network.Prelude.Tests.{if◌then◌else◌}
use network.Outcome.{Outcome, ok, exited, ◌>>=◌}

-- A child, with the descriptor of its client.
pub record Child : Type 0 where
  pub client : ℕ
  pub opened : ℕ → Bool

-- The parent's descriptors, its children that run and those that have ended and were not waited for,
-- and whether `sigcatch` is installed for SIGCHLD.
pub record Family : Type 0 where
  pub opened : ℕ → Bool
  pub running : List Child
  pub zombies : ℕ
  pub handler : Bool

-- What `accept`, `fork` and `sigaction` answer in one round.
pub record Turn : Type 0 where
  pub accepted : Option ℕ
  pub forked : Bool
  pub installed : Bool

pub start : (ℕ → Bool) → Family
start opened = record { opened = opened; running = []; zombies = 0; handler = false }

-- `close(lfd); break;` in the child.
pub be_child : ℕ → ℕ → (ℕ → Bool) → Child
be_child lfd cfd opened = record { client = cfd; opened = update opened lfd false }

-- The parent's branch.
pub be_parent : ℕ → Bool → Family → Outcome Family
be_parent cfd installed s =
    if installed
    then ok (record s { opened = update s.opened cfd false; handler = true })
    else exited

-- A round of the parent.
pub round : ℕ → Turn → Family → Outcome Family
round lfd t s = elim t.accepted [
  | none ↦ exited
  | some cfd ↦
      let both = update s.opened cfd true in
      let child = be_child lfd cfd both in
      let s' = record s { opened = both; running = child ∷ s.running } in
      if t.forked then be_parent cfd t.installed s' else exited
]

-- `while((waitpid(0,NULL,WNOHANG))>0);` with `zombies` children to wait for.
pub sigcatch : ℕ → ℕ
sigcatch zero = zero
sigcatch (suc zombies) = sigcatch zombies

-- The children without the one at `i`.
pub without : ℕ → List Child → List Child
without i [] = []
without zero (c ∷ cs) = cs
without (suc i) (c ∷ cs) = c ∷ without i cs

-- The child at `i` ends while the parent is in `accept`. Without a handler SIGCHLD is ignored. With it,
-- `sigcatch` runs, and `accept` fails with EINTR, since `sa_flags` is 0.
pub child_ends : ℕ → ℕ → Turn → Family → Outcome Family
child_ends lfd i t s =
    let ended = record s { running = without i s.running; zombies = suc s.zombies } in
    let caught = record ended { zombies = sigcatch ended.zombies } in
    let failed = round lfd (record t { accepted = none }) caught in
    if s.handler then failed else ok ended

pub rounds : ℕ → List Turn → Family → Outcome Family
rounds lfd [] s = ok s
rounds lfd (t ∷ ts) s = round lfd t s >>= λ s'. rounds lfd ts s'
