-- ===== src/Forking/Kept.antt =====
-- No piece of what client.c reads gets lost or comes twice, but the order may change: a permutation.
use network.Prelude.{ℕ, ◌≡◌, refl, ap, subst, inl, inr, true, List, [], ◌∷◌, ◌++◌, append_assoc}
use mathlib.Core.List.{Perm}
use mathlib.Core.List.Perm
use network.Prelude.Tests.{if◌then◌else◌, Bool-cases}
use network.Outcome.{ok}
use network.Forking.{
  at_fork, at_stdin, at_socket, to_socket, to_stdout, Process, Traffic, Client, Turn, Effect, quiet,
  at, start, goes_on, fork, turn, turn_at, joined, step,
}
use network.Forking.Reach.{Reach, begins, goes, came, at_places, read_came}
use network.Forking.Pieces.{all, between, turn_at_keeps}

-- What a process has read and not yet written to the socket, or to the standard output.
unfoldable pub for_socket : Process → List (List ℕ)
for_socket p = elim p.place [
  | at_fork ↦ []
  | at_stdin ↦ []
  | at_socket ↦ []
  | to_socket bs ↦ bs ∷ []
  | to_stdout bs ↦ []
]

unfoldable pub for_stdout : Process → List (List ℕ)
for_stdout p = elim p.place [
  | at_fork ↦ []
  | at_stdin ↦ []
  | at_socket ↦ []
  | to_socket bs ↦ []
  | to_stdout bs ↦ bs ∷ []
]

Keeps :
    (Process → List (List ℕ))
    → (Traffic → List (List ℕ))
    → (Traffic → List (List ℕ))
    → Process
    → Effect
    → Type 0
Keeps h read written p e =
    Perm (h p ++ read e.through) (written e.through ++ (h e.process ++ all h e.children))

typed-Keeps :
    (t : Turn)
    → t.wrote ≡ true
    → (p : Process) (e : Effect) → turn t p ≡ ok e
    → Keeps for_socket (λ x. x.typed) (λ x. x.sent) p e
unfolding turn fork Keeps for_socket all
typed-Keeps t w p e =
    let Kept = Keeps for_socket (λ x. x.typed) (λ x. x.sent) in
    at_places (λ p. turn t p ≡ ok e → Kept p e) p
      (λ run.
        let same : fork t (at p at_fork) ≡ e = cc run in
        subst (Kept (at p at_fork)) same
          (elim (Bool-cases t.forked) [ inl q ↦ rw q Perm.rfl | inr q ↦ rw q Perm.rfl ]))
      (λ run.
        let (bs, same) = read_came t.answer _ e run in subst (Kept (at p at_stdin)) same Perm.rfl)
      (λ run.
        let (bs, same) = read_came t.answer _ e run in subst (Kept (at p at_socket)) same Perm.rfl)
      (λ bs run.
        let same : goes_on p (record quiet { sent = if t.wrote then bs ∷ [] else [] }) ≡ e =
          cc run in
        subst (Kept (at p (to_socket bs))) same (rw w Perm.rfl))
      (λ bs run.
        let same : goes_on p (record quiet { printed = if t.wrote then bs ∷ [] else [] }) ≡ e =
          cc run in
        subst (Kept (at p (to_stdout bs))) same Perm.rfl)

received-Keeps :
    (t : Turn)
    → t.wrote ≡ true
    → (p : Process) (e : Effect) → turn t p ≡ ok e
    → Keeps for_stdout (λ x. x.received) (λ x. x.printed) p e
unfolding turn fork Keeps for_stdout all
received-Keeps t w p e =
    let Kept = Keeps for_stdout (λ x. x.received) (λ x. x.printed) in
    at_places (λ p. turn t p ≡ ok e → Kept p e) p
      (λ run.
        let same : fork t (at p at_fork) ≡ e = cc run in
        subst (Kept (at p at_fork)) same
          (elim (Bool-cases t.forked) [ inl q ↦ rw q Perm.rfl | inr q ↦ rw q Perm.rfl ]))
      (λ run.
        let (bs, same) = read_came t.answer _ e run in subst (Kept (at p at_stdin)) same Perm.rfl)
      (λ run.
        let (bs, same) = read_came t.answer _ e run in subst (Kept (at p at_socket)) same Perm.rfl)
      (λ bs run.
        let same : goes_on p (record quiet { sent = if t.wrote then bs ∷ [] else [] }) ≡ e =
          cc run in
        subst (Kept (at p (to_socket bs))) same Perm.rfl)
      (λ bs run.
        let same : goes_on p (record quiet { printed = if t.wrote then bs ∷ [] else [] }) ≡ e =
          cc run in
        subst (Kept (at p (to_stdout bs))) same (rw w Perm.rfl))

-- What was read is what was written and what the processes hold, in some order.
Bag :
    (Process → List (List ℕ))
    → (Traffic → List (List ℕ))
    → (Traffic → List (List ℕ))
    → Client
    → Type 0
Bag h read written s = Perm (read s.traffic) (written s.traffic ++ all h s.processes)

Locally : (Process → List (List ℕ)) → (Traffic → List (List ℕ)) → (Traffic → List (List ℕ)) → Type 0
Locally h read written =
    (t : Turn)
    → t.wrote ≡ true
    → (p : Process) (e : Effect) → turn t p ≡ ok e
    → Keeps h read written p e

module _ (h : Process → List (List ℕ)) (read written : Traffic → List (List ℕ))
    (quiet_read : read quiet ≡ []) (quiet_written : written quiet ≡ [])
    (joins_read : (a b : Traffic) → read (joined a b) ≡ read a ++ read b)
    (joins_written : (a b : Traffic) → written (joined a b) ≡ written a ++ written b)
    (starts : Bag h read written start) (locally : Locally h read written) where
  step_keeps :
      (i : ℕ) (t : Turn) (s s' : Client)
      → t.wrote ≡ true
      → Bag h read written s
      → step i t s ≡ ok s'
      → Bag h read written s'
  unfolding Bag Locally Keeps step
  step_keeps i t s s' w v run =
      let (r, turned, same) =
        came (turn_at i t s.processes)
          (λ r. record { traffic = joined s.traffic r.0; processes = r.1 }) s' run in
      let kept =
        turn_at_keeps h read written quiet_read quiet_written t (locally t w) i s.processes r
          turned in
      let b = written s.traffic in
      subst (Bag h read written) same (
        between (joins_read s.traffic r.0)
          (Perm.trans (Perm.append_right (read r.0) v) (
            between (append_assoc b (all h s.processes) (read r.0)) (Perm.append_left b kept)
              (append_assoc b (written r.0) (all h r.1))))
          (ap (λ l. l ++ all h r.1) (joins_written s.traffic r.0)))

  reach_keeps : (s : Client) → Reach (λ t. t.wrote ≡ true) s → Bag h read written s
  reach_keeps s begins = starts
  reach_keeps s' (goes {s} i t w r run) = step_keeps i t s s' w (reach_keeps s r) run

-- In every order of the statements of the processes of Linux高性能服务器/client.c, as long as no write
-- fails, what they read of the standard input is, piece by piece and but for the order, what they
-- wrote to the socket and what they hold for it: nothing gets lost or is sent twice. The same
-- holds of what they read of the socket and print.
pub pieces_kept :
    (s : Client)
    → Reach (λ t. t.wrote ≡ true) s
    → Perm s.traffic.typed (s.traffic.sent ++ all for_socket s.processes)
      × Perm s.traffic.received (s.traffic.printed ++ all for_stdout s.processes)
unfolding Bag Locally start joined all for_socket for_stdout
pieces_kept s path = (
  reach_keeps for_socket (λ x. x.typed) (λ x. x.sent) refl refl (λ a b. refl) (λ a b. refl) Perm.rfl
      typed-Keeps s path,
  reach_keeps for_stdout (λ x. x.received) (λ x. x.printed) refl refl (λ a b. refl) (λ a b. refl)
      Perm.rfl received-Keeps s path,
)
