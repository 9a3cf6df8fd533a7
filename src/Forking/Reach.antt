-- ===== src/Forking/Reach.antt =====
-- The states that the processes of client.c reach together, and what a step does to a sum over them.
use network.Prelude.{ℕ, ◌≡◌, refl, List}
use network.Posix.{Answer, got, failed}
use network.Outcome.{Outcome, ok, exited, undefined, ◌>>=◌}
use network.Forking.{
  at, at_fork, at_stdin, at_socket, to_socket, to_stdout, Process, Client, Turn, Effect, start,
  step,
}

-- Any processes in turn, with answers of the system that P allows.
pub data Reach (P : Turn → Type 0) : Client → Type 0 where
  begins : Reach P start
  goes : {s s' : Client} (i : ℕ) (t : Turn) → P t → Reach P s → step i t s ≡ ok s' → Reach P s'

pub came {ℓ κ} :
    {A : Type ℓ} {B : Type κ} (o : Outcome A) (f : A → B) (b : B)
    → (o >>= λ a. ok (f a)) ≡ ok b
    → (a : A) × (o ≡ ok a) × (f a ≡ b)
came (ok a) f b h = (a, refl, cc h)
came exited f b h = absurd (cc h)
came undefined f b h = absurd (cc h)

-- A claim for every place holds for every process.
pub at_places :
    (P : Process → Type 0) (p : Process)
    → P (at p at_fork)
    → P (at p at_stdin)
    → P (at p at_socket)
    → ((bs : List ℕ) → P (at p (to_socket bs)))
    → ((bs : List ℕ) → P (at p (to_stdout bs)))
    → P p
at_places P p a b c d e = elim p.place as (λ x. P (at p x)) [
  | at_fork ↦ a
  | at_stdin ↦ b
  | at_socket ↦ c
  | to_socket bs ↦ d bs
  | to_stdout bs ↦ e bs
]

pub read_came :
    (a : Answer) (f : List ℕ → Effect) (e : Effect)
    → (elim a as (λ x. Outcome Effect) [ failed n ↦ undefined | got bs ↦ ok (f bs) ]) ≡ ok e
    → (bs : List ℕ) × (f bs ≡ e)
read_came (got bs) f e run = (bs, cc run)
read_came (failed n) f e run = absurd (cc run)
