-- ===== src/Forking.antt =====
-- Linux高性能服务器/client.c, whose loop Linux高性能服务器/test6-4.c has too: a client that forks in every
-- round. The child reads the standard input and writes to the socket, the parent reads the socket and
-- writes to the standard output, and then each of them forks again.
pub mod Reach
pub mod Pieces
pub mod Kept
pub mod Doubles
mod Tests
use network.Prelude.{ℕ, zero, suc, ◌+◌, Bool, true, false, Option, none, some, List, [], ◌∷◌, ◌++◌}
use network.Prelude.Tests.{if◌then◌else◌}
use network.Posix.{Answer, got, failed}
use network.Outcome.{Outcome, ok, exited, undefined, ◌>>=◌}

-- Where a process stands: in front of `fork`; in front of the `read` of the standard input or of the socket; and
-- behind it, with the bytes read, in front of the `write` to the socket or to the standard output.
pub data Place : Type 0 where
  at_fork at_stdin at_socket : Place
  to_socket to_stdout : List ℕ → Place

-- A process, with the number of its calls of `fork`, those of its parent before it among them.
pub record Process : Type 0 where
  pub place : Place
  pub forks : ℕ

-- What the processes read and wrote, a piece for each call.
pub record Traffic : Type 0 where
  pub typed : List (List ℕ)
  pub sent : List (List ℕ)
  pub received : List (List ℕ)
  pub printed : List (List ℕ)

pub record Client : Type 0 where
  pub traffic : Traffic
  pub processes : List Process

-- What the system answers to the next statement: whether `fork` makes a child, what `read` gives, and
-- whether `write` takes the bytes, all of them, or fails.
pub record Turn : Type 0 where
  pub forked : Bool
  pub answer : Answer
  pub wrote : Bool

-- What a statement does: what goes through, and the process and its new children behind it.
pub record Effect : Type 0 where
  pub through : Traffic
  pub process : Process
  pub children : List Process

abbrev pub quiet : Traffic
quiet = record { typed = []; sent = []; received = []; printed = [] }

abbrev at : Process → Place → Process
at p x = record p { place = x }

-- `while (1) connect(...)` with these answers: whether it got through, and the answers that are left.
pub connect_loop : List Bool → Option (List Bool)
connect_loop [] = none
connect_loop (true ∷ answers) = some answers
connect_loop (false ∷ answers) = connect_loop answers

-- Behind `connect`.
pub start : Client
start = record { traffic = quiet; processes = record { place = at_fork; forks = 0 } ∷ [] }

-- `fork`: -1 is not 0, so that a process without a child reads the socket.
pub fork : Turn → Process → Effect
fork t p =
    let forks = p.forks + 1 in
    record {
      through = quiet;
      process = record { place = at_socket; forks = forks };
      children = if t.forked then record { place = at_stdin; forks = forks } ∷ [] else [];
    }

-- Behind `write`, whose result no one looks at.
abbrev pub goes_on : Process → Traffic → Effect
goes_on p through = record { through = through; process = at p at_fork; children = [] }

-- The next statement of a process. `write` with the result -1 of a failed `read` as its length reads
-- behind the buffer.
pub turn : Turn → Process → Outcome Effect
turn t p = elim p.place [
  | at_fork ↦ ok (fork t p)
  | at_stdin ↦ elim t.answer [
    | failed e ↦ undefined
    | got bs ↦ ok (record {
      through = record quiet { typed = bs ∷ [] };
      process = at p (to_socket bs);
      children = [];
    })
  ]
  | at_socket ↦ elim t.answer [
    | failed e ↦ undefined
    | got bs ↦ ok (record {
      through = record quiet { received = bs ∷ [] };
      process = at p (to_stdout bs);
      children = [];
    })
  ]
  | to_socket bs ↦ ok (goes_on p (record quiet { sent = if t.wrote then bs ∷ [] else [] }))
  | to_stdout bs ↦ ok (goes_on p (record quiet { printed = if t.wrote then bs ∷ [] else [] }))
]

-- The next statement of the i-th process.
pub turn_at : ℕ → Turn → List Process → Outcome (Traffic × List Process)
turn_at i t [] = ok (quiet, [])
turn_at zero t (p ∷ ps) = turn t p >>= λ e. ok (e.through, e.process ∷ (ps ++ e.children))
turn_at (suc i) t (p ∷ ps) = turn_at i t ps >>= λ r. ok (r.0, p ∷ r.1)

-- What went through, with what follows.
pub joined : Traffic → Traffic → Traffic
joined a b = record {
  typed = a.typed ++ b.typed;
  sent = a.sent ++ b.sent;
  received = a.received ++ b.received;
  printed = a.printed ++ b.printed;
}

pub step : ℕ → Turn → Client → Outcome Client
step i t s =
    turn_at i t s.processes >>= λ r. ok (record { traffic = joined s.traffic r.0; processes = r.1 })
