-- ===== src/Daytime.antt =====
-- Linux高性能服务器/dayteme.c: a client of the daytime service.
pub mod Reply
mod Tests
use network.Prelude.{
  ℕ, zero, suc, ◌+◌, ◌*◌, ◌/◌, ◌%◌, Bool, true, false, Option, none, some, List, [], ◌∷◌, ◌++◌,
}
use network.Prelude.Lists.{length}
use network.Prelude.Tests.{ltb, ◌==◌, if◌then◌else◌}
use network.Posix.{Answer, got, failed}
use network.Outcome.{Outcome, ok, exited, undefined, ◌>>=◌}

-- `sin_addr` and `sin_port`, in network order.
pub record Address : Type 0 where
  pub sin_addr : ℕ
  pub sin_port : ℕ

-- What the calls answer: the addresses of the host, and the port of the service in network order,
-- where they are found; a socket, where one is made; whether `connect` gets through to an address; and
-- what the one `read` gives.
pub record Answers : Type 0 where
  pub hostinfo : Option (List ℕ)
  pub servinfo : Option ℕ
  pub created : Option ℕ
  pub connects : Address → Bool
  pub answer : Answer

pub data Printed : Type 0 where
  port_is : ℕ → Printed
  sfs : Printed
  day_time_is : List ℕ → Printed

-- The length of `buffer`.
abbrev pub buffer_size : ℕ
buffer_size = 128

-- `assert`, which ends the program where its condition does not hold.
pub asserts : Bool → Outcome (Unit {0})
asserts true = ok tt
asserts false = exited

pub assert_found {ℓ} : {A : Type ℓ} → Option A → Outcome A
assert_found none = exited
assert_found (some a) = ok a

-- `*hostinfo->h_addr_list`: behind the last address is a null pointer.
pub first_address : List ℕ → Outcome ℕ
first_address [] = undefined
first_address (a ∷ rest) = ok a

-- `ntohs`, on a machine that puts the low byte of a word first.
pub ntohs : ℕ → ℕ
ntohs n = (n % 256) * 256 + (n / 256) % 256

-- What `printf("%s")` takes of bytes with a zero behind them.
pub up_to_zero : List ℕ → List ℕ
up_to_zero [] = []
up_to_zero (zero ∷ bs) = []
up_to_zero (suc b ∷ bs) = suc b ∷ up_to_zero bs

-- `connect`; it fails on -1.
pub connects_to : Answers → Address → Bool
connects_to a address = elim a.created [ none ↦ false | some sockfd ↦ a.connects address ]

-- From `read` to the last `printf`. `buffer[result]='\0'` is behind the buffer where all of it is full.
pub read_time : Answer → Outcome (List ℕ)
read_time (failed e) = exited
read_time (got []) = exited
read_time (got (b ∷ bs)) =
    if ltb (length (b ∷ bs)) buffer_size then ok (up_to_zero (b ∷ bs)) else undefined

pub main : ℕ → Answers → Outcome (List Printed)
main argc a = do
  _ ← asserts (argc == 2)
  addresses ← assert_found a.hostinfo
  s_port ← assert_found a.servinfo
  sin_addr ← first_address addresses
  _ ← asserts (connects_to a (record { sin_addr = sin_addr; sin_port = s_port }))
  text ← read_time a.answer
  ok (port_is (ntohs s_port) ∷ sfs ∷ day_time_is text ∷ [])
