-- ===== src/Setup.antt =====
-- How the programs open their sockets: the calls in front of each loop, with the checks that each
-- program makes. What the calls answer is a parameter (`Answers`).
pub mod Servers
pub mod Library
pub mod Listening
mod Tests
use network.Prelude.{ℕ, Bool, true, false, ◌&&◌, not, Option, none, some}
use network.Prelude.Tests.{if◌then◌else◌}
use network.Outcome.{Outcome, ok, exited, ◌>>=◌}

-- What a socket is bound to: a port on INADDR_ANY, or a path (`SER`, `CLI`).
pub data Address : Type 0 where
  port : ℕ → Address
  serv_socket clit_socket : Address

-- A socket of the process, by what was done with it: `backlog` once it listens, `peer` once it is
-- connected.
pub record Opened : Type 0 where
  pub fd : ℕ
  pub reuse : Bool
  pub address : Option Address
  pub backlog : Option ℕ
  pub peer : Option Address

-- `socket` gives a descriptor or fails; whether `setsockopt`, `bind`, `listen` and `connect` succeed;
-- and whether the path of a local socket exists already.
pub record Answers : Type 0 where
  pub created : Option ℕ
  pub reusing : Bool
  pub bound : Bool
  pub listening : Bool
  pub connected : Bool
  pub path_left : Bool

-- `socket` with its check, as each server has it.
pub make : Answers → Outcome Opened
make a = elim a.created [
  | none ↦ exited
  | some fd ↦ ok (record { fd = fd; reuse = false; address = none; backlog = none; peer = none })
]

-- `setsockopt(SO_REUSEADDR)`; no program looks at its result.
pub set_reuse : Answers → Bool → Opened → Opened
set_reuse a opt s = record s { reuse = a.reusing && opt }

-- `bind`: the result -1 is `none`. A path that exists is in use.
pub bind : Answers → Address → Opened → Option Opened
bind a (port p) s = if a.bound then some (record s { address = some (port p) }) else none
bind a serv_socket s =
    if a.bound && not a.path_left then some (record s { address = some serv_socket }) else none
bind a clit_socket s =
    if a.bound && not a.path_left then some (record s { address = some clit_socket }) else none

-- `unlink` of the path.
pub unlink : Answers → Answers
unlink a = record a { path_left = false }

pub listen : Answers → ℕ → Opened → Option Opened
listen a n s = if a.listening then some (record s { backlog = some n }) else none

pub connect : Answers → Address → Opened → Option Opened
connect a to s = if a.connected then some (record s { peer = some to }) else none

-- `if(ret==-1) sys_error(...)`.
pub checked : Option Opened → Outcome Opened
checked none = exited
checked (some s) = ok s

-- A call whose result is not looked at: after a failure the socket is as before.
pub unchecked : Option Opened → Opened → Opened
unchecked none s = s
unchecked (some s') s = s'
