-- ===== src/Setup/Library.antt =====
-- The socket calls that TCP数据粘包问题处理/socket.c wraps.
use network.Prelude.{ℕ, ◌%◌, ◌^◌, Bool, Option, none, some, List}
use network.Prelude.Tests.{if◌then◌else◌}
use network.Prelude.Int.{ℤ, pos, minus_one}
use network.Setup.{Opened, Answers, port, bind, listen, unchecked}

-- A descriptor, or -1.
pub result_of : Option ℕ → ℤ
result_of none = minus_one
result_of (some fd) = pos fd

pub createsocket : Answers → ℤ
createsocket a = result_of a.created

-- `setListen(lfd, port)`, where `port` is an `unsigned short`: the result, and the socket after.
pub set_listen : Answers → Opened → ℕ → ℤ × Opened
set_listen a s p = elim (bind a (port (p % 2 ^ 16)) s) [
  | none ↦ (minus_one, s)
  | some s' ↦ (pos 1, unchecked (listen a 128 s') s')
]

-- `acceptConn(lfd, addr)`, where `accept` gives a descriptor and the peer's address: the result, and
-- the structure behind `addr` after. With an address the kernel writes over the variable `addr`, not
-- over the structure that it points to.
pub accept_conn : Option (ℕ × List ℕ) → Option (List ℕ) → ℤ × Option (List ℕ)
accept_conn none addr = (minus_one, addr)
accept_conn (some (fd, peer)) none = (pos fd, none)
accept_conn (some (fd, peer)) (some before) = (pos fd, some before)

-- `connectToHost(lfd, ip, port)`: `none` of `inet_pton` leaves the address without a value; whether
-- `connect` to an address and a port succeeds is a parameter.
pub connect_to_host : (List ℕ → Option ℕ) → (Option ℕ → ℕ → Bool) → List ℕ → ℕ → ℤ
connect_to_host inet_pton connects ip p =
    if connects (inet_pton ip) (p % 2 ^ 16) then pos 0 else minus_one
