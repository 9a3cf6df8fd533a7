-- ===== src/Setup/Servers.antt =====
-- The servers and clients up to their loops, each as its file has it.
use network.Prelude.{ℕ, Bool, true}
use network.Outcome.{Outcome, ok, ◌>>=◌}
use network.Setup.{
  Opened, Answers, port, serv_socket, clit_socket, make, set_reuse, bind, unlink, listen, connect,
  checked, unchecked,
}

-- 多路IO转接服务器/select/select.c.
unfoldable pub open_select : Answers → Outcome Opened
open_select a = do
  s ← make a
  s' ← checked (bind a (port 6666) (set_reuse a true s))
  checked (listen a 128 s')

-- 多路IO转接服务器/select/select优化.c.
unfoldable pub open_table : Answers → Outcome Opened
open_table a = do
  s ← make a
  s' ← checked (bind a (port 6665) (set_reuse a true s))
  checked (listen a 128 s')

-- 多路IO转接服务器/poll/poll.c.
unfoldable pub open_poll : Answers → Outcome Opened
open_poll a = do s ← make a; s' ← checked (bind a (port 6666) s); checked (listen a 128 s')

-- scoket编程/server2.c.
unfoldable pub open_processes : Answers → Outcome Opened
open_processes a = do
  s ← make a
  s' ← checked (bind a (port 9995) (set_reuse a true s))
  checked (listen a 128 s')

-- scoket编程/server3.c.
unfoldable pub open_threads : Answers → Outcome Opened
open_threads a = do s ← make a; s' ← checked (bind a (port 9995) s); checked (listen a 128 s')

-- 多路IO转接服务器/epoll/ET非阻塞模式.c: `setsockopt` reads `opt` before it has a value; `opt` is what it
-- happens to be. (It is called on -1 too, in front of the check.)
unfoldable pub open_edge : Answers → Bool → Outcome Opened
open_edge a opt = do
  s ← make a
  s' ← checked (bind a (port 6665) (set_reuse a opt s))
  checked (listen a 128 s')

-- 多路IO转接服务器/epoll/epoll.c: the result of `listen` is not looked at.
unfoldable pub open_epoll : Answers → Outcome Opened
open_epoll a = do
  s ← make a
  s' ← checked (bind a (port 6666) (set_reuse a true s))
  ok (unchecked (listen a 128 s') s')

-- 多路IO转接服务器/epoll反应堆/epoll反应堆.c, in `initlistensocket(efd, port)`.
unfoldable pub open_reactor : Answers → ℕ → Outcome Opened
open_reactor a p = do
  s ← make a
  s' ← checked (bind a (port p) s)
  ok (unchecked (listen a 20 s') s')

-- scoket编程/server1.c.
unfoldable pub open_single : Answers → Outcome Opened
open_single a = do
  s ← make a
  s' ← checked (bind a (port 9527) (set_reuse a true s))
  ok (unchecked (listen a 128 s') s')

-- TCP数据粘包问题处理/serve.c. (Where `socket` fails, `main` returns.)
unfoldable pub open_frames : Answers → Outcome Opened
open_frames a = do
  s ← make a
  s' ← checked (bind a (port 9526) s)
  ok (unchecked (listen a 128 s') s')

-- 本地套接字/server.c, where `socket` is not checked but -1 cannot be bound.
unfoldable pub open_local : Answers → Outcome Opened
open_local a = do
  s ← make a
  s' ← checked (bind (unlink a) serv_socket s)
  ok (unchecked (listen a 20 s') s')

-- 本地套接字/client.c, up to "连接成功".
unfoldable pub dial_local : Answers → Outcome Opened
dial_local a = do
  s ← make a
  s' ← checked (bind (unlink a) clit_socket s)
  checked (connect a serv_socket s')

-- scoket编程/client.c, up to "连接成功"; -1 cannot be connected.
unfoldable pub dial_single : Answers → Outcome Opened
dial_single a = do s ← make a; checked (connect a (port 9527) s)

-- TCP数据粘包问题处理/client.c: the result of `connect` is not looked at.
unfoldable pub dial_frames : Answers → Outcome Opened
dial_frames a = do s ← make a; ok (unchecked (connect a (port 9526) s) s)
