-- ===== src/Lib.antt =====
-- Verification of the network programming exercises: servers and clients over TCP sockets in C.
--
-- The exercises are separate programs. Two of them share a library (TCP数据粘包问题处理/socket.c, used by
-- serve.c and client.c beside it) and some include scoket编程/HEAD.h; the others are servers that answer
-- clients one by one, each over another way of waiting for many descriptors. The parts and their files:
--
-- Prelude, Prelude/*: numbers, lists, tests, maps as functions and the signed int, shared by all.
-- Run: how a run of C code ends: with a value, in undefined behaviour, or out of fuel.
-- Posix: what the programs see of one connected socket: `send`, `recv`, `close` over an abstract state
--   (the record Socket), and what POSIX documents of them as the records IsSink, IsSource, NoFailure,
--   OnlySignals, TakesAll, IsDuplex and FailsEmpty. Posix/Pipe has concrete sockets for which they hold.
-- Framing: TCP数据粘包问题处理/socket.c: writen, sendMsg, readn, recvMsg. A message goes out behind a header
--   of four bytes, its length in network order. Framing/Bytes has the byte order, Framing/Send,
--   Framing/Receive and Framing/Message the lemmas on the three pairs of functions.
-- Framing/Programs: the send loop of client.c, and the entries that the loop of serve.c handles: new
--   clients and ready ones, each with a connection of its own. Framing/Programs/Transfer has a file through
--   each of the two programs, Framing/Programs/Clients several clients of the server, and
--   Framing/Programs/EndToEnd puts them together.
-- Head: scoket编程/HEAD.h: Readn, Writen, Readline, which make a call again after a signal.
-- Reactor: 多路IO转接服务器/epoll反应堆/test.c: the table g_events of slots with callbacks, the epoll set, and
--   the loop that calls them. A slot is a number, the table a function; `data.ptr` and `arg` are slots.
--   Reactor/Table describes the callbacks; Reactor/Invariant, Reactor/Callbacks, Reactor/Accept and
--   Reactor/Steps keep the invariant; Reactor/Reach has the step relation. Reactor/First is the version
--   epoll反应堆.c beside it, of which it has the functions that differ from test.c.
-- Multiplex: the servers that answer in upper case. Multiplex/Poll: 多路IO转接服务器/poll/poll.c;
--   Multiplex/Select: 多路IO转接服务器/select/select优化.c, with the invariant of its table in
--   Multiplex/Select/Table, Joined, Full and Reach; Multiplex/Epoll: 多路IO转接服务器/epoll/epoll.c;
--   Multiplex/Plain: 多路IO转接服务器/select/select.c, which looks at every descriptor in turn.
--   One round of the loop is a function of what the system calls of the round return, the record Turn.
-- Edge: 多路IO转接服务器/epoll/ET非阻塞模式.c, one client in edge-triggered mode. Level:
--   多路IO转接服务器/epoll/ET和LT.c, two processes with a pipe between them.
-- Stream: unpv13e/lib/readn.c, writen.c and readline.c, after which scoket编程/HEAD.h is written; the
--   buffer of readline is passed from call to call. Nonblock: unpv13e/nonblock/strclinonb.c, a client that
--   copies both ways over non-blocking descriptors. Web: unpv13e/nonblock/web.c with start_connect.c and
--   write_get_cmd.c, several connections at a time. Prefork: unpv13e/server/serv05.c and
--   child05.c, a pool of children who get the clients' descriptors over pipes.
--   Checksum: unpv13e/libfree/in_cksum.c, the Internet checksum.
-- Sigio: unpv13e/sigio/dgecho01.c, datagrams read in a signal handler and echoed by the main loop. Sigio/Queue
--   says what waits at each place of the loop, Sigio/Spec is the queue that the server implements, Sigio/Main
--   and Sigio/Refines show that it does. Prethread: unpv13e/server/serv08.c with pthread08.c, threads that
--   take their clients from a buffer. Both have their queue in Ring, a table with two indices that go round.
-- Rtt: unpv13e/lib/rtt.c, the estimates of a timeout, over floating-point numbers as an interface (the
--   record Floats). Rtt/Packet: unpv13e/rtt/dg_send_recv.c, a datagram that is sent again; what comes while it
--   waits is a list of datagrams and alarms. Rtt/Packet/Tests has an instance of the interface.
-- Forking: Linux高性能服务器/client.c, a client that forks in every round. Daytime: dayteme.c beside it.
-- Outcome, Ending: how a round of a program ends: with a state, in an exit with an error, or undefined, or
--   with a search through a table that came to nothing.
-- Setup: the calls that open and connect sockets, over what the system answers. Setup/Servers: the start of
--   each program, up to its loop; Setup/Library: createsocket, setListen, acceptConn and connectToHost of
--   TCP数据粘包问题处理/socket.c.
-- Single: the loops for one connection, of scoket编程/server1.c, scoket编程/client.c and 本地套接字/, and of
--   the child of server2.c and the thread of server3.c. Single/Session: client.c and server1.c on one connection,
--   in steps smaller than a call; Single/Session/Rounds has their loops as such steps.
-- Processes: scoket编程/server2.c, a process for each client. Threads: scoket编程/server3.c, a thread for
--   each client. Both have the descriptors and the order of the steps, with the loop of Single inside.
--   Threads/Owners has the step relation, Threads/Crowd the orders as lists.
--
-- The kernel and the C library are not part of the repository: what `send`, `recv`, `read`, `accept`,
-- `poll`, `select`, `epoll_wait`, `fcntl` and `malloc` return is an input or a parameter everywhere. The
-- epoll set (Reactor) and the sets of open descriptors are kept as epoll_ctl, accept and close document.
-- A place that C leaves undefined is the value `undefined` of Run or Outcome; in Reactor `none` is a null
-- callback or a write behind a buffer.
--
-- Loops of the C code that the kernel can cut into any number of calls run on fuel: writen (a send that
-- takes nothing is made again), Writen, Readn and Readline and the functions of Stream (again after a
-- signal), the loops over read of Edge and Single, and the loop of Web that starts connections. The
-- theorems give the fuel that is enough: one round for each byte and for each signal that the socket still
-- holds, and one more, or one for each file. readn of Framing, the searches and the passes over the tables
-- are structural.
--
-- Lengths are ints of 32 bits: sendMsg and recvMsg are undefined where len + 4 and len + 1 overflow. The
-- tables keep their sizes: 1024 clients, buffers of 4096 bytes in Reactor and Nonblock, queues of 8 datagrams
-- in Sigio and of 32 clients in Prethread. The numbers and times of Rtt are those of 32 bits.
--
-- Not modelled: what is printed for a person (printf, perror), sleep, addresses of peers, a fork that fails
-- (but for Forking), and the start of test.c, which checks no result. Of unpv13e/, the programs of the book Unix Network
-- Programming beside the exercises, only the parts above are modelled. mudo/, protbuf/, rpc/ and the
-- other C++ directories are not C. Of Linux高性能服务器/ the short tests of dup, splice and uids are left.
pub mod Prelude
pub mod Posix
pub mod Run
pub mod Outcome
pub mod Ending
pub mod Setup
pub mod Single
pub mod Processes
pub mod Forking
pub mod Daytime
pub mod Rtt
pub mod Threads
pub mod Edge
pub mod Level
pub mod Framing
pub mod Head
pub mod Reactor
pub mod Multiplex
pub mod Nonblock
pub mod Stream
pub mod Web
pub mod Prefork
pub mod Checksum
pub mod Ring
pub mod Sigio
pub mod Prethread
