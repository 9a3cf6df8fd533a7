-- ===== src/Multiplex.antt =====
-- The servers of 多路IO转接服务器/ that answer each client with its own bytes in upper case: what they
-- share. Each waits in one system call (`select`, `poll`, `epoll_wait`) for many descriptors; what that
-- call and `accept` and `read` return is an input of the round, what is handed to `write` its output.
pub mod Poll
pub mod Epoll
pub mod Select
pub mod Plain
