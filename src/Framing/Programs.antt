-- ===== src/Framing/Programs.antt =====
-- The two programs over socket.c: the loop of TCP数据粘包问题处理/client.c, which sends a file in
-- messages, and what TCP数据粘包问题处理/serve.c does with a client that is ready.
pub mod Transfer
pub mod Clients
pub mod EndToEnd
mod Tests
use network.Prelude.Maps.{update}
use network.Prelude.{◌++◌, ℕ, zero, suc, Bool, true, false, Option, some, none, List, [], ◌∷◌}
use network.Prelude.Tests.{if◌then◌else◌, ◌==◌}
use network.Prelude.Lists.{length, replicate}
use network.Prelude.Int.{ℤ, pos}
use network.Posix.{Answer, got, failed, Socket}
use network.Run.{Run, done, undefined, unfinished, ◌>>=◌}
use network.Framing.Bytes.{overlay}
use network.Framing.{Received, is_zero, send_msg, recv_msg}

-- The text that `printf("%s", buf)` reads from a block: up to the first zero byte. A byte that was
-- never written is undefined to read, and so is the byte behind the block.
pub c_string : List (Option ℕ) → Run (List ℕ)
c_string [] = undefined
c_string (none ∷ bs) = undefined
c_string (some zero ∷ bs) = done []
c_string (some (suc b) ∷ bs) = c_string bs >>= λ s. done (suc b ∷ s)

-- What one ready client leads to: its message is printed, or it is taken off the epoll set.
pub data Served : Type 0 where
  printed : List ℕ → Served
  removed : Served

module _ (k : Socket) (malloc : ℕ → Bool) where
  open k use {World}

  -- `while((length=read(fd1,temp,rand()%1000))>0)` of client.c. The list holds what `read` returns
  -- in turn; `temp` is the buffer, which is cleared after each message. The result of `sendMsg` is
  -- not looked at. A list that ends leaves the program in `read`.
  pub client_loop : ℕ → ℤ → List Answer → List ℕ → World → Run World
  client_loop fuel fd [] temp w = unfinished
  client_loop fuel fd (failed e ∷ reads) temp w = done w
  client_loop fuel fd (got [] ∷ reads) temp w = done w
  client_loop fuel fd (got (b ∷ bs) ∷ reads) temp w =
      let length' = length (b ∷ bs) in
      send_msg k malloc fuel fd (some (overlay (b ∷ bs) temp)) (pos length') w >>= λ r.
      client_loop fuel fd reads (replicate 1001 0) r.1

  -- The last branch of the loop in serve.c: `recvMsg`, and by its result `EPOLL_CTL_DEL` or a print.
  pub serve_client : World → Run (Served × World)
  unfolding c_string
  serve_client w = do
    (message, w') ← recv_msg k malloc w
    let print = c_string message.block >>= λ s. done (printed s, w')
    if is_zero message.result then done (removed, w') else print

  -- The same client found ready n times.
  pub serve_rounds : ℕ → World → Run (List Served × World)
  serve_rounds zero w = done ([], w)
  serve_rounds (suc n) w = do
    (s, w') ← serve_client w
    (rest, w'') ← serve_rounds n w'
    done (s ∷ rest, w'')

  -- An entry that `epoll_wait` returned, and the connection that `accept` then gives (with its
  -- descriptor), or none.
  pub record Entry : Type 0 where
    pub fd : ℕ
    pub accepted : Option (ℕ × World)

  -- The server: which descriptors are in the epoll set, the connection of each, and what the clients'
  -- messages led to, by descriptor.
  pub record Server : Type 0 where
    pub watch : ℕ → Bool
    pub worlds : ℕ → World
    pub out : List (ℕ × Served)

  -- The set after a client was served.
  pub unwatch : Served → ℕ → (ℕ → Bool) → ℕ → Bool
  unwatch (printed m) fd watch = watch
  unwatch removed fd watch = update watch fd false

  -- The last branch of the loop, for the client `fd`.
  pub serve_fd : ℕ → Server → Run Server
  serve_fd fd s = do
    (result, w) ← serve_client (s.worlds fd)
    done (record s {
      watch = unwatch result fd s.watch;
      worlds = update s.worlds fd w;
      out = s.out ++ ((fd, result) ∷ []);
    })

  -- The body of the loop over the entries. The result of `acceptConn` is not looked at, and
  -- `epoll_ctl` refuses -1.
  pub serve_entry : ℕ → Entry → Server → Run Server
  serve_entry listenfd e s =
      let joined : Run Server = elim e.accepted [
        | none ↦ done s
        | some (cfd, w) ↦
            done (record s { watch = update s.watch cfd true; worlds = update s.worlds cfd w })
      ] in
      if e.fd == listenfd then joined else serve_fd e.fd s

  -- The loop over the entries.
  pub serve_entries : ℕ → List Entry → Server → Run Server
  serve_entries listenfd [] s = done s
  serve_entries listenfd (e ∷ es) s =
      serve_entry listenfd e s >>= λ s'. serve_entries listenfd es s'
