-- ===== src/Single.antt =====
-- The servers that answer one client in a loop, and a client that talks to them: scoket编程/server1.c,
-- the child of server2.c and the thread of server3.c, 本地套接字/server.c and client.c, and scoket编程/client.c.
-- The connection is a `Socket`; what goes to standard output is a list of bytes.
pub mod Serves
pub mod Session
mod Tests
use network.Prelude.{ℕ, zero, suc, List, [], ◌∷◌, ◌++◌, map}
use network.Posix.{Answer, got, failed, Socket, toupper}
use network.Run.{Run, done, unfinished}

abbrev pub bufsiz : ℕ
bufsiz = 8192

module _ (k : Socket) where
  open k use {World, send, recv, close}

  -- A round of server1.c: what was read goes to standard output, and in upper case back. A `read` that
  -- failed leaves a count of -1, which both calls of `write` refuse; one of 0 bytes writes nothing.
  pub single_round : List ℕ × World → List ℕ × World
  single_round (out, w) =
      let (answer, w') = recv bufsiz w in
      elim answer [ failed e ↦ (out, w') | got bs ↦ (out ++ bs, (send (map toupper bs) w').1) ]

  -- n rounds of its `while(1)`, which nothing leaves.
  pub single_rounds : ℕ → List ℕ × World → List ℕ × World
  single_rounds zero s = s
  single_rounds (suc n) s = single_rounds n (single_round s)

  -- A round of 本地套接字/server.c.
  pub local_round : World → World
  local_round w =
      let (answer, w') = recv 1024 w in
      elim answer [ failed e ↦ w' | got bs ↦ (send (map toupper bs) w').1 ]

  pub local_rounds : ℕ → World → World
  local_rounds zero w = w
  local_rounds (suc n) w = local_rounds n (local_round w)

  -- The loop of the child of server2.c: at the end of the data it closes and exits.
  pub child_loop : ℕ → List ℕ → World → Run (List ℕ × World)
  child_loop zero out w = unfinished
  child_loop (suc fuel) out w =
      let (answer, w') = recv bufsiz w in
      elim answer [
        | failed e ↦ child_loop fuel out w'
        | got [] ↦ done (out, close w')
        | got (b ∷ bs) ↦
            let upper = map toupper (b ∷ bs) in
            let w'' = (send upper w').1 in child_loop fuel (out ++ upper) w''
      ]

  -- `do_work` of server3.c, which writes to standard output first.
  pub work_loop : ℕ → List ℕ → World → Run (List ℕ × World)
  work_loop zero out w = unfinished
  work_loop (suc fuel) out w =
      let (answer, w') = recv bufsiz w in
      elim answer [
        | failed e ↦ work_loop fuel out w'
        | got [] ↦ done (out, close w')
        | got (b ∷ bs) ↦
            let upper = map toupper (b ∷ bs) in
            let shown = out ++ upper in work_loop fuel shown (send upper w').1
      ]

  -- A round of scoket编程/client.c. (The newline of `printf` is left out.)
  pub hello_round : List ℕ × World → List ℕ × World
  hello_round (out, w) =
      let (answer, w') = recv bufsiz (send (104 ∷ 101 ∷ 108 ∷ 108 ∷ 111 ∷ []) w).1 in
      elim answer [ failed e ↦ (out, w') | got bs ↦ (out ++ bs, w') ]

  -- A round of 本地套接字/client.c, where `typed` is what `read` gives of standard input. A failed `read`
  -- leaves -1, which `write` refuses.
  pub local_client_round : Answer → List ℕ × World → List ℕ × World
  local_client_round typed (out, w) =
      let w1 : World = elim typed [ failed e ↦ w | got bs ↦ (send bs w).1 ] in
      let (answer, w2) = recv 1024 w1 in
      elim answer [ failed e ↦ (out, w2) | got bs ↦ (out ++ bs, w2) ]
