-- ===== src/Edge.antt =====
-- 多路IO转接服务器/epoll/ET非阻塞模式.c: one client in edge-triggered mode. `epoll_wait` tells of each
-- arrival once, so the loop reads until `read` gives nothing.
pub mod Drain
mod Tests
use network.Prelude.{ℕ, zero, suc, List, [], ◌∷◌, ◌++◌}
use network.Posix.{Answer, got, failed, Socket}
use network.Run.{Run, done, unfinished, ◌>>=◌}

module _ (k : Socket) where
  open k use {World, recv}

  -- `while((len1=read(cfd,buf,MAXLEN/2))>0)`, with what was written to standard output.
  pub drain : ℕ → List ℕ → World → Run (List ℕ × World)
  drain zero out w = unfinished
  drain (suc fuel) out w =
      let (answer, w') = recv 5 w in
      elim answer [
        | failed e ↦ done (out, w')
        | got [] ↦ done (out, w')
        | got (b ∷ bs) ↦ drain fuel (out ++ (b ∷ bs)) w'
      ]

  -- The rounds of `while(1)` for a list of arrivals, each with its event; `arrive` is what an arrival
  -- does to the connection.
  pub rounds : (List ℕ → World → World) → ℕ → List (List ℕ) → List ℕ → World → Run (List ℕ × World)
  rounds arrive fuel [] out w = done (out, w)
  rounds arrive fuel (bs ∷ arrivals) out w =
      drain fuel out (arrive bs w) >>= λ r. rounds arrive fuel arrivals r.0 r.1
