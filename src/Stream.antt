-- ===== src/Stream.antt =====
-- unpv13e/lib/readn.c, writen.c and readline.c: the functions of the book after which scoket编程/HEAD.h is
-- written. `readline` reads 4096 bytes at a time and keeps what is left for the next call.
pub mod Exact
pub mod Lines
mod Tests
use network.Prelude.{ℕ, zero, suc, ◌+◌, ◌-◌, List, [], ◌∷◌, ◌++◌}
use network.Prelude.Tests.{◌==◌, if◌then◌else◌}
use network.Prelude.Lists.{length, drop}
use network.Prelude.Int.{ℤ, pos, minus_one}
use network.Posix.{Answer, got, failed, sent, refused, Socket, eintr}
use network.Run.{Run, done, unfinished, ◌>>=◌}

-- What `my_read` gives: 1 and a byte, 0 at the end of the data, or -1.
pub data Byte : Type 0 where
  byte : ℕ → Byte
  at_end : Byte
  error : Byte

module _ (k : Socket) where
  open k use {World, send, recv}

  -- `readn(fd,vptr,n)` with `nleft` bytes to go: the result, the bytes stored and the state.
  pub readn_loop : ℕ → ℕ → ℕ → List ℕ → World → Run (ℤ × List ℕ × World)
  readn_loop zero n nleft ptr w = unfinished
  readn_loop (suc fuel) n zero ptr w = done (pos (n - 0), ptr, w)
  readn_loop (suc fuel) n (suc nleft) ptr w =
      let (answer, w') = recv (suc nleft) w in
      let again = readn_loop fuel n (suc nleft) ptr w' in
      elim answer [
        | failed e ↦ if e == eintr then again else done (minus_one, ptr, w')
        | got [] ↦ done (pos (n - suc nleft), ptr, w')
        | got (b ∷ bs) ↦ readn_loop fuel n (suc nleft - length (b ∷ bs)) (ptr ++ (b ∷ bs)) w'
      ]

  pub readn : ℕ → ℕ → World → Run (ℤ × List ℕ × World)
  unfolding readn_loop
  readn fuel n w = readn_loop fuel n n [] w

  -- `writen(fd,vptr,n)` with the bytes that are left.
  pub writen_loop : ℕ → ℤ → List ℕ → World → Run (ℤ × World)
  writen_loop zero n ptr w = unfinished
  writen_loop (suc fuel) n [] w = done (n, w)
  writen_loop (suc fuel) n (b ∷ ptr) w =
      let (answer, w') = send (b ∷ ptr) w in
      let again = writen_loop fuel n (b ∷ ptr) w' in
      elim answer [
        | refused e ↦ if e == eintr then again else done (minus_one, w')
        | sent zero ↦ done (minus_one, w')
        | sent (suc taken) ↦ writen_loop fuel n (drop (suc taken) (b ∷ ptr)) w'
      ]

  pub writen : ℕ → List ℕ → World → Run (ℤ × World)
  unfolding writen_loop
  writen fuel ptr w = writen_loop fuel (pos (length ptr)) ptr w

  -- `my_read(fd,&c)`, where `left` is the `read_cnt` bytes at `read_ptr`; a count of 0 or -1 is no byte.
  pub my_read : ℕ → List ℕ → World → Run (Byte × List ℕ × World)
  my_read fuel (c ∷ left) w = done (byte c, left, w)
  my_read zero [] w = unfinished
  my_read (suc fuel) [] w =
      let (answer, w') = recv 4096 w in
      let again = my_read fuel [] w' in
      elim answer [
        | failed e ↦ if e == eintr then again else done (error, [], w')
        | got [] ↦ done (at_end, [], w')
        | got (c ∷ cs) ↦ done (byte c, cs, w')
      ]

  -- `readline(fd,vptr,maxlen)`: the loop at `n` with `maxlen - n` rounds to go. The fuel is for each read.
  pub readline_loop : ℕ → ℕ → ℕ → List ℕ → List ℕ → World → Run (ℤ × List ℕ × List ℕ × World)
  readline_loop fuel zero n ptr left w = done (pos n, ptr ++ (0 ∷ []), left, w)
  readline_loop fuel (suc room) n ptr left w = my_read fuel left w >>= λ r. elim r.0 [
    | byte c ↦
        let next = readline_loop fuel room (n + 1) (ptr ++ (c ∷ [])) r.1 r.2 in
        if c == 10 then done (pos n, ptr ++ (c ∷ 0 ∷ []), r.1, r.2) else next
    | at_end ↦ done (pos (n - 1), ptr ++ (0 ∷ []), r.1, r.2)
    | error ↦ done (minus_one, ptr, r.1, r.2)
  ]

  pub readline : ℕ → ℕ → List ℕ → World → Run (ℤ × List ℕ × List ℕ × World)
  unfolding readline_loop
  readline fuel maxlen left w = readline_loop fuel (maxlen - 1) 1 [] left w

  -- A number of calls one after the other: the result and the line of each.
  pub readlines : ℕ → ℕ → ℕ → List ℕ → World → Run (List (ℤ × List ℕ) × List ℕ × World)
  readlines fuel maxlen zero left w = done ([], left, w)
  readlines fuel maxlen (suc calls) left w = readline fuel maxlen left w >>= λ r.
      readlines fuel maxlen calls r.2 r.3 >>= λ rest. done ((r.0, r.1) ∷ rest.0, rest.1, rest.2)
