-- ===== src/Head.antt =====
-- `Readn`, `Writen` and `Readline` of scoket编程/HEAD.h: reads and writes that go on after a signal.
-- `read` and `write` are the calls of a `Socket`; a size is a number below 2 ^ 63.
pub mod Reads
pub mod Writes
pub mod Lines
mod Tests
use network.Prelude.{ℕ, zero, suc, ◌+◌, ◌-◌, Bool, true, false, List, [], ◌∷◌, ◌++◌}
use network.Prelude.Tests.{ltb, ◌==◌, if◌then◌else◌}
use network.Prelude.Lists.{drop, length}
use network.Prelude.Int.{ℤ, pos, minus_one}
use network.Posix.{Answer, got, failed, sent, refused, Socket, eintr}
use network.Run.{Run, done, unfinished}

-- `read(fd,ptr,nleft)<0`, as a number.
abbrev pub is_failure : Answer → ℕ
is_failure (got bs) = 0
is_failure (failed e) = 1

abbrev pub bytes_of : Answer → List ℕ
bytes_of (got bs) = bs
bytes_of (failed e) = []

abbrev pub is_eintr : Answer → Bool
is_eintr (got bs) = false
is_eintr (failed e) = e == eintr

module _ (k : Socket) where
  open k use {World, send, recv}

  -- `Readn(fd,vptr,n)`: the result, the bytes stored and the state. The condition
  -- `nread=read(fd,ptr,nleft)<0` assigns the comparison, so `nread` is 1 after a failure and 0
  -- after any other answer.
  pub readn_loop : ℕ → ℕ → ℕ → List ℕ → World → Run (ℤ × List ℕ × World)
  readn_loop zero n nleft ptr w = unfinished
  readn_loop (suc fuel) n zero ptr w = done (pos (n - 0), ptr, w)
  readn_loop (suc fuel) n (suc nleft) ptr w =
      let (answer, w') = recv (suc nleft) w in
      let stored = ptr ++ bytes_of answer in
      let again = readn_loop fuel n (suc nleft) stored w' in
      let failure = if is_eintr answer then again else done (minus_one, stored, w') in
      if is_failure answer == 0 then done (pos (n - suc nleft), stored, w') else failure

  pub readn : ℕ → ℕ → World → Run (ℤ × List ℕ × World)
  unfolding readn_loop
  readn fuel n w = readn_loop fuel n n [] w

  -- `Writen(fd,vptr,n)` with the n bytes at `vptr`.
  unfoldable pub writen_loop : ℕ → ℤ → List ℕ → World → Run (ℤ × World)
  writen_loop zero n ptr w = unfinished
  writen_loop (suc fuel) n [] w = done (n, w)
  writen_loop (suc fuel) n (b ∷ ptr) w =
      let (answer, w') = send (b ∷ ptr) w in
      let again = writen_loop fuel n (b ∷ ptr) w' in
      elim answer [
        | refused e ↦ if e == eintr then again else done (minus_one, w')
        | sent zero ↦ done (minus_one, w')
        | sent (suc taken) ↦ writen_loop fuel n (drop (suc taken) (b ∷ ptr)) w'
      ]

  unfoldable pub writen : ℕ → List ℕ → World → Run (ℤ × World)
  unfolding writen_loop
  writen fuel ptr w = writen_loop fuel (pos (length ptr)) ptr w

  -- `Readline(fd,vptr,maxlen)`: the loop at `n`, with the bytes stored so far. `read(fd,&c,1)` is
  -- made again after a signal; a 1 is a byte, which ends the line if it is a newline.
  pub readline_loop : ℕ → ℕ → ℕ → List ℕ → World → Run (ℤ × List ℕ × World)
  readline_loop zero maxlen n ptr w = unfinished
  readline_loop (suc fuel) maxlen n ptr w =
      let (answer, w') = recv 1 w in
      let again = readline_loop fuel maxlen n ptr w' in
      elim (ltb n maxlen) [
        | false ↦ done (pos n, ptr ++ (0 ∷ []), w)
        | true ↦ elim answer [
          | got [] ↦ done (pos (n - 1), ptr ++ (0 ∷ []), w')
          | got (c ∷ cs) ↦
              let next = readline_loop fuel maxlen (n + 1) (ptr ++ (c ∷ [])) w' in
              if c == 10 then done (pos n, ptr ++ (c ∷ 0 ∷ []), w') else next
          | failed e ↦ if e == eintr then again else done (minus_one, ptr, w')
        ]
      ]

  pub readline : ℕ → ℕ → World → Run (ℤ × List ℕ × World)
  unfolding readline_loop
  readline fuel maxlen w = readline_loop fuel maxlen 1 [] w
