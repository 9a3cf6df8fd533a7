-- ===== src/Framing.antt =====
-- `writen`, `sendMsg`, `readn` and `recvMsg` of TCP数据粘包问题处理/socket.c: messages over a TCP
-- stream, each behind its length in four bytes. One connected descriptor is a `Socket`.
pub mod Bytes
pub mod Send
pub mod Receive
pub mod Message
pub mod Programs
use network.Prelude.{
  ℕ, zero, suc, ◌+◌, ◌-◌, ◌^◌, Bool, true, false, ◌&&◌, Option, none, some, List, [], ◌∷◌, ◌++◌,
  map,
}
use network.Prelude.Tests.{ltb, leb, if◌then◌else◌}
use network.Prelude.Lists.{length, take, drop, replicate}
use network.Prelude.Int.{ℤ, pos, negsuc, minus_one, to_int}
use network.Posix.{got, failed, sent, refused, Socket}
use network.Run.{Run, done, undefined, unfinished, ◌>>=◌}
use Bytes.{int_bytes, of_bytes, htonl, ntohl, overlay}

-- What `recvMsg` stores through `msg`: the block that it allocated, byte for byte (`none` is a byte
-- that was never written), with its result and whether it closed the descriptor.
pub record Received : Type 0 where
  pub result : ℤ
  pub block : List (Option ℕ)
  pub closed : Bool

-- `Len==0`
abbrev pub is_zero : ℤ → Bool
is_zero (pos zero) = true
is_zero (pos (suc n)) = false
is_zero (negsuc n) = false

module _ (k : Socket) where
  open k use {World, send, recv}

  -- `while(count>0)` of `writen`: `buf` is what is left of the message, `count` its length. A `send`
  -- that takes nothing is made again.
  pub writen_loop : ℕ → ℤ → List ℕ → World → Run (ℤ × World)
  writen_loop zero size buf w = unfinished
  writen_loop (suc fuel) size [] w = done (size, w)
  writen_loop (suc fuel) size (b ∷ buf) w =
      let (answer, w') = send (b ∷ buf) w in
      elim answer [
        | refused e ↦ done (minus_one, w')
        | sent n ↦ writen_loop fuel size (drop n (b ∷ buf)) w'
      ]

  -- `writen(fd, msg, size)` with the `size` bytes at `msg`.
  pub writen : ℕ → List ℕ → World → Run (ℤ × World)
  writen fuel msg w = writen_loop fuel (pos (length msg)) msg w

  -- `while(count>0)` of `readn`, with the bytes that came so far: the result, the bytes and the
  -- state after. An empty answer ends the loop, so each round takes a byte.
  pub readn_loop : ℕ → ℕ → ℕ → List ℕ → World → Run (ℤ × List ℕ × World)
  readn_loop zero size count pt w = unfinished
  readn_loop (suc fuel) size zero pt w = done (pos (size - 0), pt, w)
  readn_loop (suc fuel) size (suc count) pt w =
      let (answer, w') = recv (suc count) w in
      elim answer [
        | failed e ↦ done (minus_one, pt, w')
        | got [] ↦ done (pos (size - suc count), pt, w')
        | got (b ∷ bs) ↦ readn_loop fuel size (suc count - length (b ∷ bs)) (pt ++ (b ∷ bs)) w'
      ]

  -- `readn(fd, buf, size)`: the result, the bytes stored from `buf` on, and the state. At a negative
  -- size the loop is not entered and `size - count` is 0.
  pub readn : ℤ → World → Run (ℤ × List ℕ × World)
  unfolding readn_loop
  readn (pos size) w = readn_loop (suc size) size size [] w
  readn (negsuc n) w = done (pos 0, [], w)

-- `malloc n` is whether the allocator has a block of n bytes.
module _ (k : Socket) (malloc : ℕ → Bool) where
  open k use {World, close}

  -- `if(ret==-1)` of `sendMsg`: the descriptor is closed. (The message to stderr is left out.)
  pub close_failed : ℤ × World → Run (ℤ × World)
  close_failed (pos n, w) = done (pos n, w)
  close_failed (negsuc n, w) = done (negsuc n, close w)

  -- The part of `sendMsg` behind its guard: allocate, copy the header and the message, write all.
  pub send_checked : ℕ → List ℕ → ℕ → World → Run (ℤ × World)
  unfolding writen close_failed
  send_checked fuel msg len w = do
    r ← writen k fuel (int_bytes (htonl len) ++ take len msg) w
    close_failed r

  -- `sendMsg(fd, msg, len)`: `msg` is the buffer there (`none` is NULL), of which `len` bytes are
  -- copied. `len + 4` may not overflow, `malloc` may not fail and the buffer holds `len` bytes.
  pub send_msg : ℕ → ℤ → Option (List ℕ) → ℤ → World → Run (ℤ × World)
  unfolding send_checked
  send_msg fuel (negsuc fd) msg len w = done (minus_one, w)
  send_msg fuel (pos fd) none len w = done (minus_one, w)
  send_msg fuel (pos fd) (some msg) (negsuc len) w = done (minus_one, w)
  send_msg fuel (pos fd) (some msg) (pos zero) w = done (minus_one, w)
  send_msg fuel (pos fd) (some msg) (pos (suc len)) w =
      if ltb (suc len + 4) (2 ^ 31) && malloc (suc len + 4) && leb (suc len) (length msg)
      then send_checked fuel msg (suc len) w
      else undefined

  -- The end of `recvMsg`, from `readn(fd, data, len)` on: `bs` were stored, the rest of the `len`
  -- bytes stay indeterminate, and a zero byte follows.
  pub recv_finish : ℕ → ℤ × List ℕ × World → Received × World
  recv_finish len (ret, bs, w) = (
    record {
      result = ret;
      block = map some bs ++ (replicate (len - length bs) none ++ (some 0 ∷ []));
      closed = is_zero ret;
    },
    if is_zero ret then close w else w,
  )

  -- What follows the header: at a negative `len`, at a `len + 1` that overflows, or without memory
  -- `data[len] = '\0'` writes outside of the block.
  pub recv_body : ℤ → World → Run (Received × World)
  unfolding readn recv_finish
  recv_body (negsuc n) w = undefined
  recv_body (pos len) w =
      if ltb (len + 1) (2 ^ 31) && malloc (len + 1)
      then (readn k (pos len) w >>= λ r. done (recv_finish len r))
      else undefined

  -- `recvMsg(fd, &msg)`. `len` is 0 before the header is read into it, and the result of that read
  -- is not looked at.
  pub recv_msg : World → Run (Received × World)
  unfolding readn recv_body
  recv_msg w = do
    (ret, bs, w') ← readn k (pos 4) w
    recv_body (to_int (ntohl (of_bytes (overlay bs (0 ∷ 0 ∷ 0 ∷ 0 ∷ []))))) w'
