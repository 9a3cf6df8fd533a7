-- ===== src/Framing/Message.antt =====
-- `recvMsg` against the frames of `sendMsg`: a whole frame, the end of the stream, a bad length.
use network.Prelude.{
  ℕ, suc, ◌+◌, ◌-◌, ◌^◌, ◌≤◌, ◌<◌, ◌≡◌, ◌∙◌, ap, Bool, true, false, some, List, [], ◌∷◌, ◌++◌, map,
  append_assoc, arith,
}
use network.Prelude.Tests.{lt→ltb, ltb-false}
use network.Prelude.Lists.{length}
use network.Prelude.Int.{pos, negsuc, to_int}
use network.Posix.{Socket, IsSource, NoFailure}
use network.Run.{done, undefined}
use network.Framing.Bytes.{big_endian, of_bytes, ntohl, overlay, ntohl-of_bytes-big_endian}
use network.Framing.{Received, recv_finish, recv_body, recv_msg}
use network.Framing.Send.{frame}
use network.Framing.Receive.{readn_exact, readn_end}

-- The `len` of `recvMsg` after a header that came whole.
header_len :
    (n : ℕ)
    → n < 2 ^ 32
    → to_int (ntohl (of_bytes (overlay (big_endian n) (0 ∷ 0 ∷ 0 ∷ 0 ∷ [])))) ≡ to_int n
unfolding overlay big_endian
header_len n h = ap to_int (ntohl-of_bytes-big_endian n h)

to_int-small : (n : ℕ) → n < 2 ^ 31 → to_int n ≡ pos n
unfolding to_int
to_int-small n h = rw (lt→ltb _ _ h)

to_int-large : (n : ℕ) → 2 ^ 31 ≤ n → to_int n ≡ negsuc (2 ^ 32 - 1 - n)
unfolding to_int
to_int-large n h = rw (ltb-false _ _ h)

-- What a complete message is stored as.
abbrev pub delivered : List ℕ → Received
delivered msg = record {
  result = pos (length msg);
  block = map some msg ++ (some 0 ∷ []);
  closed = false;
}

recv_finish_full :
    (k : Socket) (malloc : ℕ → Bool) (msg : List ℕ) (w : Socket.World k)
    → 0 < length msg
    → recv_finish k malloc (length msg) (pos (length msg), msg, w) ≡ (delivered msg, w)
unfolding recv_finish
recv_finish_full k malloc [] w h = absurd (omega arith)
recv_finish_full k malloc (b ∷ msg) w h =
    let e : suc (length msg) - suc (length msg) ≡ 0 = omega arith in rw e

module _ (k : Socket) (malloc : ℕ → Bool) (pending : Socket.World k → List ℕ) where
  -- recvMsg on a stream that begins with the frame of a message of 1 to 2 ^ 31 - 2 bytes, cut into
  -- answers in any way by a source without failures, delivers exactly the message and a zero byte
  -- behind it, returns its length, keeps the descriptor open and leaves the rest of the stream.
  pub recv_msg-frame :
      IsSource k pending
      → NoFailure k
      → (msg rest : List ℕ) (w : Socket.World k) → pending w ≡ frame msg ++ rest
      → 0 < length msg
      → length msg + 1 < 2 ^ 31
      → malloc (length msg + 1) ≡ true
      → (w' : Socket.World k) × (recv_msg k malloc w ≡ done (delivered msg, w'))
        × (pending w' ≡ rest)
  unfolding recv_msg recv_body big_endian
  recv_msg-frame src nf msg rest w e some_bytes small m =
      let head =
        readn_exact k pending src nf (big_endian (length msg)) (msg ++ rest) w
          (e ∙ append_assoc (big_endian (length msg)) msg rest) in
      let body = readn_exact k pending src nf msg rest head.0 head.2 in
      (
        body.0,
        rw (
          head.1,
          header_len (length msg) (omega arith),
          to_int-small (length msg) (omega arith),
          lt→ltb _ _ small,
          m,
          body.1,
          recv_finish_full k malloc msg body.0 some_bytes,
        ),
        body.2,
      )

  -- When the peer has closed and nothing is left, `recvMsg` reads nothing, returns 0 and closes the
  -- descriptor.
  pub recv_msg_end :
      IsSource k pending
      → NoFailure k
      → (w : Socket.World k) → pending w ≡ []
      → malloc 1 ≡ true
      → (w' : Socket.World k) × (recv_msg k malloc w
          ≡ done (record { result = pos 0; block = some 0 ∷ []; closed = true }, Socket.close k w'))
        × (pending w' ≡ [])
  unfolding recv_msg recv_body recv_finish overlay of_bytes ntohl to_int
  recv_msg_end src nf w e m =
      let head = readn_end k pending src nf 4 w e in (head.0, rw (head.1, m), head.2)

  -- A header that stands for 2 ^ 31 or more makes recvMsg write outside of its block, whatever the
  -- allocator does.
  pub recv_msg_negative :
      IsSource k pending
      → NoFailure k
      → (n : ℕ) (rest : List ℕ) (w : Socket.World k) → pending w ≡ big_endian n ++ rest
      → 2 ^ 31 ≤ n
      → n < 2 ^ 32
      → recv_msg k malloc w ≡ undefined
  unfolding recv_msg recv_body big_endian
  recv_msg_negative src nf n rest w e big small =
      let head = readn_exact k pending src nf (big_endian n) rest w e in
      rw (head.1, header_len n small, to_int-large n big)
