-- ===== src/Framing/Send.antt =====
-- What `writen` and `sendMsg` put on the wire, on every branch.
use network.Prelude.{
  ℕ, zero, suc, ◌+◌, ◌^◌, ◌≤◌, ◌<◌, ◌≡◌, refl, sym, ◌∙◌, ap, ◌⊎◌, inl, inr, Bool, true, some, List,
  [], ◌∷◌, ◌++◌, append-nil, append_assoc, arith,
}
use network.Prelude.Tests.{lt→ltb, le→leb}
use network.Prelude.Lists.{
  length, length-append, length-take, take, drop, take-append-drop, take-append_take, length-drop,
}
use network.Prelude.Int.{ℤ, pos, minus_one}
use network.Posix.{Sent, sent, refused, Socket, IsSink, NoFailure}
use network.Run.{done}
use network.Framing.Bytes.{big_endian, int_bytes, htonl, int_bytes-htonl, length-big_endian}
use network.Framing.{writen_loop, writen, close_failed, send_checked, send_msg}

Sent-cases : (a : Sent) → ((n : ℕ) × (a ≡ sent n)) ⊎ ((e : ℕ) × (a ≡ refused e))
Sent-cases (sent n) = inl (n, refl)
Sent-cases (refused e) = inr (e, refl)

-- A message on the wire: its length in four bytes, the high one first, and its bytes.
abbrev pub frame : List ℕ → List ℕ
frame msg = big_endian (length msg) ++ msg

module _ (k : Socket) (wire : Socket.World k → List ℕ) where
  -- Some `send` on this descriptor fails.
  abbrev pub SendFails : Type 0
  SendFails =
      (buf : List ℕ) × (u : Socket.World k) × (e : ℕ) × ((Socket.send k buf u).0 ≡ refused e)

  -- Either all of `buf` was taken and the result is `size`, or a `send` failed after a proper front
  -- of `buf` and the result is -1.
  abbrev pub Written : ℤ → List ℕ → Socket.World k → ℤ × Socket.World k → Type 0
  Written size buf w (r, w') =
      ((r ≡ size) × (wire w' ≡ wire w ++ buf))
      ⊎ ((r ≡ minus_one)
          × ((j : ℕ) × (j < length buf) × (wire w' ≡ wire w ++ take j buf))
          × SendFails)

  -- A round that takes `n` bytes, followed by the rest of the loop.
  Written-drop :
      (size : ℤ) (buf : List ℕ) (n : ℕ) (w w1 : Socket.World k) (out : ℤ × Socket.World k)
      → n ≤ length buf
      → wire w1 ≡ wire w ++ take n buf
      → Written size (drop n buf) w1 out
      → Written size buf w out
  Written-drop size buf n w w1 out h e (inl (r, all)) = inl (
    r,
    all
        ∙ ap (λ l. l ++ drop n buf) e
        ∙ append_assoc (wire w) (take n buf) (drop n buf)
        ∙ ap (λ l. wire w ++ l) (take-append-drop n buf),
  )
  Written-drop size buf n w w1 out h e (inr (r, (j, lt, front), why)) = inr (
    r,
    (
      n + j,
      omega (arith, length-drop n buf),
      front
          ∙ ap (λ l. l ++ take j (drop n buf)) e
          ∙ append_assoc (wire w) (take n buf) (take j (drop n buf))
          ∙ ap (λ l. wire w ++ l) (take-append_take n j buf),
    ),
    why,
  )

  -- `writen` ends within one round a byte, with the whole buffer on the wire or after a failure.
  writen_loop_lem :
      IsSink k wire
      → (fuel : ℕ) (size : ℤ) (buf : List ℕ) (w : Socket.World k) → length buf < fuel
      → (out : ℤ × Socket.World k) × (writen_loop k fuel size buf w ≡ done out)
        × Written size buf w out
  unfolding writen_loop
  writen_loop_lem sink zero size buf w h = absurd (omega arith)
  writen_loop_lem sink (suc fuel) size [] w h = ((size, w), refl, inl (refl, sym (append-nil _)))
  writen_loop_lem sink (suc fuel) size (b ∷ buf) w h =
      elim (Sent-cases (Socket.send k (b ∷ buf) w).0) [
        | inl (n, e) ↦
            let t = sink.takes (b ∷ buf) w n e in
            let pos = t.1 (λ q. cc q) in
            let ih =
              writen_loop_lem sink fuel size (drop n (b ∷ buf)) (Socket.send k (b ∷ buf) w).1
                (omega (arith, length-drop n (b ∷ buf))) in
            (ih.0, rw (e, writen_loop) ih.1, Written-drop size (b ∷ buf) n w _ ih.0 t.0 t.2 ih.2)
        | inr (er, e) ↦ (
          (minus_one, (Socket.send k (b ∷ buf) w).1),
          rw (e, writen_loop),
          inr (
            refl,
            (0, omega arith, sink.loses _ _ er e ∙ sym (append-nil _)),
            (b ∷ buf, w, er, e),
          ),
        )
      ]

module _ (k : Socket) (malloc : ℕ → Bool) (wire : Socket.World k → List ℕ) where
  -- How a `sendMsg` of the bytes `msg` ends: the whole frame is on the wire and the result is its
  -- length, or a `send` failed after a proper front of it, the result is -1, and the descriptor was
  -- closed.
  abbrev pub MsgSent : List ℕ → Socket.World k → ℤ × Socket.World k → Type 0
  MsgSent msg w (r, w') =
      ((r ≡ pos (length msg + 4)) × (wire w' ≡ wire w ++ frame msg))
      ⊎ ((r ≡ minus_one)
          × ((w1 : Socket.World k) × (w' ≡ Socket.close k w1)
              × ((j : ℕ) × (j < length msg + 4) × (wire w1 ≡ wire w ++ take j (frame msg))))
          × SendFails k wire)

  length-frame : (msg : List ℕ) → length (frame msg) ≡ length msg + 4
  length-frame msg =
      omega (arith, length-append (big_endian (length msg)) msg, length-big_endian (length msg))

  block-eq-frame :
      (len : ℕ) (msg : List ℕ)
      → len + 4 < 2 ^ 31
      → len ≤ length msg
      → int_bytes (htonl len) ++ take len msg ≡ frame (take len msg)
  block-eq-frame len msg small has =
      let e : length (take len msg) ≡ len = omega (arith, length-take len msg) in
      rw (e, int_bytes-htonl len (omega arith))

  -- From the end of `writen` to the end of `sendMsg`.
  Written-MsgSent :
      (msg : List ℕ) (w : Socket.World k) (r : ℤ) (w1 : Socket.World k)
      → Written k wire (pos (length (frame msg))) (frame msg) w (r, w1)
      → (out : ℤ × Socket.World k) × (close_failed k malloc (r, w1) ≡ done out) × MsgSent msg w out
  unfolding close_failed
  Written-MsgSent msg w r w1 (inl (e, all)) =
      ((pos (length msg + 4), w1), rw (e, length-frame msg), inl (refl, all))
  Written-MsgSent msg w r w1 (inr (e, (j, lt, front), why)) = (
    (minus_one, Socket.close k w1),
    rw e,
    inr (refl, (w1, refl, (j, omega (arith, length-frame msg), front)), why),
  )

  send_checked_lem :
      IsSink k wire
      → (fuel : ℕ) (msg : List ℕ) (len : ℕ) (w : Socket.World k) → len + 4 < fuel
      → len + 4 < 2 ^ 31
      → len ≤ length msg
      → (out : ℤ × Socket.World k) × (send_checked k malloc fuel msg len w ≡ done out)
        × MsgSent (take len msg) w out
  unfolding send_checked writen
  send_checked_lem sink fuel msg len w f small has =
      let m = take len msg in
      let e : length m ≡ len = omega (arith, length-take len msg) in
      let ih =
        writen_loop_lem k wire sink fuel (pos (length (frame m))) (frame m) w
          (omega (arith, length-frame m)) in
      rw (block-eq-frame len msg small has, ih.1) (Written-MsgSent m w ih.0.0 ih.0.1 ih.2)

  -- sendMsg with a valid descriptor, a buffer that holds len > 0 bytes, no overflow of len + 4 and
  -- memory for the block ends within len + 5 rounds: either the whole frame of the len bytes is on
  -- the wire and the result is len + 4, or a send failed after a proper front of the frame, the
  -- result is -1 and the descriptor was closed.
  pub send_msg_lem :
      IsSink k wire
      → (fuel fd : ℕ) (msg : List ℕ) (len : ℕ) (w : Socket.World k) → len + 4 < fuel
      → 0 < len
      → len + 4 < 2 ^ 31
      → len ≤ length msg
      → malloc (len + 4) ≡ true
      → (out : ℤ × Socket.World k) × (send_msg k malloc fuel (pos fd) (some msg) (pos len) w
          ≡ done out)
        × MsgSent (take len msg) w out
  unfolding send_msg
  send_msg_lem sink fuel fd msg zero w f p small has m = absurd (omega arith)
  send_msg_lem sink fuel fd msg (suc len) w f p small has m =
      rw (lt→ltb _ _ small, m, le→leb _ _ has)
        (send_checked_lem sink fuel msg (suc len) w f small has)

  -- Without failures `sendMsg` returns `len + 4`, and the frame of the `len` bytes is on the wire.
  pub send_msg_whole :
      IsSink k wire
      → NoFailure k
      → (fuel fd : ℕ) (msg : List ℕ) (len : ℕ) (w : Socket.World k) → len + 4 < fuel
      → 0 < len
      → len + 4 < 2 ^ 31
      → len ≤ length msg
      → malloc (len + 4) ≡ true
      → (r : ℤ) × (w' : Socket.World k) × (send_msg k malloc fuel (pos fd) (some msg) (pos len) w
          ≡ done (r, w'))
        × (r ≡ pos (len + 4))
        × (wire w' ≡ wire w ++ frame (take len msg))
  send_msg_whole sink nf fuel fd msg len w f p small has m =
      let (out, run, ends) = send_msg_lem sink fuel fd msg len w f p small has m in
      let all = whole out ends in (out.0, out.1, run, all.0, all.1)
    where
      whole :
          (out : ℤ × Socket.World k)
          → MsgSent (take len msg) w out
          → (out.0 ≡ pos (len + 4)) × (wire out.1 ≡ wire w ++ frame (take len msg))
      whole (r, w') (inl (e, all)) = (e ∙ ap pos (omega (arith, length-take len msg)), all)
      whole (r, w') (inr (e, front, (buf, u, er, q))) = absurd (nf.sends buf u er q)
