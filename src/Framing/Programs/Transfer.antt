-- ===== src/Framing/Programs/Transfer.antt =====
-- A file through both programs: what client.c puts on the wire, and what serve.c prints of it.
use network.Prelude.{
  ℕ, zero, suc, ◌+◌, ◌^◌, ◌≤◌, ◌<◌, ◌≡◌, refl, sym, ◌∙◌, ap, Bool, true, false, some, List, [], ◌∷◌,
  ◌++◌, map, append-nil, append_assoc, arith,
}
use network.Prelude.Lists.{length, length-append, take, drop, take-append, All, replicate}
use network.Prelude.Int.{pos}
use network.Posix.{Answer, got, Socket, IsSink, IsSource, NoFailure}
use network.Run.{done}
use network.Framing.Bytes.{overlay}
use network.Framing.{is_zero}
use network.Framing.Send.{frame, send_msg_whole}
use network.Framing.Message.{recv_msg-frame, recv_msg_end}
use network.Framing.Programs.{c_string, printed, removed, client_loop, serve_client, serve_rounds}

-- The frames of several messages, one behind the other.
abbrev pub frames : List (List ℕ) → List ℕ
frames [] = []
frames (m ∷ ms) = frame m ++ frames ms

-- A message that the server prints whole: some bytes, none of them zero, and memory for it.
abbrev pub IsPrintable : (ℕ → Bool) → List ℕ → Type 0
IsPrintable malloc m =
    (0 < length m) × (length m + 1 < 2 ^ 31) × (malloc (length m + 1) ≡ true) × All (λ b. 0 < b) m

c_string_text : (m : List ℕ) → All (λ b. 0 < b) m → c_string (map some m ++ (some 0 ∷ [])) ≡ done m
unfolding c_string
c_string_text [] h = refl
c_string_text (zero ∷ m) h = absurd (omega (arith, h.0))
c_string_text (suc b ∷ m) h = rw (c_string_text m h.1)

le-overlay : (p temp : List ℕ) → length p ≤ length (overlay p temp)
unfolding overlay
le-overlay p temp = omega (arith, length-append p (drop (length p) temp))

take-overlay : (p temp : List ℕ) → take (length p) (overlay p temp) ≡ p
unfolding overlay
take-overlay p temp = take-append p (drop (length p) temp)

not_zero : (m : List ℕ) → 0 < length m → is_zero (pos (length m)) ≡ false
not_zero [] h = absurd (omega arith)
not_zero (b ∷ m) h = refl

module _ (k : Socket) (malloc : ℕ → Bool) (pending : Socket.World k → List ℕ) where
  serve_client-frame :
      IsSource k pending
      → NoFailure k
      → (m rest : List ℕ) (w : Socket.World k) → pending w ≡ frame m ++ rest
      → IsPrintable malloc m
      → (w' : Socket.World k) × (serve_client k malloc w ≡ done (printed m, w'))
        × (pending w' ≡ rest)
  unfolding serve_client
  serve_client-frame src nf m rest w e ok =
      let r = recv_msg-frame k malloc pending src nf m rest w e ok.0 ok.1 ok.2 in
      (r.0, rw (r.1, not_zero m ok.0, c_string_text m ok.3), r.2)

  -- On a stream that holds the frames of printable messages and nothing more, cut into answers in
  -- any way by a source without failures, the server prints exactly these messages, in their
  -- order, one per round, and takes the client off the epoll set in the round after the last.
  pub serve_rounds-frames :
      IsSource k pending
      → NoFailure k
      → malloc 1 ≡ true
      → (ms : List (List ℕ)) (w : Socket.World k) → All (IsPrintable malloc) ms
      → pending w ≡ frames ms
      → (w' : Socket.World k) × (serve_rounds k malloc (suc (length ms)) w
          ≡ done (map printed ms ++ (removed ∷ []), w'))
  unfolding serve_rounds serve_client
  serve_rounds-frames src nf m1 [] w ok e =
      let r = recv_msg_end k malloc pending src nf w e m1 in (Socket.close k r.0, rw r.1)
  serve_rounds-frames src nf m1 (m ∷ ms) w ok e =
      let r = serve_client-frame src nf m (frames ms) w e ok.0 in
      let rest = serve_rounds-frames src nf m1 ms r.0 ok.1 r.2 in (rest.0, rw (r.1, rest.1))

module _ (k : Socket) (malloc : ℕ → Bool) (wire : Socket.World k → List ℕ) where
  -- Over a sink without failures, a file that read hands over in pieces of 1 to 999 bytes goes out
  -- as the frames of these pieces, one behind the other, and nothing else, whatever the buffer
  -- held before.
  pub client_loop-frames :
      IsSink k wire
      → NoFailure k
      → (fuel fd : ℕ) (pieces : List (List ℕ)) (end : List Answer) (temp : List ℕ)
        (w : Socket.World k)
      → 1004 < fuel
      → All (λ p. (0 < length p) × (length p < 1000) × (malloc (length p + 4) ≡ true)) pieces
      → (w' : Socket.World k) × (client_loop k malloc fuel
            (pos fd)
            (map got pieces ++ (got [] ∷ end))
            temp
            w
          ≡ done w')
        × (wire w' ≡ wire w ++ frames pieces)
  unfolding client_loop
  client_loop-frames sink nf fuel fd [] end temp w f ok = (w, refl, sym (append-nil _))
  client_loop-frames sink nf fuel fd ([] ∷ ps) end temp w f ok = absurd (omega (arith, ok.0.0))
  client_loop-frames sink nf fuel fd ((b ∷ bs) ∷ ps) end temp w f ok =
      let p = b ∷ bs in
      let (r, w1, run, e, out) =
        send_msg_whole k malloc wire sink nf fuel fd (overlay p temp) (length p) w
          (omega (arith, ok.0.1)) (omega arith) (omega (arith, ok.0.1)) (le-overlay p temp)
          ok.0.2 in
      let rest = client_loop-frames sink nf fuel fd ps end (replicate 1001 0) w1 f ok.1 in
      (
        rest.0,
        rw (run, rest.1),
        rest.2
            ∙ ap (λ l. l ++ frames ps) (out ∙ ap (λ l. wire w ++ frame l) (take-overlay p temp))
            ∙ append_assoc (wire w) (frame p) (frames ps),
      )
