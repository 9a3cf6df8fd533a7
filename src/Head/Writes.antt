-- ===== src/Head/Writes.antt =====
-- `Writen` over partial writes and signals.
use network.Prelude.{
  ℕ, zero, suc, ◌+◌, ◌<◌, ◌≡◌, refl, sym, ◌∙◌, ap, ◌⊎◌, inl, inr, List, [], ◌∷◌, ◌++◌, append-nil,
  append_assoc, arith,
}
use network.Prelude.Tests.{==_iff}
use network.Prelude.Lists.{length, take, drop, take-append-drop, length-drop}
use network.Prelude.Int.{ℤ, pos}
use network.Posix.{Sent, sent, refused, Socket, IsSink, OnlySignals, eintr}
use network.Run.{done}
use network.Head.{writen_loop, writen}

Sent-cases :
    (a : Sent) → (a ≡ sent 0) ⊎ ((n : ℕ) × (a ≡ sent (suc n))) ⊎ ((e : ℕ) × (a ≡ refused e))
Sent-cases (sent zero) = inl refl
Sent-cases (sent (suc n)) = inr (inl (n, refl))
Sent-cases (refused e) = inr (inr (e, refl))

module _ (k : Socket) (wire : Socket.World k → List ℕ) (signals : Socket.World k → ℕ) where
  writen_loop_lem :
      IsSink k wire
      → OnlySignals k signals
      → (fuel : ℕ) (n : ℤ) (ptr : List ℕ) (w : Socket.World k) → length ptr + signals w < fuel
      → (w' : Socket.World k) × (writen_loop k fuel n ptr w ≡ done (n, w'))
        × (wire w' ≡ wire w ++ ptr)
  unfolding writen_loop
  writen_loop_lem sink os zero n ptr w h = absurd (omega arith)
  writen_loop_lem sink os (suc fuel) n [] w h = (w, refl, sym (append-nil _))
  writen_loop_lem sink os (suc fuel) n (b ∷ ptr) w h =
      let w1 = (Socket.send k (b ∷ ptr) w).1 in
      elim (Sent-cases (Socket.send k (b ∷ ptr) w).0) [
        | inl e ↦ absurd (omega (arith, (sink.takes (b ∷ ptr) w 0 e).1 (λ q. cc q)))
        | inr (inl (t, e)) ↦
            let law = sink.takes (b ∷ ptr) w (suc t) e in
            let ih =
              writen_loop_lem sink os fuel n (drop (suc t) (b ∷ ptr)) w1
                (omega (arith, length-drop (suc t) (b ∷ ptr), os.send_other (b ∷ ptr) w)) in
            (
              ih.0,
              rw (e, writen_loop) ih.1,
              ih.2
                  ∙ ap (λ l. l ++ drop (suc t) (b ∷ ptr)) law.2
                  ∙ append_assoc (wire w) (take (suc t) (b ∷ ptr)) (drop (suc t) (b ∷ ptr))
                  ∙ ap (λ l. wire w ++ l) (take-append-drop (suc t) (b ∷ ptr)),
            )
        | inr (inr (er, e)) ↦
            let law = os.send_signal (b ∷ ptr) w er e in
            let ih = writen_loop_lem sink os fuel n (b ∷ ptr) w1 (omega (arith, law.1)) in
            (
              ih.0,
              rw (e, writen_loop, (==_iff er eintr).1 law.0) ih.1,
              ih.2 ∙ ap (λ l. l ++ (b ∷ ptr)) (sink.loses _ _ er e),
            )
      ]

  -- Where signals are the only failures, Writen ends within one round for each byte and each
  -- signal, returns n, and all n bytes are on the wire, once and in order.
  writen_lem :
      IsSink k wire
      → OnlySignals k signals
      → (fuel : ℕ) (ptr : List ℕ) (w : Socket.World k) → length ptr + signals w < fuel
      → (w' : Socket.World k) × (writen k fuel ptr w ≡ done (pos (length ptr), w'))
        × (wire w' ≡ wire w ++ ptr)
  unfolding writen
  writen_lem sink os fuel ptr w h = writen_loop_lem sink os fuel (pos (length ptr)) ptr w h
