-- ===== src/Stream/Exact.antt =====
-- `readn` reads all that it is asked for, and `writen` is the Writen of HEAD.h.
use network.Prelude.{
  ℕ, zero, suc, ◌+◌, ◌-◌, ◌≤◌, ◌<◌, ◌≡◌, refl, sym, ap, ap₂, ◌∙◌, ◌⊎◌, inl, inr, List, [], ◌∷◌,
  ◌++◌, append-nil, append_assoc, arith, min,
}
use network.Prelude.Lists.{length, take, drop, length-append, length-take}
use network.Prelude.Int.{ℤ, pos}
use network.Posix.{Sent, sent, refused, Answer-cases, Socket, IsSource, OnlySignals}
use network.Run.{done}
use network.Head
use network.Stream.{readn_loop, readn, writen_loop, writen}

take-append_le :
    (n : ℕ) (xs ys : List ℕ) → length xs ≤ n → take n (xs ++ ys) ≡ xs ++ take (n - length xs) ys
take-append_le n [] ys h = ap (λ m. take m ys) (omega arith)
take-append_le zero (x ∷ xs) ys h = absurd (omega arith)
take-append_le (suc n) (x ∷ xs) ys h =
    let e : n - length xs ≡ suc n - length (x ∷ xs) = omega arith in
    ap (λ l. x ∷ l) (take-append_le n xs ys (omega arith) ∙ ap (λ m. xs ++ take m ys) e)

drop-append_le :
    (n : ℕ) (xs ys : List ℕ) → length xs ≤ n → drop n (xs ++ ys) ≡ drop (n - length xs) ys
drop-append_le n [] ys h = ap (λ m. drop m ys) (omega arith)
drop-append_le zero (x ∷ xs) ys h = absurd (omega arith)
drop-append_le (suc n) (x ∷ xs) ys h =
    let e : n - length xs ≡ suc n - length (x ∷ xs) = omega arith in
    drop-append_le n xs ys (omega arith) ∙ ap (λ m. drop m ys) e

module _ (k : Socket) (pending : Socket.World k → List ℕ) (signals : Socket.World k → ℕ) where
  -- The loop with `nleft` of n bytes to go.
  readn_loop_lem :
      IsSource k pending
      → OnlySignals k signals
      → (fuel n nleft : ℕ) (ptr : List ℕ) (w : Socket.World k) → nleft + signals w < fuel
      → nleft ≤ n
      → (w' : Socket.World k) × (readn_loop k fuel n nleft ptr w
          ≡ done (
            pos (n - nleft + length (take nleft (pending w))),
            ptr ++ take nleft (pending w),
            w',
          ))
        × (pending w' ≡ drop nleft (pending w))
  unfolding readn_loop
  readn_loop_lem src os zero n nleft ptr w h low = absurd (omega arith)
  readn_loop_lem src os (suc fuel) n zero ptr w h low =
      let same : n - 0 + 0 ≡ n - 0 = omega arith in (w, rw (append-nil ptr, same), refl)
  readn_loop_lem src os (suc fuel) n (suc nleft) ptr w h low =
      let w1 = (Socket.recv k (suc nleft) w).1 in
      elim (Answer-cases (Socket.recv k (suc nleft) w).0) [
        | inl q ↦
            let law = src.delivers (suc nleft) w [] (omega arith) q in
            let empty = law.2 refl in
            let same : n - suc nleft + 0 ≡ n - suc nleft = omega arith in
            (w1, rw (readn_loop, q, empty, append-nil ptr, same), sym law.1 ∙ rw empty)
        | inr (inl (b, bs, q)) ↦
            let law = src.delivers (suc nleft) w (b ∷ bs) (omega arith) q in
            let len = length (b ∷ bs) in
            let (w', run, left) =
              readn_loop_lem src os fuel n (suc nleft - len) (ptr ++ (b ∷ bs)) w1
                (omega (arith, h, os.recv_other (suc nleft) w)) (omega arith) in
            let more = take (suc nleft - len) (pending w1) in
            let taken : take (suc nleft) (pending w) ≡ (b ∷ bs) ++ more =
              ap (take (suc nleft)) law.1
              ∙ take-append_le (suc nleft) (b ∷ bs) (pending w1) law.0 in
            let count : n - (suc nleft - len) + length more
                ≡ n - suc nleft + length (take (suc nleft) (pending w)) =
              omega (arith, length-append (b ∷ bs) more, law.0, low, ap (λ l. length l) taken) in
            let text : (ptr ++ (b ∷ bs)) ++ more ≡ ptr ++ take (suc nleft) (pending w) =
              append_assoc ptr (b ∷ bs) more ∙ ap (λ l. ptr ++ l) (sym taken) in
            (
              w',
              rw (readn_loop, q) (run ∙ ap₂ (λ c l. done (pos c, l, w')) count text),
              left
                  ∙ sym (
                      ap (drop (suc nleft)) law.1
                      ∙ drop-append_le (suc nleft) (b ∷ bs) (pending w1) law.0),
            )
        | inr (inr (er, q)) ↦
            let law = os.recv_signal (suc nleft) w er q in
            let (w', run, left) =
              readn_loop_lem src os fuel n (suc nleft) ptr w1 (omega (arith, law.1)) low in
            let same = src.keeps (suc nleft) w er q in
            (w', rw (readn_loop, q, law.0, sym same) run, left ∙ ap (drop (suc nleft)) same)
      ]

  -- Where signals are the only failures, readn of lib/readn.c ends within one round for each byte
  -- it is asked for and each signal; it stores the next n bytes of the stream, or all where there
  -- are fewer, returns their number, and leaves the rest of the stream.
  pub readn_exact :
      IsSource k pending
      → OnlySignals k signals
      → (fuel n : ℕ) (w : Socket.World k) → n + signals w < fuel
      → (w' : Socket.World k) × (readn k fuel n w
          ≡ done (pos (min n (length (pending w))), take n (pending w), w'))
        × (pending w' ≡ drop n (pending w))
  unfolding readn
  readn_exact src os fuel n w h =
      let (w', run, left) = readn_loop_lem src os fuel n n [] w h (omega arith) in
      let count : n - n + length (take n (pending w)) ≡ min n (length (pending w)) =
        omega (arith, length-take n (pending w)) in
      (w', (rw count at run), left)

Sent-cases :
    (a : Sent) → (a ≡ sent zero) ⊎ ((n : ℕ) × (a ≡ sent (suc n))) ⊎ ((e : ℕ) × (a ≡ refused e))
Sent-cases (sent zero) = inl refl
Sent-cases (sent (suc n)) = inr (inl (n, refl))
Sent-cases (refused e) = inr (inr (e, refl))

-- The loops of `writen` and of the Writen of HEAD.h.
writen_loop_same :
    (k : Socket) (fuel : ℕ) (n : ℤ) (ptr : List ℕ) (w : Socket.World k)
    → writen_loop k fuel n ptr w ≡ Head.writen_loop k fuel n ptr w
unfolding writen_loop Head.writen_loop
writen_loop_same k zero n ptr w = refl
writen_loop_same k (suc fuel) n [] w = refl
writen_loop_same k (suc fuel) n (b ∷ ptr) w = elim (Sent-cases (Socket.send k (b ∷ ptr) w).0) [
  | inl e ↦ rw (writen_loop, Head.writen_loop, e)
  | inr (inl (taken, e)) ↦
      rw (writen_loop, Head.writen_loop, e)
        (writen_loop_same k fuel n (drop (suc taken) (b ∷ ptr)) (Socket.send k (b ∷ ptr) w).1)
  | inr (inr (er, e)) ↦ rw (
    writen_loop,
    Head.writen_loop,
    e,
    writen_loop_same k fuel n (b ∷ ptr) (Socket.send k (b ∷ ptr) w).1,
  )
]

writen_same :
    (k : Socket) (fuel : ℕ) (ptr : List ℕ) (w : Socket.World k)
    → writen k fuel ptr w ≡ Head.writen k fuel ptr w
unfolding writen Head.writen
writen_same k fuel ptr w = writen_loop_same k fuel (pos (length ptr)) ptr w
