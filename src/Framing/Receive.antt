-- ===== src/Framing/Receive.antt =====
-- What `readn` and `recvMsg` make of a stream, however its bytes are cut into answers.
use network.Prelude.{
  ℕ, zero, suc, ◌+◌, ◌-◌, ◌≤◌, ◌<◌, ◌≡◌, refl, sym, ◌∙◌, ap, ◌⊎◌, inl, inr, List, [], ◌∷◌, ◌++◌,
  append-nil, append_assoc, arith,
}
use network.Prelude.Lists.{length, length-append, append_injective, append_nil_parts}
use network.Prelude.Int.{ℤ, pos, minus_one}
use network.Posix.{Answer-cases, failed, Socket, IsSource, NoFailure}
use network.Run.{Run, done}
use network.Framing.{readn_loop, readn}

module _ (k : Socket) (pending : Socket.World k → List ℕ) where
  -- Some `recv` on this descriptor fails.
  abbrev pub RecvFails : Type 0
  RecvFails = (n : ℕ) × (u : Socket.World k) × (e : ℕ) × ((Socket.recv k n u).0 ≡ failed e)

  -- `xs` is `count` bytes, or fewer at the end of the stream, or fewer before a failure; the result
  -- is `total`, or -1 after a failure.
  abbrev pub Outcome : ℕ → ℕ → List ℕ → ℤ → Socket.World k → Type 0
  Outcome total count xs r w' =
      ((r ≡ pos total) × (length xs ≡ count))
      ⊎ ((r ≡ pos total) × (length xs < count) × (pending w' ≡ []))
      ⊎ ((r ≡ minus_one) × (length xs < count) × RecvFails)

  -- `out` is `pt` with the bytes `xs` that were taken off the stream behind it.
  abbrev pub ReadsOn : List ℕ → ℕ → Socket.World k → ℤ × List ℕ × Socket.World k → Type 0
  ReadsOn pt count w (r, out, w') =
      (xs : List ℕ) × (out ≡ pt ++ xs)
      × (pending w ≡ xs ++ pending w')
      × Outcome (length pt + length xs) count xs r w'

  ReadsOn-cons :
      (pt bs : List ℕ) (count : ℕ) (w w1 : Socket.World k) (o : ℤ × List ℕ × Socket.World k)
      → length bs ≤ count
      → pending w ≡ bs ++ pending w1
      → ReadsOn (pt ++ bs) (count - length bs) w1 o
      → ReadsOn pt count w o
  ReadsOn-cons pt bs count w w1 (r, out, w') h e (xs, p, q, o) = (
    bs ++ xs,
    p ∙ append_assoc pt bs xs,
    e ∙ ap (λ l. bs ++ l) q ∙ sym (append_assoc bs xs (pending w')),
    ends o,
  )
    where
      total : length (pt ++ bs) + length xs ≡ length pt + length (bs ++ xs)
      total = omega (arith, length-append pt bs, length-append bs xs)

      ends :
          Outcome (length (pt ++ bs) + length xs) (count - length bs) xs r w'
          → Outcome (length pt + length (bs ++ xs)) count (bs ++ xs) r w'
      ends (inl (a, b)) = inl (a ∙ ap pos total, omega (arith, length-append bs xs))
      ends (inr (inl (a, b, c))) =
          inr (inl (a ∙ ap pos total, omega (arith, length-append bs xs), c))
      ends (inr (inr (a, b, c))) = inr (inr (a, omega (arith, length-append bs xs), c))

  readn_loop_lem :
      IsSource k pending
      → (fuel size count : ℕ) (pt : List ℕ) (w : Socket.World k) → count < fuel
      → length pt + count ≡ size
      → (o : ℤ × List ℕ × Socket.World k) × (readn_loop k fuel size count pt w ≡ done o)
        × ReadsOn pt count w o
  unfolding readn_loop
  readn_loop_lem src zero size count pt w h e = absurd (omega arith)
  readn_loop_lem src (suc fuel) size zero pt w h e = (
    (pos (size - 0), pt, w),
    refl,
    ([], sym (append-nil pt), refl, inl (ap pos (omega arith), refl)),
  )
  readn_loop_lem src (suc fuel) size (suc count) pt w h e =
      let w1 = (Socket.recv k (suc count) w).1 in
      elim (Answer-cases (Socket.recv k (suc count) w).0) [
        | inl q ↦
            let d = src.delivers (suc count) w [] (omega arith) q in
            (
              (pos (size - suc count), pt, w1),
              rw (q, readn_loop),
              (
                [],
                sym (append-nil pt),
                d.1,
                inr (inl (ap pos (omega arith), omega arith, sym d.1 ∙ d.2 refl)),
              ),
            )
        | inr (inl (b, bs, q)) ↦
            let d = src.delivers (suc count) w (b ∷ bs) (omega arith) q in
            let ih =
              readn_loop_lem src fuel size (suc count - length (b ∷ bs)) (pt ++ (b ∷ bs)) w1
                (omega arith) (omega (arith, d.0, length-append pt (b ∷ bs))) in
            (
              ih.0,
              rw (q, readn_loop) ih.1,
              ReadsOn-cons pt (b ∷ bs) (suc count) w w1 ih.0 d.0 d.1 ih.2,
            )
        | inr (inr (er, q)) ↦ (
          (minus_one, pt, w1),
          rw (q, readn_loop),
          (
            [],
            sym (append-nil pt),
            sym (src.keeps (suc count) w er q),
            inr (inr (refl, omega arith, (suc count, w, er, q))),
          ),
        )
      ]

  ReadsOn-nil :
      (count : ℕ) (w : Socket.World k) (o : ℤ × List ℕ × Socket.World k)
      → ReadsOn [] count w o
      → (pending w ≡ o.1 ++ pending o.2) × Outcome (length o.1) count o.1 o.0 o.2
  ReadsOn-nil count w (r, out, w') (xs, p, q, o) =
      let e : 0 + length xs ≡ length xs = omega arith in rw p (q, (rw e at o))

  -- readn of size bytes from a source ends; what it stores is the front of the stream, and it
  -- returns its length where it got all size bytes or the stream ended, and -1 only where fewer
  -- came and a recv fails.
  readn_lem :
      IsSource k pending
      → (size : ℕ) (w : Socket.World k)
      → (o : ℤ × List ℕ × Socket.World k) × (readn k (pos size) w ≡ done o)
        × (pending w ≡ o.1 ++ pending o.2)
        × Outcome (length o.1) size o.1 o.0 o.2
  unfolding readn
  readn_lem src size w =
      let l = readn_loop_lem src (suc size) size size [] w (omega arith) (omega arith) in
      let t = ReadsOn-nil size w l.0 l.2 in (l.0, l.1, t.0, t.1)

  -- Without failures `readn` returns exactly the next `size` bytes of a stream that has so many.
  pub readn_exact :
      IsSource k pending
      → NoFailure k
      → (bs rest : List ℕ) (w : Socket.World k) → pending w ≡ bs ++ rest
      → (w' : Socket.World k) × (readn k (pos (length bs)) w ≡ done (pos (length bs), bs, w'))
        × (pending w' ≡ rest)
  readn_exact src nf bs rest w e =
      let (o, run, cut, out) = readn_lem src (length bs) w in
      let (r, xs, w') = o in full r xs w' run cut out
    where
      finish :
          (r : ℤ) (xs : List ℕ) (w' : Socket.World k)
          → readn k (pos (length bs)) w ≡ done (r, xs, w')
          → r ≡ pos (length xs)
          → (xs ≡ bs) × (pending w' ≡ rest)
          → (u : Socket.World k) × (readn k (pos (length bs)) w ≡ done (pos (length bs), bs, u))
            × (pending u ≡ rest)
      finish r xs w' run er (ex, ep) = (w', run ∙ cc (er, ex), ep)

      full :
          (r : ℤ) (xs : List ℕ) (w' : Socket.World k)
          → readn k (pos (length bs)) w ≡ done (r, xs, w')
          → pending w ≡ xs ++ pending w'
          → Outcome (length xs) (length bs) xs r w'
          → (u : Socket.World k) × (readn k (pos (length bs)) w ≡ done (pos (length bs), bs, u))
            × (pending u ≡ rest)
      full r xs w' run cut (inl (er, el)) =
          finish r xs w' run er (append_injective xs (pending w') bs rest el (sym cut ∙ e))
      full r xs w' run cut (inr (inl (er, el, ends))) = absurd (
          omega (
            arith,
            ap (λ l. length l) (sym cut ∙ e),
            length-append xs (pending w'),
            length-append bs rest,
            ap (λ l. length l) ends,
          ))
      full r xs w' run cut (inr (inr (er, el, (n, u, f, q)))) = absurd (nf.receives n u f q)

  -- At the end of the stream `readn` returns 0 and stores nothing.
  pub readn_end :
      IsSource k pending
      → NoFailure k
      → (size : ℕ) (w : Socket.World k) → pending w ≡ []
      → (w' : Socket.World k) × (readn k (pos size) w ≡ done (pos 0, [], w')) × (pending w' ≡ [])
  readn_end src nf size w e =
      let (o, run, cut, out) = readn_lem src size w in
      let (r, xs, w') = o in
      let none_left = append_nil_parts xs (pending w') (sym cut ∙ e) in
      (w', run ∙ ends r xs w' none_left.0 out, none_left.1)
    where
      ends :
          (r : ℤ) (xs : List ℕ) (w' : Socket.World k)
          → xs ≡ []
          → Outcome (length xs) size xs r w'
          → ◌≡◌ {A = Run (ℤ × List ℕ × Socket.World k)} (done (r, xs, w')) (done (pos 0, [], w'))
      ends r xs w' z (inl (er, el)) = cc (er, z, ap (λ l. pos (length l)) z)
      ends r xs w' z (inr (inl (er, el, q))) = cc (er, z, ap (λ l. pos (length l)) z)
      ends r xs w' z (inr (inr (er, el, (n, u, f, q)))) = absurd (nf.receives n u f q)
