-- ===== src/Stream/Lines.antt =====
-- The buffered `readline`: the lines of the stream, wherever its reads are cut.
use network.Prelude.{
  ℕ, zero, suc, ◌+◌, ◌-◌, ◌≤◌, ◌<◌, ◌≡◌, refl, sym, ap, ◌∙◌, ◌⊎◌, inl, inr, List, [], ◌∷◌, ◌++◌,
  append_assoc, arith,
}
use network.Prelude.Tests.{◌==◌, if◌then◌else◌, Bool-cases}
use network.Prelude.Lists.{length}
use network.Prelude.Int.{ℤ, pos}
use network.Posix.{Answer-cases, Socket, IsSource, OnlySignals}
use network.Run.{done}
use network.Head.Lines.{line, after_line, is_cut, count, count-cons}
use network.Stream.{byte, at_end, my_read, readline_loop, readline, readlines}

-- The results and the lines that a number of calls give on a text.
pub lines_of : ℕ → ℕ → List ℕ → List (ℤ × List ℕ)
lines_of room zero text = []
lines_of room (suc calls) text =
    (
      pos (if is_cut room text then 1 + room else length (line room text)),
      line room text ++ (0 ∷ []),
    )
    ∷ lines_of room calls (after_line room text)

-- The text behind that many lines.
pub behind : ℕ → ℕ → List ℕ → List ℕ
behind room zero text = text
behind room (suc calls) text = behind room calls (after_line room text)

module _ (k : Socket) (pending : Socket.World k → List ℕ) (signals : Socket.World k → ℕ) where
  -- Either a byte, or the end.
  abbrev Reads : ℕ → List ℕ → Socket.World k → Type 0
  Reads fuel left w =
      ((c : ℕ) × (left' : List ℕ) × (w' : Socket.World k) × (my_read k fuel left w
          ≡ done (byte c, left', w'))
        × (left ++ pending w ≡ c ∷ (left' ++ pending w'))
        × (signals w' ≤ signals w))
      ⊎ ((w' : Socket.World k) × (my_read k fuel left w ≡ done (at_end, [], w'))
          × (left ++ pending w ≡ [])
          × (pending w' ≡ [])
          × (signals w' ≤ signals w))

  my_read_lem :
      IsSource k pending
      → OnlySignals k signals
      → (fuel : ℕ) (left : List ℕ) (w : Socket.World k) → signals w < fuel
      → Reads fuel left w
  unfolding my_read
  my_read_lem src os fuel (c ∷ left) w h = inl (c, left, w, refl, refl, omega arith)
  my_read_lem src os zero [] w h = absurd (omega arith)
  my_read_lem src os (suc fuel) [] w h =
      let w1 = (Socket.recv k 4096 w).1 in
      elim (Answer-cases (Socket.recv k 4096 w).0) [
        | inl q ↦
            let law = src.delivers 4096 w [] (omega arith) q in
            inr (w1, rw (my_read, q), law.2 refl, sym law.1 ∙ law.2 refl, os.recv_other 4096 w)
        | inr (inl (c, cs, q)) ↦
            let law = src.delivers 4096 w (c ∷ cs) (omega arith) q in
            inl (c, cs, w1, rw (my_read, q), law.1, os.recv_other 4096 w)
        | inr (inr (er, q)) ↦
            let law = os.recv_signal 4096 w er q in
            let same = src.keeps 4096 w er q in
            elim (my_read_lem src os fuel [] w1 (omega (arith, law.1))) [
              | inl (c, left', w', run, text, fewer) ↦ inl (
                c,
                left',
                w',
                rw (my_read, q, law.0) run,
                sym same ∙ text,
                omega (arith, law.1, fewer),
              )
              | inr (w', run, text, empty, fewer) ↦ inr (
                w',
                rw (my_read, q, law.0) run,
                sym same ∙ text,
                empty,
                omega (arith, law.1, fewer),
              )
            ]
      ]

  -- The loop at `n` with `room` rounds to go, on the stream `text`.
  abbrev Lines : ℕ → ℕ → ℕ → List ℕ → List ℕ → Socket.World k → List ℕ → Type 0
  Lines fuel room n ptr left w text =
      (left' : List ℕ) × (w' : Socket.World k) × (readline_loop k fuel room n ptr left w
        ≡ done (pos (count room n text), ptr ++ (line room text ++ (0 ∷ [])), left', w'))
      × (left' ++ pending w' ≡ after_line room text)
      × (signals w' ≤ signals w)

  readline_loop_lem :
      IsSource k pending
      → OnlySignals k signals
      → (fuel room n : ℕ) (ptr left : List ℕ) (w : Socket.World k) (text : List ℕ)
      → signals w < fuel
      → 0 < n
      → left ++ pending w ≡ text
      → Lines fuel room n ptr left w text
  unfolding readline_loop line after_line count is_cut
  readline_loop_lem src os fuel zero n ptr left w text h p e =
      let same : n + 0 ≡ n = omega arith in (left, w, rw same, e, omega arith)
  readline_loop_lem src os fuel (suc room) n ptr left w text h p e =
      elim (my_read_lem src os fuel left w h) [
        | inr (w', run, empty, none, fewer) ↦
            let nothing : text ≡ [] = sym e ∙ empty in
            let same : n - 1 + 0 ≡ n - 1 = omega arith in
            ([], w', rw (readline_loop, run, nothing, same), rw nothing none, fewer)
        | inl (c, left', w', run, front, fewer) ↦
            let first : text ≡ c ∷ (left' ++ pending w') = sym e ∙ front in
            elim (Bool-cases (c == 10)) [
              | inl nl ↦
                  let same : n - 1 + 1 ≡ n = omega arith in
                  (left', w', rw (readline_loop, run, first, nl, same), rw (first, nl), fewer)
              | inr no_nl ↦
                  let (left2, w2, run2, rest2, fewer2) =
                    readline_loop_lem src os fuel room (n + 1) (ptr ++ (c ∷ [])) left' w'
                      (left' ++ pending w') (omega (arith, fewer)) (omega arith) refl in
                  (
                    left2,
                    w2,
                    rw (readline_loop, run, first, no_nl)
                        (run2
                          ∙ cc (
                            count-cons room n c (left' ++ pending w') p no_nl,
                            append_assoc ptr (c ∷ []) (line room (left' ++ pending w') ++ (0 ∷ [])),
                          )),
                    rw (first, no_nl) rest2,
                    omega (arith, fewer, fewer2),
                  )
            ]
      ]

  readline_lem :
      IsSource k pending
      → OnlySignals k signals
      → (fuel room : ℕ) (left : List ℕ) (w : Socket.World k) → signals w < fuel
      → let text = left ++ pending w in
        (left' : List ℕ) × (w' : Socket.World k) × (readline k fuel (1 + room) left w
          ≡ done (
            pos (if is_cut room text then 1 + room else length (line room text)),
            line room text ++ (0 ∷ []),
            left',
            w',
          ))
        × (left' ++ pending w' ≡ after_line room text)
        × (signals w' ≤ signals w)
  unfolding readline count
  readline_lem src os fuel room left w h =
      let (left', w', run, rest, fewer) =
        readline_loop_lem src os fuel room 1 [] left w (left ++ pending w) h (omega arith) refl in
      let rounds : 1 + room - 1 ≡ room = omega arith in
      let zero_first : 1 - 1 + length (line room (left ++ pending w))
          ≡ length (line room (left ++ pending w)) =
        omega arith in
      (left', w', rw rounds (rw zero_first at run), rest, fewer)

  -- Where signals are the only failures, any number of calls of readline of lib/readline.c, one
  -- after the other, each with room for 1 + room bytes, give the lines of the stream in turn, each
  -- with its newline and a zero byte behind it and cut off after room bytes, and return their
  -- lengths, but 1 + room for one that was cut off, however the reads of 4096 bytes are cut; what
  -- is behind these lines is in the buffer and still to come.
  pub readlines_lem :
      IsSource k pending
      → OnlySignals k signals
      → (fuel room calls : ℕ) (left : List ℕ) (w : Socket.World k) → signals w < fuel
      → (left' : List ℕ) × (w' : Socket.World k) × (readlines k fuel (1 + room) calls left w
          ≡ done (lines_of room calls (left ++ pending w), left', w'))
        × (left' ++ pending w' ≡ behind room calls (left ++ pending w))
  unfolding readlines lines_of behind
  readlines_lem src os fuel room zero left w h = (left, w, refl, refl)
  readlines_lem src os fuel room (suc calls) left w h =
      let (left1, w1, run1, rest1, fewer) = readline_lem src os fuel room left w h in
      let (left', w', run, rest) =
        readlines_lem src os fuel room calls left1 w1 (omega (arith, fewer)) in
      (left', w', rw (readlines, run1, run, rest1), rest ∙ ap (behind room calls) rest1)
