-- ===== src/Head/Lines.antt =====
-- `Readline` on a stream, a byte at a time.
use network.Prelude.{
  ℕ, zero, suc, ◌+◌, ◌-◌, ◌≤◌, ◌<◌, ◌≡◌, refl, sym, ◌∙◌, ap, inl, inr, Bool, true, false, List, [],
  ◌∷◌, ◌++◌, append_assoc, arith,
}
use network.Prelude.Tests.{◌==◌, if◌then◌else◌, lt→ltb, ltb-false, Bool-cases}
use network.Prelude.Lists.{length, nil_of_length}
use network.Prelude.Int.{pos}
use network.Posix.{Answer-cases, got, failed, Socket, IsSource, OnlySignals, eintr}
use network.Run.{done}
use network.Head.{readline_loop, readline}

-- The front of a text up to its first newline and with it, of at most `room` bytes.
unfoldable pub line : ℕ → List ℕ → List ℕ
line zero text = []
line (suc room) [] = []
line (suc room) (c ∷ text) = if c == 10 then c ∷ [] else c ∷ line room text

-- What is behind that line.
unfoldable pub after_line : ℕ → List ℕ → List ℕ
after_line zero text = text
after_line (suc room) [] = []
after_line (suc room) (c ∷ text) = if c == 10 then text else after_line room text

-- Whether the line was cut off by its room: neither a newline nor the end of the text came first.
unfoldable pub is_cut : ℕ → List ℕ → Bool
is_cut zero text = true
is_cut (suc room) [] = false
is_cut (suc room) (c ∷ text) = if c == 10 then false else is_cut room text

pub line-append : (room : ℕ) (text : List ℕ) → text ≡ line room text ++ after_line room text
unfolding line after_line
line-append zero text = refl
line-append (suc room) [] = refl
line-append (suc room) (c ∷ text) = ground (arith, line-append room text)

pub length-line : (room : ℕ) (text : List ℕ) → length (line room text) ≤ room
unfolding line
length-line zero text = omega arith
length-line (suc room) [] = omega arith
length-line (suc room) (c ∷ text) = ground (arith, length-line room text)

-- The result of `Readline` from `n` on with `room` rounds left.
unfoldable pub count : ℕ → ℕ → List ℕ → ℕ
count room n text = if is_cut room text then n + room else n - 1 + length (line room text)

pub count-cons :
    (room n c : ℕ) (text : List ℕ)
    → 0 < n
    → (c == 10) ≡ false
    → count room (n + 1) text ≡ count (suc room) n (c ∷ text)
unfolding count is_cut line
count-cons room n c text p h = rw (h) (elim (Bool-cases (is_cut room text)) [
  | inl t ↦ rw t (omega arith)
  | inr f ↦ rw f (omega arith)
])

module _ (k : Socket) (fuel maxlen n : ℕ) (ptr : List ℕ) (w : Socket.World k) where
  loop_full :
      maxlen ≤ n → readline_loop k (suc fuel) maxlen n ptr w ≡ done (pos n, ptr ++ (0 ∷ []), w)
  unfolding readline_loop
  loop_full h = rw (readline_loop, ltb-false n maxlen h)

  loop_end :
      n < maxlen
      → (Socket.recv k 1 w).0 ≡ got []
      → readline_loop k (suc fuel) maxlen n ptr w
        ≡ done (pos (n - 1), ptr ++ (0 ∷ []), (Socket.recv k 1 w).1)
  unfolding readline_loop
  loop_end h e = rw (readline_loop, lt→ltb n maxlen h, e)

  loop_byte :
      (c : ℕ) (cs : List ℕ)
      → n < maxlen
      → (Socket.recv k 1 w).0 ≡ got (c ∷ cs)
      → readline_loop k (suc fuel) maxlen n ptr w ≡ (
          if c == 10
          then done (pos n, ptr ++ (c ∷ 0 ∷ []), (Socket.recv k 1 w).1)
          else readline_loop k fuel maxlen (n + 1) (ptr ++ (c ∷ [])) (Socket.recv k 1 w).1)
  unfolding readline_loop
  loop_byte c cs h e = rw (readline_loop, lt→ltb n maxlen h, e)

  loop_signal :
      n < maxlen
      → (Socket.recv k 1 w).0 ≡ failed eintr
      → readline_loop k (suc fuel) maxlen n ptr w
        ≡ readline_loop k fuel maxlen n ptr (Socket.recv k 1 w).1
  unfolding readline_loop
  loop_signal h e = rw (readline_loop, lt→ltb n maxlen h, e)

module _ (k : Socket) (pending : Socket.World k → List ℕ) (signals : Socket.World k → ℕ) where
  -- The loop at `n` with `room` rounds left, on the stream `text`.
  abbrev Reads : ℕ → ℕ → ℕ → List ℕ → Socket.World k → List ℕ → Type 0
  Reads fuel room n ptr w text =
      (w' : Socket.World k) × (readline_loop k fuel (n + room) n ptr w
        ≡ done (pos (count room n text), ptr ++ (line room text ++ (0 ∷ [])), w'))
      × (pending w' ≡ after_line room text)

  -- A byte that is no newline, followed by the rest of the loop.
  Reads-cons :
      (fuel room n c : ℕ) (ptr text : List ℕ) (w w1 : Socket.World k)
      → 0 < n
      → (c == 10) ≡ false
      → readline_loop k (suc fuel) (n + suc room) n ptr w
        ≡ readline_loop k fuel (n + suc room) (n + 1) (ptr ++ (c ∷ [])) w1
      → Reads fuel room (n + 1) (ptr ++ (c ∷ [])) w1 text
      → Reads (suc fuel) (suc room) n ptr w (c ∷ text)
  unfolding line after_line
  Reads-cons fuel room n c ptr text w w1 p not_nl step (w', run, rest) =
      let max : n + suc room ≡ n + 1 + room = omega arith in
      (
        w',
        rw not_nl (
            step
            ∙ ap (λ m. readline_loop k fuel m (n + 1) (ptr ++ (c ∷ [])) w1) max
            ∙ run
            ∙ cc (
              count-cons room n c text p not_nl,
              append_assoc ptr (c ∷ []) (line room text ++ (0 ∷ [])),
            )),
        rw not_nl rest,
      )

  readline_loop_lem :
      IsSource k pending
      → OnlySignals k signals
      → (fuel room n : ℕ) (ptr : List ℕ) (w : Socket.World k) (text : List ℕ)
      → room + signals w < fuel
      → 0 < n
      → pending w ≡ text
      → Reads fuel room n ptr w text
  unfolding line after_line count is_cut
  readline_loop_lem src os zero room n ptr w text h p e = absurd (omega arith)
  readline_loop_lem src os (suc fuel) zero n ptr w text h p e =
      let same : n + 0 ≡ n = omega arith in
      (w, loop_full k fuel (n + 0) n ptr w (omega arith) ∙ rw same, e)
  readline_loop_lem src os (suc fuel) (suc room) n ptr w text h p e =
      let w1 = (Socket.recv k 1 w).1 in
      let room_left : n < n + suc room = omega arith in
      elim (Answer-cases (Socket.recv k 1 w).0) [
        | inl q ↦
            let law = src.delivers 1 w [] (omega arith) q in
            let z = law.2 refl in
            let text_nil : text ≡ [] = sym e ∙ z in
            let same : n - 1 + 0 ≡ n - 1 = omega arith in
            (
              w1,
              loop_end k fuel (n + suc room) n ptr w room_left q ∙ rw (text_nil, same),
              rw text_nil (sym law.1 ∙ z),
            )
        | inr (inl (c, cs, q)) ↦
            let law = src.delivers 1 w (c ∷ cs) (omega arith) q in
            let alone : cs ≡ [] = nil_of_length cs (omega (arith, law.0)) in
            let byte : text ≡ c ∷ pending w1 =
              sym e ∙ law.1 ∙ ap (λ l. c ∷ (l ++ pending w1)) alone in
            let step = loop_byte k fuel (n + suc room) n ptr w c cs room_left q in
            elim (Bool-cases (c == 10)) [
              | inl nl ↦
                  let same : n - 1 + 1 ≡ n = omega arith in
                  (w1, step ∙ rw (byte, nl, same), rw (byte, nl))
              | inr no_nl ↦ rw byte (
                  Reads-cons fuel room n c ptr (pending w1) w w1 p no_nl (step ∙ rw no_nl) (
                    readline_loop_lem src os fuel room (n + 1) (ptr ++ (c ∷ [])) w1 (pending w1)
                      (omega (arith, os.recv_other 1 w)) (omega arith) refl))
            ]
        | inr (inr (er, q)) ↦
            let law = os.recv_signal 1 w er q in
            let (w', run, rest) =
              readline_loop_lem src os fuel (suc room) n ptr w1 text (omega (arith, law.1)) p
                (src.keeps 1 w er q ∙ e) in
            (
              w',
              loop_signal k fuel (n + suc room) n ptr w room_left (q ∙ ap failed law.0) ∙ run,
              rest,
            )
      ]

  -- Where signals are the only failures, Readline with maxlen = 1 + room stores the next line of
  -- the stream (through its newline, room bytes at most) and a zero byte, leaves the rest of the
  -- stream, and returns the length of the line, but 1 + room where the line was cut off by the
  -- room.
  pub readline_lem :
      IsSource k pending
      → OnlySignals k signals
      → (fuel room : ℕ) (w : Socket.World k) → room + signals w < fuel
      → let l = line room (pending w) in
        (w' : Socket.World k) × (readline k fuel (1 + room) w
          ≡ done (pos (if is_cut room (pending w) then 1 + room else length l), l ++ (0 ∷ []), w'))
        × (pending w ≡ l ++ pending w')
        × (length l ≤ room)
  unfolding readline count
  readline_lem src os fuel room w h =
      let (w', run, rest) =
        readline_loop_lem src os fuel room 1 [] w (pending w) h (omega arith) refl in
      let zero_first : 1 - 1 + length (line room (pending w)) ≡ length (line room (pending w)) =
        omega arith in
      (
        w',
        (rw zero_first at run),
        line-append room (pending w) ∙ rw rest,
        length-line room (pending w),
      )
