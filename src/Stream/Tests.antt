-- ===== src/Stream/Tests.antt =====
-- The functions of the library on concrete streams; the socket moves three bytes at a time.
use network.Prelude.{ℕ, ◌+◌, ◌≡◌, refl, List, [], ◌∷◌, ◌++◌, arith}
use network.Prelude.Int.{pos}
use network.Posix.{Socket}
use network.Posix.Pipe.{pipe, to_come, pipe-IsSource, pipe-OnlySignals}
use network.Run.{done}
use network.Stream.{readn, readn_loop, my_read, readline, readline_loop, readlines}
use network.Stream.Lines.{lines_of, behind, readlines_lem}

-- "ab", a newline and "cd"
abbrev text : List ℕ
text = 97 ∷ 98 ∷ 10 ∷ 99 ∷ 100 ∷ []

-- Where the Readn of HEAD.h returns 0.
readn_of_text : readn (pipe 2) 6 5 (text, []) ≡ done (pos 5, text, ([], []))
unfolding readn readn_loop
readn_of_text = refl

two_lines :
    readlines (pipe 2) 1 8 2 [] (text, [])
    ≡ done ((pos 3, 97 ∷ 98 ∷ 10 ∷ 0 ∷ []) ∷ (pos 2, 99 ∷ 100 ∷ 0 ∷ []) ∷ [], [], ([], []))
unfolding readlines readline readline_loop my_read
two_lines = refl

readlines_lem_example :
    (left' : List ℕ) × (w' : Socket.World (pipe 2)) × (readlines (pipe 2) 1 (1 + 7) 2 [] (text, [])
      ≡ done (lines_of 7 2 ([] ++ text), left', w'))
    × (left' ++ to_come 2 w' ≡ behind 7 2 ([] ++ text))
readlines_lem_example =
    readlines_lem (pipe 2) (to_come 2) (λ w. 0) (pipe-IsSource 2) (pipe-OnlySignals 2) 1 7 2 []
      (text, []) (omega arith)
