-- ===== src/Head/Tests.antt =====
-- The functions of HEAD.h on concrete streams; the socket moves three bytes at a time.
use network.Prelude.{ℕ, ◌+◌, ◌≤◌, ◌≡◌, refl, List, [], ◌∷◌, ◌++◌, arith}
use network.Prelude.Tests.{if◌then◌else◌}
use network.Prelude.Lists.{length}
use network.Prelude.Int.{pos}
use network.Posix.{Socket}
use network.Posix.Pipe.{pipe, to_come, pipe-IsSource, pipe-OnlySignals}
use network.Run.{done}
use network.Head.{readn, readline}
use network.Head.Reads.{readn_counts_nothing}
use network.Head.Lines.{line, is_cut, readline_lem}

-- "ab", a newline and "cd"
abbrev text : List ℕ
text = 97 ∷ 98 ∷ 10 ∷ 99 ∷ 100 ∷ []

readn_of_text : readn (pipe 2) 5 5 (text, []) ≡ done (pos 0, 97 ∷ 98 ∷ 10 ∷ [], (99 ∷ 100 ∷ [], []))
unfolding readn
readn_of_text = refl

readline_of_text :
    readline (pipe 2) 9 8 (text, []) ≡ done (pos 3, 97 ∷ 98 ∷ 10 ∷ 0 ∷ [], (99 ∷ 100 ∷ [], []))
unfolding readline
readline_of_text = refl

readline_cut :
    readline (pipe 2) 9 2 (text, []) ≡ done (pos 2, 97 ∷ 0 ∷ [], (98 ∷ 10 ∷ 99 ∷ 100 ∷ [], []))
unfolding readline
readline_cut = refl

readn_counts_nothing_example :
    (bs : List ℕ) × (w' : Socket.World (pipe 2)) × (readn (pipe 2) 5 5 (text, [])
      ≡ done (pos 0, bs, w'))
    × (text ≡ bs ++ to_come 2 w')
    × (length bs ≤ 5)
    × (bs ≡ [] → text ≡ [])
readn_counts_nothing_example =
    readn_counts_nothing (pipe 2) (to_come 2) (λ w. 0) (pipe-IsSource 2) (pipe-OnlySignals 2) 5 5
      (text, []) (omega arith) (omega arith)

readline_lem_example :
    let l = line 7 text in
    (w' : Socket.World (pipe 2)) × (readline (pipe 2) 9 (1 + 7) (text, [])
      ≡ done (pos (if is_cut 7 text then 1 + 7 else length l), l ++ (0 ∷ []), w'))
    × (text ≡ l ++ to_come 2 w')
    × (length l ≤ 7)
readline_lem_example =
    readline_lem (pipe 2) (to_come 2) (λ w. 0) (pipe-IsSource 2) (pipe-OnlySignals 2) 9 7 (text, [])
      (omega arith)
