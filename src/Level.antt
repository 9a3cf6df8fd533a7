-- ===== src/Level.antt =====
-- 多路IO转接服务器/epoll/ET和LT.c: the parent writes two lines at a time into a pipe, the child reads half of
-- that in each round, in level-triggered mode.
pub mod Lines
mod Tests
use network.Prelude.{ℕ, ◌+◌, ◌≤◌, List, [], ◌∷◌, ◌++◌}
use network.Prelude.Tests.{ltb, if◌then◌else◌}
use network.Prelude.Lists.{set, replicate, take, drop}

-- The parent's `ch`, what is in the pipe, and what the child has put on standard output.
pub record State : Type 0 where
  pub ch : ℕ
  pub pipe : List ℕ
  pub out : List ℕ

-- `ch = 'a'`, and an empty pipe.
pub start : State
start = record { ch = 97; pipe = []; out = [] }

-- `ch++; if(ch>'z') ch='a';`
pub next_char : ℕ → ℕ
next_char ch = if ltb 122 (ch + 1) then 97 else ch + 1

-- The half of `buf` that the loops fill with `ch`, with the newline at its end.
pub half : ℕ → List ℕ
half ch = set (replicate 5 ch) 4 10

-- A round of the parent: `write(pfd[1],buf,MAXLEN)` puts all ten bytes into the pipe at once.
pub parent_round : State → State
parent_round s = record s {
  ch = next_char (next_char s.ch);
  pipe = s.pipe ++ (half s.ch ++ half (next_char s.ch));
}

-- A round of the child, which `epoll_wait` lets go on as long as there is something in the pipe.
pub child_round : State → State
child_round s = record s { pipe = drop 5 s.pipe; out = s.out ++ take 5 s.pipe }
