-- ===== src/Level/Lines.antt =====
-- The lines that go through the pipe, in every order of the two processes.
use network.Prelude.{
  ℕ, zero, suc, ◌+◌, ◌%◌, ◌≡◌, ◌≢◌, refl, sym, ap, ap₂, ◌∙◌, List, [], ◌∷◌, ◌++◌, append-nil,
  append_assoc, arith,
}
use network.Prelude.Lists.{take, drop}
use network.Level.{State, start, next_char, half, parent_round, child_round}

pub data Step (s : State) : State → Type 0 where
  writes : Step s (parent_round s)
  reads : s.pipe ≢ [] → Step s (child_round s)

pub data Reach : State → Type 0 where
  here : Reach start
  next : {s s' : State} → Reach s → Step s s' → Reach s'

-- The n-th line, from 0: four times the letter 'a' + n mod 26.
pub line : ℕ → List ℕ
line n = let c = 97 + n % 26 in c ∷ c ∷ c ∷ c ∷ 10 ∷ []

-- n lines from the i-th on.
pub lines : ℕ → ℕ → List ℕ
lines i zero = []
lines i (suc n) = line i ++ lines (i + 1) n

lines_more : (i n : ℕ) → lines i (suc n) ≡ lines i n ++ line (i + n)
unfolding lines
lines_more i zero = append-nil (line i) ∙ ap line (omega arith)
lines_more i (suc n) =
    ap (λ l. line i ++ l) (lines_more (i + 1) n ∙ ap (λ m. lines (i + 1) n ++ line m) (omega arith))
    ∙ sym (append_assoc (line i) (lines (i + 1) n) (line (i + suc n)))

half-line : (n : ℕ) → half (97 + n % 26) ≡ line n
unfolding half line
half-line n = refl

next_char_lem : (n : ℕ) → next_char (97 + n % 26) ≡ 97 + (n + 1) % 26
unfolding next_char
next_char_lem n = ground arith

take-line : (a : ℕ) (l : List ℕ) → take 5 (line a ++ l) ≡ line a
unfolding line
take-line a l = refl

drop-line : (a : ℕ) (l : List ℕ) → drop 5 (line a ++ l) ≡ l
unfolding line
drop-line a l = refl

-- a lines are out and n more are in the pipe; the parent's letter is the next one.
pub Lined : State → ℕ → ℕ → Type 0
Lined s a n = (s.out ≡ lines 0 a) × (s.pipe ≡ lines a n) × (s.ch ≡ 97 + (a + n) % 26)

writes_lem : (s : State) (a n : ℕ) → Lined s a n → Lined (parent_round s) a (n + 2)
unfolding Lined parent_round
writes_lem s a n (out, pipe, ch) =
    let first : half s.ch ≡ line (a + n) = ap half ch ∙ half-line (a + n) in
    let letter : next_char s.ch ≡ 97 + (a + (n + 1)) % 26 =
      ap next_char ch ∙ next_char_lem (a + n) ∙ ap (λ m. 97 + m % 26) (omega arith) in
    let second : half (next_char s.ch) ≡ line (a + suc n) =
      ap half letter ∙ half-line (a + (n + 1)) ∙ ap line (omega arith) in
    (
      out,
      ap₂ (λ p q. p ++ q) pipe (ap₂ (λ p q. p ++ q) first second)
          ∙ sym (append_assoc (lines a n) (line (a + n)) (line (a + suc n)))
          ∙ ap (λ l. l ++ line (a + suc n)) (sym (lines_more a n))
          ∙ sym (lines_more a (suc n))
          ∙ ap (lines a) (omega arith),
      ap next_char letter ∙ next_char_lem (a + (n + 1)) ∙ ap (λ m. 97 + m % 26) (omega arith),
    )

reads_lem :
    (s : State) (a n : ℕ)
    → s.pipe ≢ []
    → Lined s a n
    → (m : ℕ) × (n ≡ suc m) × Lined (child_round s) (a + 1) m
unfolding Lined child_round lines
reads_lem s a zero some (out, pipe, ch) = absurd (some pipe)
reads_lem s a (suc m) some (out, pipe, ch) = (
  m,
  refl,
  (
    ap₂ (λ p q. p ++ q) out (ap (take 5) pipe ∙ take-line a (lines (a + 1) m))
        ∙ sym (lines_more 0 a ∙ ap (λ k. lines 0 a ++ line k) (omega arith))
        ∙ ap (lines 0) {x = suc a} (omega arith),
    ap (drop 5) pipe ∙ drop-line a (lines (a + 1) m),
    ch ∙ ap (λ k. 97 + k % 26) (omega arith),
  ),
)

-- In every order of the rounds of the two processes of ET和LT.c, the child has written whole lines
-- of five bytes, the letters a to z in turn and from the start, and the rest of the lines written
-- by the parent are in the pipe, whole and in order.
pub lines_in_order : (s : State) → Reach s → (a n : ℕ) × Lined s a n
unfolding Lined start lines
lines_in_order s here = (0, 0, (refl, refl, refl))
lines_in_order s (next {s = before} path writes) =
    let (a, n, lined) = lines_in_order before path in (a, n + 2, writes_lem before a n lined)
lines_in_order s (next {s = before} path (reads some)) =
    let (a, n, lined) = lines_in_order before path in
    let (m, e, lined') = reads_lem before a n some lined in (a + 1, m, lined')
