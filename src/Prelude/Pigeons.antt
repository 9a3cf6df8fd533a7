-- ===== src/Prelude/Pigeons.antt =====
-- No more things than places, where each has a place of its own.
use Prim.Native.Nat.{ℕ, zero, suc, ◌≤◌, ◌<◌}
use mathlib.Core.Path.{◌≡◌, sym, ◌∙◌}
use mathlib.Core.Logic.{◌≢◌, inl, inr}
use native.Mathlib.Omega.{arith}
use network.Prelude.Tests.{◌==◌, ==_iff, if◌then◌else◌, Bool-cases}

abbrev Apart : (ℕ → ℕ) → ℕ → Type 0
Apart f n = (i j : ℕ) → i < n → j < n → f i ≡ f j → i ≡ j

-- The place m, the last one, is given up for the place of n.
move : (ℕ → ℕ) → ℕ → ℕ → ℕ → ℕ
move f n m j = if f j == m then f n else f j

move_below :
    (f : ℕ → ℕ) (n m j : ℕ)
    → Apart f (suc n)
    → ((i : ℕ) → i < suc n → f i < suc m)
    → j < n
    → move f n m j < m
unfolding move
move_below f n m j apart low h = elim (Bool-cases (f j == m)) [
  | inl e ↦
      let top = (==_iff (f j) m).0 e in
      let other : f n ≢ m =
        λ q. absurd (omega (arith, apart j n (omega arith) (omega arith) (top ∙ sym q), h)) in
      rw e (omega (arith, low n (omega arith), other))
  | inr e ↦
      let other : f j ≢ m = λ q. absurd (cc (e, (==_iff (f j) m).1 q)) in
      rw e (omega (arith, low j (omega arith), other))
]

move-Apart : (f : ℕ → ℕ) (n m : ℕ) → Apart f (suc n) → Apart (move f n m) n
unfolding move
move-Apart f n m apart i j hi hj = elim (Bool-cases (f i == m)) [
  | inl e ↦ elim (Bool-cases (f j == m)) [
    | inl d ↦ λ q.
        apart i j (omega arith) (omega arith) ((==_iff (f i) m).0 e ∙ sym ((==_iff (f j) m).0 d))
    | inr d ↦
        λ q. absurd (omega (arith, apart n j (omega arith) (omega arith) (rw (e, d) at q), hj))
  ]
  | inr e ↦ elim (Bool-cases (f j == m)) [
    | inl d ↦
        λ q. absurd (omega (arith, apart i n (omega arith) (omega arith) (rw (e, d) at q), hi))
    | inr d ↦ λ q. apart i j (omega arith) (omega arith) (rw (e, d) at q)
  ]
]

pub pigeonhole :
    (m n : ℕ) (f : ℕ → ℕ)
    → ((i j : ℕ) → i < n → j < n → f i ≡ f j → i ≡ j)
    → ((i : ℕ) → i < n → f i < m)
    → n ≤ m
pigeonhole m zero f apart low = omega arith
pigeonhole zero (suc n) f apart low = absurd (omega (arith, low 0 (omega arith)))
pigeonhole (suc m) (suc n) f apart low =
    let ih =
      pigeonhole m n (move f n m) (move-Apart f n m apart)
        (λ j h. move_below f n m j apart low h) in
    omega (arith, ih)
