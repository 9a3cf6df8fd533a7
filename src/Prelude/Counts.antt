-- ===== src/Prelude/Counts.antt =====
-- How many of the first n slots of a table pass a test.
use Prim.Native.Nat.{ℕ, zero, suc, ◌+◌, ◌≤◌, ◌<◌}
use mathlib.Core.Path.{◌≡◌, refl, sym, ap, subst, ◌∙◌}
use mathlib.Core.Logic.{◌⊎◌, inl, inr}
use mathlib.Core.Bool.{Bool, true, false}
use mathlib.Core.Option.{Option, none, some}
use native.Mathlib.Omega.{arith}
use network.Prelude.Tests.{if◌then◌else◌, Bool-cases}
use network.Prelude.Maps.{update, update_self, update_ne, ℕ-cases}

-- A test as 1 or 0.
abbrev pub bit : Bool → ℕ
bit b = if b then 1 else 0

module _ {ℓ} {A : Type ℓ} (p : A → Bool) where
  unfoldable pub count : ℕ → (ℕ → A) → ℕ
  count zero f = 0
  count (suc n) f = count n f + bit (p (f n))

  count_above : (n k : ℕ) (f : ℕ → A) (x : A) → n ≤ k → count n (update f k x) ≡ count n f
  unfolding count
  count_above zero k f x h = refl
  count_above (suc n) k f x h =
      rw (count_above n k f x (omega arith), update_ne f k n x (omega arith))

  -- A change of one slot.
  pub count-update :
      (n k : ℕ) (f : ℕ → A) (x : A)
      → k < n
      → count n (update f k x) + bit (p (f k)) ≡ count n f + bit (p x)
  unfolding count
  count-update zero k f x h = absurd (omega arith)
  count-update (suc n) k f x h = elim (ℕ-cases n k) [
    | inl e ↦
        let low : count n (update f k x) ≡ count n f = count_above n k f x (omega (arith, e)) in
        let at : update f k x n ≡ x = ap (update f k x) e ∙ update_self f k x in
        rw (low, at, e) (omega arith)
    | inr e ↦
        let rest = count-update n k f x (omega (arith, e)) in
        rw (update_ne f k n x (λ q. e (sym q))) (omega (arith, rest))
  ]

  -- A change that the test does not see.
  pub count_same :
      (n k : ℕ) (f : ℕ → A) (x : A) → p x ≡ p (f k) → count n (update f k x) ≡ count n f
  unfolding count
  count_same zero k f x h = refl
  count_same (suc n) k f x h = elim (ℕ-cases k n) [
    | inl e ↦
        let here : p (update f k x n) ≡ p (f n) =
          subst (λ m. p (update f k x m) ≡ p (f m)) e (ap p (update_self f k x) ∙ h) in
        rw (count_same n k f x h, here)
    | inr e ↦ rw (count_same n k f x h, update_ne f k n x e)
  ]

  pub count_all : (n : ℕ) (f : ℕ → A) → ((i : ℕ) → p (f i) ≡ true) → count n f ≡ n
  unfolding count
  count_all zero f h = refl
  count_all (suc n) f h = rw (count_all n f h, h n) (omega arith)

  -- Where nobody passes, the count is 0.
  pub count_absent : (n : ℕ) (f : ℕ → A) → ((i : ℕ) → i < n → p (f i) ≡ false) → count n f ≡ 0
  unfolding count
  count_absent zero f h = refl
  count_absent (suc n) f h = rw (count_absent n f (λ i q. h i (omega arith)), h n (omega arith))

  -- The first of n slots from `i` on that passes.
  unfoldable pub search : ℕ → (ℕ → A) → ℕ → Option ℕ
  search zero f i = none
  search (suc n) f i = let rest = search n f (i + 1) in if p (f i) then some i else rest

  -- What the search found: nothing, and then nobody passes, or a slot that passes.
  abbrev pub Search : ℕ → (ℕ → A) → ℕ → Option ℕ → Type 0
  Search n f i o =
      ((o ≡ none) × ((j : ℕ) → i ≤ j → j < i + n → p (f j) ≡ false))
      ⊎ ((k : ℕ) × (o ≡ some k) × (k < i + n) × (p (f k) ≡ true))

  pub search_lem : (n : ℕ) (f : ℕ → A) (i : ℕ) → Search n f i (search n f i)
  unfolding search
  search_lem zero f i = inl (refl, (λ j low high. absurd (omega arith)))
  search_lem (suc n) f i = elim (Bool-cases (p (f i))) [
    | inl e ↦ inr (i, rw (search, e), omega arith, e)
    | inr e ↦ elim (search_lem n f (i + 1)) [
      | inl (run, rest) ↦ inl (
        rw (search, e, run),
        (λ j low high. elim (ℕ-cases i j) [
          | inl q ↦ subst (λ x. p (f x) ≡ false) q e
          | inr q ↦ rest j (omega (arith, q)) (omega arith)
        ]),
      )
      | inr (k, run, high, it) ↦ inr (k, rw (search, e, run), omega arith, it)
    ]
  ]
