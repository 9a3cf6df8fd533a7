-- ===== src/Ring/Laws.antt =====
-- Putting at the end of a circular buffer and taking at its front.
use network.Prelude.{
  ℕ, zero, suc, ◌+◌, ◌≤◌, ◌<◌, ◌≡◌, ◌≢◌, refl, ap, ap₂, ◌⊎◌, inl, inr, [], ◌∷◌, ◌++◌, arith,
}
use network.Prelude.Maps.{update, update_self, update_ne, ℕ-cases}
use network.Prelude.Tests.{◌==◌, ==_iff, Bool-cases}
use network.Ring.{after, contents, steps}

pub after_below : (cap i : ℕ) → i < cap → after cap i < cap
unfolding after
after_below cap i h = ground arith

-- One step is to the next index, or from the last to the first.
after-cases :
    (cap i : ℕ)
    → i < cap
    → ((after cap i ≡ i + 1) × (i + 1 < cap)) ⊎ ((after cap i ≡ 0) × (i + 1 ≡ cap))
unfolding after
after-cases cap i h = elim (ℕ-cases (i + 1) cap) [
  | inl e ↦ inr (rw ((==_iff (i + 1) cap).1 e), e)
  | inr e ↦ elim (Bool-cases (i + 1 == cap)) [
    | inl q ↦ absurd (e ((==_iff (i + 1) cap).0 q))
    | inr q ↦ inl (rw q, omega (arith, h, e))
  ]
]

-- n steps are n further, or n further and around once.
pub steps-cases :
    (cap i n : ℕ)
    → i < cap
    → n ≤ cap
    → (steps cap i n ≡ i + n) ⊎ ((steps cap i n + cap ≡ i + n) × (steps cap i n < cap))
unfolding steps
steps-cases cap i zero h low = inl (omega arith)
steps-cases cap i (suc n) h low =
    let ih = steps-cases cap (after cap i) n (after_below cap i h) (omega arith) in
    elim (after-cases cap i h) [
      | inl (e, inside) ↦ elim ih [
        | inl q ↦ inl (omega (arith, e, q))
        | inr (q, r) ↦ inr (omega (arith, e, q), r)
      ]
      | inr (e, last) ↦ elim ih [
        | inl q ↦ inr (omega (arith, e, q, last), omega (arith, e, q))
        | inr (q, r) ↦ absurd (omega (arith, e, q, low))
      ]
    ]

pub steps_below : (cap i n : ℕ) → i < cap → steps cap i n < cap
unfolding steps
steps_below cap i zero h = h
steps_below cap i (suc n) h = steps_below cap (after cap i) n (after_below cap i h)

-- Fewer steps than entries do not come back.
pub steps-ne : (cap i n : ℕ) → i < cap → 0 < n → n < cap → steps cap i n ≢ i
steps-ne cap i n h some few e = elim (steps-cases cap i n h (omega arith)) [
  | inl q ↦ absurd (omega (arith, e, q))
  | inr (q, r) ↦ absurd (omega (arith, e, q))
]

-- All the way around, or not at all.
pub steps_around : (cap i n : ℕ) → i < cap → n ≤ cap → steps cap i n ≡ i → (n ≡ 0) ⊎ (n ≡ cap)
steps_around cap i n h low e = elim (steps-cases cap i n h low) [
  | inl q ↦ inl (omega (arith, e, q))
  | inr (q, r) ↦ inr (omega (arith, e, q))
]

pub steps_full : (cap i : ℕ) → i < cap → steps cap i cap ≡ i
steps_full cap i h = elim (steps-cases cap i cap h (omega arith)) [
  | inl q ↦ absurd (omega (arith, q, steps_below cap i cap h))
  | inr (q, r) ↦ omega (arith, q)
]

pub steps-suc : (cap i n : ℕ) → steps cap i (suc n) ≡ after cap (steps cap i n)
unfolding steps
steps-suc cap i zero = refl
steps-suc cap i (suc n) = steps-suc cap (after cap i) n

module _ {ℓ} {A : Type ℓ} (cap : ℕ) (slots : ℕ → A) (x : A) where
  -- An entry put at the end.
  pub contents-put :
      (i n : ℕ)
      → i < cap
      → n < cap
      → contents cap (update slots (steps cap i n) x) i (suc n) ≡ contents cap slots i n ++ (x ∷ [])
  unfolding contents steps
  contents-put i zero h low = ap (λ y. y ∷ []) (update_self slots i x)
  contents-put i (suc n) h low =
      ap₂ (λ y l. y ∷ l)
        (update_ne slots (steps cap i (suc n)) i x (steps-ne cap i (suc n) h (omega arith) low))
        (contents-put (after cap i) n (after_below cap i h) (omega arith))
