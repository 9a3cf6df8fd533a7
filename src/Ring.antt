-- ===== src/Ring.antt =====
-- A table used as a circular buffer: an index that goes back to 0 at the end, and what stands between the
-- two indices. Shared by the programs that keep such a queue.
pub mod Laws
use network.Prelude.{ℕ, zero, suc, ◌+◌, Bool, List, [], ◌∷◌}
use network.Prelude.Tests.{◌==◌, if◌then◌else◌}

-- `if (++i == cap) i = 0;`
unfoldable pub after : ℕ → ℕ → ℕ
after cap i = if i + 1 == cap then 0 else i + 1

-- The n entries from `i` on.
unfoldable pub contents {ℓ} : {A : Type ℓ} → ℕ → (ℕ → A) → ℕ → ℕ → List A
unfolding after
contents cap slots i zero = []
contents cap slots i (suc n) = slots i ∷ contents cap slots (after cap i) n

-- The index n steps further.
unfoldable pub steps : ℕ → ℕ → ℕ → ℕ
unfolding after
steps cap i zero = i
steps cap i (suc n) = steps cap (after cap i) n
