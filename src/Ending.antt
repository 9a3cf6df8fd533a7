-- ===== src/Ending.antt =====
-- How a part of a program ends that checks its calls and its own tables: it goes on, a call fails and the
-- program exits, it exits since a search through a table came to nothing, or the fuel is used up.
use network.Prelude.{◌≡◌, refl, ◌⊎◌, inl, inr}

pub data End (A : Type 0) : Type 0 where
  going : A → End A
  exits : End A
  nothing_found : End A
  unfinished : End A

infixl 5 ◌>>=◌
abbrev pub ◌>>=◌ : {A B : Type 0} → End A → (A → End B) → End B
going a >>= f = f a
exits >>= f = exits
nothing_found >>= f = nothing_found
unfinished >>= f = unfinished

-- The program goes on with P, or exits behind a failed call.
unfoldable pub Safe : {A : Type 0} → (A → Type 0) → End A → Type 0
Safe P (going a) = P a
Safe P exits = Unit
Safe P nothing_found = ⊥
Safe P unfinished = ⊥

pub Safe-then :
    {A B : Type 0} (P : A → Type 0) (Q : B → Type 0) (m : End A) (f : A → End B)
    → Safe P m
    → ((a : A) → P a → Safe Q (f a))
    → Safe Q (m >>= f)
unfolding Safe
Safe-then P Q (going a) f v h = h a v
Safe-then P Q exits f v h = tt
Safe-then P Q nothing_found f v h = v
Safe-then P Q unfinished f v h = v

pub Safe-weaken :
    {A : Type 0} (P Q : A → Type 0) (m : End A) → Safe P m → ((a : A) → P a → Q a) → Safe Q m
unfolding Safe
Safe-weaken P Q (going a) v h = h a v
Safe-weaken P Q exits v h = tt
Safe-weaken P Q nothing_found v h = v
Safe-weaken P Q unfinished v h = v

pub Safe-cases :
    {A : Type 0} (P : A → Type 0) (m : End A)
    → Safe P m
    → (m ≡ exits) ⊎ ((a : A) × (m ≡ going a) × P a)
unfolding Safe
Safe-cases P (going a) v = inr (a, refl, v)
Safe-cases P exits v = inl refl
Safe-cases P nothing_found v = absurd v
Safe-cases P unfinished v = absurd v
