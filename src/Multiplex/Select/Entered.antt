-- ===== src/Multiplex/Select/Entered.antt =====
-- A client that has just been entered in the table of select优化.c, in the count and the answers of the
-- round: `select` has not seen it.
use network.Prelude.{
  subst, inl, inr, ℕ, zero, suc, ◌+◌, ◌≤◌, ◌≡◌, refl, ap, ap₂, Bool, false, Option, none, some,
  ◌++◌, arith,
}
use network.Prelude.Maps.{update, update_self, update_ne, ℕ-cases}
use network.Prelude.Tests.{if◌then◌else◌}
use network.Multiplex.Select.{Turn}
use network.Multiplex.Select.Serve.{waits, ready_count, reply, replies}

module _ (t : Turn) (set : ℕ → Bool) where
  pub count_waits :
      (n i : ℕ) (c d : ℕ → Option ℕ)
      → ((j : ℕ) → waits set (c j) ≡ waits set (d j))
      → ready_count set n i c ≡ ready_count set n i d
  unfolding ready_count
  count_waits zero i c d h = refl
  count_waits (suc n) i c d h =
      ap₂ (λ b m. (if b then 1 else 0) + m) (h i) (count_waits n (i + 1) c d h)

  pub replies-reply :
      (n i : ℕ) (c d : ℕ → Option ℕ)
      → ((j : ℕ) → reply t set (c j) ≡ reply t set (d j))
      → replies t set n i c ≡ replies t set n i d
  unfolding replies
  replies-reply zero i c d h = refl
  replies-reply (suc n) i c d h = ap₂ (λ a b. a ++ b) (h i) (replies-reply n (i + 1) c d h)

  -- Unused entries behind the range do not count, and have no answers.
  pub count_more :
      (m n i : ℕ) (c : ℕ → Option ℕ)
      → n ≤ m
      → ((j : ℕ) → i + n ≤ j → c j ≡ none)
      → ready_count set m i c ≡ ready_count set n i c
  unfolding ready_count
  count_more zero zero i c h unused = refl
  count_more zero (suc n) i c h unused = absurd (omega arith)
  count_more (suc m) zero i c h unused =
      let rest = count_more m zero (i + 1) c (omega arith) (λ j q. unused j (omega arith)) in
      rw (unused i (omega arith)) (omega (arith, rest))
  count_more (suc m) (suc n) i c h unused =
      ap (λ k. (if waits set (c i) then 1 else 0) + k)
        (count_more m n (i + 1) c (omega arith) (λ j q. unused j (omega arith)))

  pub replies_more :
      (m n i : ℕ) (c : ℕ → Option ℕ)
      → n ≤ m
      → ((j : ℕ) → i + n ≤ j → c j ≡ none)
      → replies t set m i c ≡ replies t set n i c
  unfolding replies
  replies_more zero zero i c h unused = refl
  replies_more zero (suc n) i c h unused = absurd (omega arith)
  replies_more (suc m) zero i c h unused =
      rw (unused i (omega arith))
        (replies_more m zero (i + 1) c (omega arith) (λ j q. unused j (omega arith)))
  replies_more (suc m) (suc n) i c h unused =
      ap (λ k. reply t set (c i) ++ k)
        (replies_more m n (i + 1) c (omega arith) (λ j q. unused j (omega arith)))

  module _ (client : ℕ → Option ℕ) (k connfd : ℕ) (free : client k ≡ none)
      (apart : set connfd ≡ false) where
    pub waits_entered : (j : ℕ) → waits set (update client k (some connfd) j) ≡ waits set (client j)
    waits_entered j = elim (ℕ-cases k j) [
      | inl e ↦
          subst (λ i. waits set (update client k (some connfd) i) ≡ waits set (client i)) e
            (rw (update_self client k (some connfd), free) apart)
      | inr e ↦ ap (waits set) (update_ne client k j (some connfd) e)
    ]

    pub reply_entered :
        (j : ℕ) → reply t set (update client k (some connfd) j) ≡ reply t set (client j)
    reply_entered j = elim (ℕ-cases k j) [
      | inl e ↦
          subst (λ i. reply t set (update client k (some connfd) i) ≡ reply t set (client i)) e
            (rw (update_self client k (some connfd), free, apart))
      | inr e ↦ ap (reply t set) (update_ne client k j (some connfd) e)
    ]
