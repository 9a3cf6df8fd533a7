-- ===== src/Checksum/Verifies.antt =====
-- A receiver who sums a block with its checksum gets 0.
use network.Prelude.{
  ℕ, ◌+◌, ◌-◌, ◌*◌, ◌/◌, ◌%◌, ◌^◌, ◌≤◌, ◌<◌, ◌≡◌, ap, ◌∙◌, List, [], ◌∷◌, ◌++◌, arith,
}
use network.Prelude.{inl, inr}
use network.Prelude.Tests.{ltb, ltb→lt, Bool-cases}
use network.Prelude.Lists.{length, All}
use network.Checksum.{sum_from, fold, in_cksum}

-- The two bytes of a word.
abbrev pub bytes_of : ℕ → List ℕ
bytes_of w = w % 256 ∷ w / 256 ∷ []

-- The block is whole words, so that what follows it starts a word.
unfoldable pub IsEven : List ℕ → Type 0
IsEven [] = Unit
IsEven (b ∷ []) = ⊥
IsEven (b ∷ c ∷ bs) = IsEven bs

-- So few bytes do not make 32 bits overflow.
sum_from-small :
    (bs : List ℕ) (sum : ℕ)
    → All (λ b. b < 256) bs
    → sum + 65536 * length bs < 2 ^ 32 - 65536
    → sum_from sum bs < 2 ^ 32 - 65536
unfolding sum_from
sum_from-small [] sum h small = omega arith
sum_from-small (b ∷ []) sum h small = omega (arith, h.0)
sum_from-small (b ∷ c ∷ bs) sum h small =
    sum_from-small bs ((sum + (b + 256 * c)) % 2 ^ 32) h.1.1 (omega (arith, h.0, h.1.0))

sum_from-append :
    (bs : List ℕ) (sum w : ℕ)
    → IsEven bs
    → sum_from sum (bs ++ bytes_of w) ≡ (sum_from sum bs + w) % 2 ^ 32
unfolding IsEven sum_from
sum_from-append [] sum w e =
    let halves : w % 256 + 256 * (w / 256) ≡ w = omega arith in ap (λ x. (sum + x) % 2 ^ 32) halves
sum_from-append (b ∷ []) sum w e = absurd e
sum_from-append (b ∷ c ∷ bs) sum w e = sum_from-append bs ((sum + (b + 256 * c)) % 2 ^ 32) w e

fold_low : (q r : ℕ) → q < 65536 → q + r < 65536 → fold (65536 * q + r) ≡ 65535 - (q + r)
unfolding fold
fold_low q r h low =
    let high_part : (65536 * q + r) / 2 ^ 16 ≡ q = omega arith in
    let low_part : (65536 * q + r) % 2 ^ 16 ≡ r = omega arith in
    rw (high_part, low_part) (omega arith)

fold_high :
    (q r : ℕ) → q < 65535 → r < 65536 → 65536 ≤ q + r → fold (65536 * q + r) ≡ 131070 - (q + r)
unfolding fold
fold_high q r h small high =
    let high_part : (65536 * q + r) / 2 ^ 16 ≡ q = omega arith in
    let low_part : (65536 * q + r) % 2 ^ 16 ≡ r = omega arith in
    rw (high_part, low_part) (omega arith)

-- The sum with its own complement.
fold-complement : (sum : ℕ) → sum < 2 ^ 32 - 65536 → fold ((sum + fold sum) % 2 ^ 32) ≡ 0
fold-complement sum h =
    let q = sum / 65536 in
    let r = sum % 65536 in
    let parts : sum ≡ 65536 * q + r = omega arith in
    elim (Bool-cases (ltb (q + r) 65536)) [
      | inl e ↦
          let mine = ap fold parts ∙ fold_low q r (omega arith) (ltb→lt (q + r) 65536 e) in
          let both : (sum + fold sum) % 2 ^ 32 ≡ 65536 * q + (65535 - q) =
            omega (arith, mine, ltb→lt (q + r) 65536 e) in
          ap fold both ∙ fold_low q (65535 - q) (omega arith) (omega arith) ∙ omega arith
      | inr e ↦
          let large : 65536 ≤ q + r = ground (arith, e) in
          let mine = ap fold parts ∙ fold_high q r (omega arith) (omega arith) large in
          let both : (sum + fold sum) % 2 ^ 32 ≡ 65536 * (q + 1) + (65534 - q) =
            omega (arith, mine, large) in
          ap fold both ∙ fold_low (q + 1) (65534 - q) (omega arith) (omega arith) ∙ omega arith
    ]

-- A block of fewer than 65535 bytes, an even number of them, followed by the two bytes of its
-- checksum has the checksum 0.
pub in_cksum-verifies :
    (bs : List ℕ)
    → All (λ b. b < 256) bs
    → IsEven bs
    → length bs < 65535
    → in_cksum (bs ++ bytes_of (in_cksum bs)) ≡ 0
unfolding in_cksum
in_cksum-verifies bs bytes even short =
    ap fold (sum_from-append bs 0 (fold (sum_from 0 bs)) even)
    ∙ fold-complement (sum_from 0 bs) (sum_from-small bs 0 bytes (omega arith))
