-- ===== src/Checksum.antt =====
-- unpv13e/libfree/in_cksum.c: the Internet checksum of a block of bytes, on a machine that puts the low byte
-- of a word first.
pub mod Verifies
mod Tests
use network.Prelude.{ℕ, ◌+◌, ◌-◌, ◌*◌, ◌/◌, ◌%◌, ◌^◌, List, [], ◌∷◌}

-- `while (nleft > 1)` and the odd byte behind it, over a sum of 32 bits.
pub sum_from : ℕ → List ℕ → ℕ
sum_from sum [] = sum
sum_from sum (b ∷ []) = (sum + b) % 2 ^ 32
sum_from sum (b ∷ c ∷ bs) = sum_from ((sum + (b + 256 * c)) % 2 ^ 32) bs

-- The carries are added back twice, and the complement is cut to 16 bits.
pub fold : ℕ → ℕ
fold sum =
    let once = sum / 2 ^ 16 + sum % 2 ^ 16 in
    let twice = (once + once / 2 ^ 16) % 2 ^ 32 in 2 ^ 16 - 1 - twice % 2 ^ 16

pub in_cksum : List ℕ → ℕ
in_cksum bs = fold (sum_from 0 bs)
