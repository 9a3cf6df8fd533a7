-- ===== src/Checksum/Tests.antt =====
-- The checksum of a header, and the receiver's sum over it.
use network.Prelude.{ℕ, ◌-◌, ◌<◌, ◌≡◌, refl, List, [], ◌∷◌, ◌++◌, arith}
use network.Prelude.Lists.{All}
use network.Checksum.{sum_from, fold, in_cksum}
use network.Checksum.Verifies.{bytes_of, IsEven, in_cksum-verifies}

-- An ICMP echo request without its checksum.
abbrev request : List ℕ
request = 8 ∷ 0 ∷ 255 ∷ 255 ∷ 18 ∷ 52 ∷ 0 ∷ 1 ∷ []

checksum_of_request : in_cksum request ≡ 51941
unfolding in_cksum fold sum_from
checksum_of_request = refl

odd_byte : in_cksum (1 ∷ 0 ∷ 5 ∷ []) ≡ 65535 - 6
unfolding in_cksum fold sum_from
odd_byte = refl

request_bytes : All (λ b. b < 256) request
request_bytes = (
  omega arith,
  (
    omega arith,
    (omega arith, (omega arith, (omega arith, (omega arith, (omega arith, (omega arith, tt)))))),
  ),
)

request-IsEven : IsEven request
unfolding IsEven
request-IsEven = tt

in_cksum-verifies_example : in_cksum (request ++ bytes_of (in_cksum request)) ≡ 0
in_cksum-verifies_example = in_cksum-verifies request request_bytes request-IsEven (omega arith)
