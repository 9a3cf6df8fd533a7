-- ===== src/Framing/Bytes.antt =====
-- How socket.c lays an `int` out in memory: four bytes, the low one first (a little-endian host),
-- and the byte order functions of the C library, which reverse them there.
use network.Prelude.{ℕ, ◌+◌, ◌*◌, ◌/◌, ◌%◌, ◌^◌, ◌<◌, ◌≡◌, refl, List, [], ◌∷◌, ◌++◌, arith}
use network.Prelude.Lists.{length, drop}

abbrev pub IsByte : ℕ → Type 0
IsByte b = b < 256

-- The bytes of a 32-bit object at its address.
unfoldable pub int_bytes : ℕ → List ℕ
int_bytes w = w % 256 ∷ w / 256 % 256 ∷ w / 65536 % 256 ∷ w / 16777216 % 256 ∷ []

-- The 32-bit object that four bytes make.
unfoldable pub of_bytes : List ℕ → ℕ
of_bytes [] = 0
of_bytes (b ∷ bs) = b + 256 * of_bytes bs

unfoldable pub htonl : ℕ → ℕ
unfolding int_bytes of_bytes
htonl w =
    w / 16777216 % 256 + 256 * (w / 65536 % 256) + 65536 * (w / 256 % 256) + 16777216 * (w % 256)

unfoldable pub ntohl : ℕ → ℕ
unfolding htonl
ntohl w = htonl w

-- An object of which the first bytes were overwritten.
unfoldable pub overlay : List ℕ → List ℕ → List ℕ
overlay bs old = bs ++ drop (length bs) old

-- The length of a message as its four bytes on the wire, the high one first.
unfoldable pub big_endian : ℕ → List ℕ
big_endian w = w / 16777216 % 256 ∷ w / 65536 % 256 ∷ w / 256 % 256 ∷ w % 256 ∷ []

pub int_bytes-htonl : (w : ℕ) → w < 2 ^ 32 → int_bytes (htonl w) ≡ big_endian w
unfolding int_bytes htonl big_endian
int_bytes-htonl w h = grind arith

pub ntohl-of_bytes-big_endian : (w : ℕ) → w < 2 ^ 32 → ntohl (of_bytes (big_endian w)) ≡ w
unfolding of_bytes ntohl big_endian
ntohl-of_bytes-big_endian w h = omega arith

pub length-big_endian : (w : ℕ) → length (big_endian w) ≡ 4
unfolding big_endian
length-big_endian w = refl
