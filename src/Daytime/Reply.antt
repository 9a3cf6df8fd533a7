-- ===== src/Daytime/Reply.antt =====
-- What dayteme.c prints of the answer of the service.
use network.Prelude.{ℕ, ◌<◌, ◌≤◌, ◌≡◌, ◌≢◌, refl, ◌⊎◌, inl, inr, true, some, List, [], ◌∷◌, arith}
use network.Prelude.Lists.{length}
use network.Prelude.Tests.{ltb, Bool-cases, lt→ltb, ltb→lt}
use network.Posix.{got}
use network.Outcome.{ok, undefined}
use network.Daytime.{
  Answers, port_is, sfs, day_time_is, buffer_size, asserts, assert_found, first_address, ntohs,
  up_to_zero, connects_to, read_time, main,
}

read_time_lem :
    (bs : List ℕ)
    → bs ≢ []
    → length bs ≤ buffer_size
    → ((length bs < buffer_size) × (read_time (got bs) ≡ ok (up_to_zero bs)))
      ⊎ ((length bs ≡ buffer_size) × (read_time (got bs) ≡ undefined))
unfolding read_time
read_time_lem [] some_bytes fits = absurd (some_bytes refl)
read_time_lem (b ∷ bs) some_bytes fits = elim (Bool-cases (ltb (length (b ∷ bs)) buffer_size)) [
  | inl e ↦ inl (ltb→lt (length (b ∷ bs)) buffer_size e, rw e refl)
  | inr e ↦
      let full : ¬ (length (b ∷ bs) < buffer_size) =
        λ few. absurd (cc (e, lt→ltb (length (b ∷ bs)) buffer_size few)) in
      inr (omega (arith, full, fits), rw e refl)
]

-- What the client prints, or that it writes behind its buffer.
daytime_prints :
    (a : Answers) (host : ℕ) (others : List ℕ) (s_port sockfd : ℕ) (bs : List ℕ)
    → a.hostinfo ≡ some (host ∷ others)
    → a.servinfo ≡ some s_port
    → a.created ≡ some sockfd
    → a.connects (record { sin_addr = host; sin_port = s_port }) ≡ true
    → a.answer ≡ got bs
    → bs ≢ []
    → length bs ≤ buffer_size
    → ((length bs < buffer_size)
        × (main 2 a ≡ ok (port_is (ntohs s_port) ∷ sfs ∷ day_time_is (up_to_zero bs) ∷ [])))
      ⊎ ((length bs ≡ buffer_size) × (main 2 a ≡ undefined))
unfolding main asserts assert_found first_address connects_to
daytime_prints a host others s_port sockfd bs named served made connected answered some_bytes fits =
    elim (read_time_lem bs some_bytes fits) [
      | inl (few, e) ↦ inl (few, rw (named, served, made, connected, answered, e))
      | inr (full, e) ↦ inr (full, rw (named, served, made, connected, answered, e))
    ]
