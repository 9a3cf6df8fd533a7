-- ===== src/Daytime/Tests.antt =====
-- The daytime client with an answer of the service.
use network.Prelude.{ℕ, ◌≡◌, refl, true, some, List, [], ◌∷◌}
use network.Posix.{got}
use network.Outcome.{ok, exited}
use network.Daytime.{
  Answers, port_is, sfs, day_time_is, asserts, assert_found, first_address, ntohs, up_to_zero,
  connects_to, read_time, main,
}

abbrev noon : List ℕ
noon = 49 ∷ 50 ∷ 10 ∷ []

-- 3328 is 13 in network order.
abbrev answers : Answers
answers = record {
  hostinfo = some (127 ∷ []);
  servinfo = some 3328;
  created = some 3;
  connects = λ address. true;
  answer = got noon;
}

run : main 2 answers ≡ ok (port_is 13 ∷ sfs ∷ day_time_is noon ∷ [])
unfolding main asserts assert_found first_address connects_to read_time ntohs up_to_zero
run = refl

no_host : main 1 answers ≡ exited
unfolding main asserts
no_host = refl
