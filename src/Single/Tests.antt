-- ===== src/Single/Tests.antt =====
-- The servers on concrete streams, and their theorems at inputs that meet the hypotheses.
use network.Prelude.{ℕ, ◌≡◌, refl, List, [], ◌∷◌, ◌++◌, map, arith}
use network.Posix.{toupper, got}
use network.Posix.Pipe.{
  hose, hose_sent, hose_to_come, hose-TakesAll, hose-IsDuplex, hose-IsSource, hose-NoFailure,
}
use network.Run.{done}
use network.Single.{
  child_loop, single_round, hello_round, local_client_round, local_rounds, local_round,
}
use network.Single.Serves.{child_serves}
use network.Single.Session.{Session, Runs, fresh, reading, returning, hello}
use network.Single.Session.Rounds.{rounds_are_steps}

abbrev hi : List ℕ
hi = 104 ∷ 105 ∷ 10 ∷ []

abbrev waiting : List ℕ × List ℕ
waiting = (hi, [])

-- Two bytes at a time.
local_run : local_rounds (hose 1) 3 waiting ≡ ([], 72 ∷ 73 ∷ 10 ∷ [])
unfolding local_rounds local_round toupper
local_run = refl

client_run : hello_round (hose 9) ([], waiting) ≡ (hi, ([], 104 ∷ 101 ∷ 108 ∷ 108 ∷ 111 ∷ []))
unfolding hello_round
client_run = refl

local_client_run : local_client_round (hose 9) (got (97 ∷ [])) ([], waiting) ≡ (hi, ([], 97 ∷ []))
unfolding local_client_round
local_client_run = refl

child_serves_example :
    (w' : List ℕ × List ℕ) × (child_loop (hose 1) 5 [] waiting ≡ done ([] ++ map toupper hi, w'))
    × (w'.1 ≡ [] ++ map toupper hi)
child_serves_example =
    child_serves (hose 1) (hose_sent 1) (hose_to_come 1) (hose-IsSource 1) (hose-TakesAll 1)
      (hose-IsDuplex 1) (hose-NoFailure 1) 5 [] waiting (omega arith)

-- The server has read three of the bytes, put them on its standard output and handed one back.
abbrev half_served : Session
half_served = record fresh {
  client = reading;
  server = returning (69 ∷ 76 ∷ []);
  up = 108 ∷ 111 ∷ [];
  down = 72 ∷ [];
  said = hello;
  noted = 104 ∷ 101 ∷ 108 ∷ [];
}

-- Both sides are between their rounds, with bytes under way in both directions.
abbrev between : Session
between = record fresh {
  up = 104 ∷ 105 ∷ [];
  down = 72 ∷ [];
  said = 104 ∷ 104 ∷ 105 ∷ [];
  noted = 104 ∷ [];
}

rounds_are_steps_example :
    Runs between
      (record between { up = []; down = 72 ∷ 72 ∷ 73 ∷ []; noted = 104 ∷ 104 ∷ 105 ∷ [] })
    × Runs between (record between {
      up = 104 ∷ 105 ∷ hello;
      down = [];
      said = between.said ++ hello;
      shown = 72 ∷ [];
    })
unfolding single_round hello_round toupper
rounds_are_steps_example =
    rounds_are_steps (hose 9) (hose_sent 9) (hose_to_come 9) (hose-IsSource 9) (hose-TakesAll 9)
      (hose-IsDuplex 9) between (104 ∷ 105 ∷ [], 72 ∷ []) (72 ∷ [], 104 ∷ 105 ∷ []) refl refl
      (refl, refl) (refl, refl)
