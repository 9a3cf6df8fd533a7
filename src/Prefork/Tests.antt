-- ===== src/Prefork/Tests.antt =====
-- A client passes through a pool of two children, and the theorem behind its connection.
use network.Prelude.{ℕ, ◌+◌, ◌≤◌, ◌≡◌, ◌≢◌, refl, true, false, Option, none, some}
use network.Prelude.Lists.{length}
use network.Prelude.Int.{ℤ, pos}
use network.Prelude.Counts.{count}
use network.Prelude.Maps.{update}
use network.Ending.{End, going, exits, nothing_found, unfinished}
use network.Prefork.{
  Pool, Turn, is_ready, start, find_ready, pass, finish, collect, accept_client, collect_all,
  after_select, round,
}
use network.Prefork.Children.{here, next, parent_round, pool_serves}

-- A client connects with descriptor 7.
abbrev connects : Turn
connects = record {
  nsel = some (pos 1);
  connects = true;
  reported = λ i. true;
  accepted = some 7;
  written = true;
  read = λ i. true;
}

-- Only pipes are ready.
abbrev told : Turn
told = record connects { connects = false }

abbrev served : Pool
served = record { child = update (start 2).child 0 (pass 7 ((start 2).child 0)); navail = pos 1 }

first_round : round 2 connects (start 2) ≡ going served
unfolding round after_select accept_client find_ready start
first_round = refl

available : End Pool → Option ℤ
available (going s) = some s.navail
available exits = none
available nothing_found = none
available unfinished = none

-- The first child is done, and the parent reads its byte.
one_client :
    available
      (round 2 told (record served { child = update served.child 0 (finish (served.child 0)) }))
    ≡ some (pos 2)
unfolding available round after_select accept_client find_ready start collect_all collect finish
    pass update
one_client = refl

pool_serves_example :
    (round 2 connects served ≢ nothing_found)
    × (served.navail ≡ pos (count is_ready 2 served.child))
    × ((i : ℕ)
        → (length (served.child i).clients + (served.child i).told ≡ (served.child i).child_status)
          × ((served.child i).child_status ≤ 1))
pool_serves_example = pool_serves 2 served connects (next here (parent_round connects first_round))
