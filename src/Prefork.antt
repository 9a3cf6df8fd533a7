-- ===== src/Prefork.antt =====
-- unpv13e/server/serv05.c with child05.c: a pool of children, to whom the parent passes the descriptors of
-- its clients. Each child writes a byte to the parent when it is done with one.
pub mod Orderly
pub mod Children
mod Tests
use network.Prelude.{
  ℕ, zero, suc, ◌+◌, ◌-◌, Bool, true, false, ◌&&◌, Option, none, some, List, [], ◌∷◌, ◌++◌,
}
use network.Prelude.Int.{ℤ, pos, negsuc, decreased, increased, is_positive}
use network.Prelude.Maps.{update}
use network.Prelude.Counts.{search}
use network.Prelude.Tests.{ltb, ◌==◌, if◌then◌else◌}
use network.Ending.{End, going, exits, nothing_found, unfinished, ◌>>=◌}

-- `Child`, with what is on the way to the child and back: the descriptors that it has not finished, and
-- the bytes that the parent has not read.
pub record Child : Type 0 where
  pub child_status : ℕ
  pub child_count : ℕ
  pub clients : List ℕ
  pub told : ℕ

pub record Pool : Type 0 where
  pub child : ℕ → Child
  pub navail : ℤ

-- What the calls of one round of the parent answer: what `Select` counts if it does not fail, whether it reports the
-- listening descriptor, and which of the readable pipes; `Accept`; and whether `Write_fd` and each
-- child's `Read` succeed.
pub record Turn : Type 0 where
  pub nsel : Option ℤ
  pub connects : Bool
  pub reported : ℕ → Bool
  pub accepted : Option ℕ
  pub written : Bool
  pub read : ℕ → Bool

abbrev pub is_ready : Child → Bool
is_ready c = c.child_status == 0

abbrev pub is_nought : ℤ → Bool
is_nought (pos n) = n == 0
is_nought (negsuc n) = false

-- `child_make` for each child.
pub start : ℕ → Pool
start nchildren = record {
  child = λ i. record { child_status = 0; child_count = 0; clients = []; told = 0 };
  navail = pos nchildren;
}

-- `for (i = 0; i < nchildren; i++) if (cptr[i].child_status == 0) break;` from `i` on, n rounds.
pub find_ready : ℕ → (ℕ → Child) → ℕ → Option ℕ
unfolding search
find_ready n child i = search is_ready n child i

-- The child is marked as busy, and gets the descriptor.
pub pass : ℕ → Child → Child
pass connfd c = record c {
  child_status = 1;
  child_count = c.child_count + 1;
  clients = c.clients ++ (connfd ∷ []);
}

-- A round of `child_main`: the first client is done, and a byte goes to the parent.
pub finish : Child → Child
finish c = elim c.clients [ [] ↦ c | fd ∷ rest ↦ record c { clients = rest; told = c.told + 1 } ]

-- The byte was read, and the child is ready again.
pub collect : Child → Child
collect c = record c { child_status = 0; told = c.told - 1 }

module _ (nchildren : ℕ) where
  -- The first `if` of the loop, up to `Close(connfd)`.
  pub accept_client : Turn → Pool → End Pool
  accept_client t s = elim t.accepted [
    | none ↦ exits
    | some connfd ↦ elim (find_ready nchildren s.child 0) [
      | none ↦ nothing_found
      | some i ↦
          if t.written
          then going (record s {
            child = update s.child i (pass connfd (s.child i));
            navail = decreased s.navail;
          })
          else exits
    ]
  ]

  -- The loop over the children from `i` on, n rounds, with `nsel` to go. `set` tells what `Select`
  -- reported.
  pub collect_all : Turn → (ℕ → Bool) → ℕ → ℕ → ℤ → Pool → End Pool
  collect_all t set zero i nsel s = going s
  collect_all t set (suc n) i nsel s =
      let s' = record s {
        child = update s.child i (collect (s.child i));
        navail = increased s.navail;
      } in
      let next = collect_all t set n (i + 1) nsel s in
      let rest = collect_all t set n (i + 1) (decreased nsel) s' in
      let collected = if is_nought (decreased nsel) then going s' else rest in
      if set i then (if t.read i then collected else exits) else next

  -- What follows `Select`, with the count `nsel`. The listening descriptor is only in the set if a child
  -- is available, and a pipe is readable if a byte is in it.
  pub after_select : Turn → ℤ → Pool → End Pool
  after_select t nsel s =
      let set : ℕ → Bool = λ i. t.reported i && ltb 0 (s.child i).told in
      let connected = accept_client t s >>= λ s'.
      (if is_nought (decreased nsel)
        then going s'
        else collect_all t set nchildren 0 (decreased nsel) s') in
      if t.connects && is_positive s.navail then connected else collect_all t set nchildren 0 nsel s

  -- A round of the loop; `Select` exits with a failure.
  pub round : Turn → Pool → End Pool
  round t s = elim t.nsel [ none ↦ exits | some nsel ↦ after_select t nsel s ]
