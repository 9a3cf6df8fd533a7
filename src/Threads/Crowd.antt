-- ===== src/Threads/Crowd.antt =====
-- How many clients server3.c takes, in every order of the steps of main and of the threads.
use network.Prelude.{
  ℕ, suc, ◌+◌, ◌≤◌, ◌<◌, ◌≡◌, ◌⊎◌, refl, inl, inr, Bool, List, [], ◌∷◌, ◌++◌, arith,
}
use network.Prelude.Tests.{ltb, Bool-cases, ltb→lt}
use network.Prelude.Lists.{length, length-append}
use network.Outcome.{ok, undefined}
use network.Threads.{Act, connects, begins, finishes, Server, start, finish, act, acts}
use network.Threads.Room.{joined, has_room, no_room}
use network.Threads.Owners.{Inv, start-Inv, joined-Inv, begin_lem, finish-Inv}

-- How many clients connect.
pub connections : List Act → ℕ
connections [] = 0
connections (connects cfd ∷ rest) = suc (connections rest)
connections (begins j ∷ rest) = connections rest
connections (finishes j ∷ rest) = connections rest

fits :
    (order : List Act) (s : Server) (h : List ℕ)
    → Inv s h
    → length h + connections order ≤ 256
    → (s' : Server) × (acts order s ≡ ok s') × (s'.i ≡ length h + connections order)
unfolding acts act connections
fits [] s h v low = (s, refl, omega (arith, v.count))
fits (connects cfd ∷ rest) s h v low =
    let (s', run, count) =
      fits rest (joined cfd s) (h ++ (cfd ∷ [])) (joined-Inv cfd s h v)
        (omega (arith, length-append h (cfd ∷ []))) in
    (
      s',
      rw (has_room cfd s (omega (arith, v.count))) run,
      omega (arith, count, length-append h (cfd ∷ [])),
    )
fits (begins j ∷ rest) s h v low =
    let (s1, begun, v1) = begin_lem j s h v in
    let (s', run, count) = fits rest s1 h v1 low in (s', rw begun run, count)
fits (finishes j ∷ rest) s h v low = fits rest (finish j s) h (finish-Inv j s h v) low

overflows :
    (order : List Act) (s : Server) (h : List ℕ)
    → Inv s h
    → length h ≤ 256
    → 256 < length h + connections order
    → acts order s ≡ undefined
unfolding acts act connections
overflows [] s h v low more = absurd (omega arith)
overflows (connects cfd ∷ rest) s h v low more = elim (Bool-cases (ltb s.i 256)) [
  | inl e ↦
      let room = ltb→lt s.i 256 e in
      rw (has_room cfd s room) (
        overflows rest (joined cfd s) (h ++ (cfd ∷ [])) (joined-Inv cfd s h v)
          (omega (arith, room, v.count, length-append h (cfd ∷ [])))
          (omega (arith, length-append h (cfd ∷ []))))
  | inr e ↦ rw (no_room cfd s (ground (arith, e)))
]
overflows (begins j ∷ rest) s h v low more =
    let (s1, begun, v1) = begin_lem j s h v in rw begun (overflows rest s1 h v1 low more)
overflows (finishes j ∷ rest) s h v low more =
    overflows rest (finish j s) h (finish-Inv j s h v) low more

-- In every order in which clients connect, each with a thread that server3.c creates for it, and
-- threads begin and finish, up to 256 connections are taken, and i is then their number, whatever
-- becomes of the earlier ones; with more than 256, main writes behind the array ttid: undefined
-- behaviour.
pub acts-room :
    (order : List Act) (opened : ℕ → Bool)
    → ((connections order ≤ 256)
        × (s : Server) × (acts order (start opened) ≡ ok s)
        × (s.i ≡ connections order))
      ⊎ ((256 < connections order) × (acts order (start opened) ≡ undefined))
acts-room order opened = elim (Bool-cases (ltb 256 (connections order))) [
  | inl e ↦
      let more = ltb→lt 256 (connections order) e in
      inr (
        more,
        overflows order (start opened) [] (start-Inv opened) (omega arith) (omega (arith, more)),
      )
  | inr e ↦
      let low : connections order ≤ 256 = ground (arith, e) in
      let (s, run, count) = fits order (start opened) [] (start-Inv opened) (omega (arith, low)) in
      inl (low, s, run, omega (arith, count))
]
