-- ===== src/Head/Reads.antt =====
-- `Readn` and what it counts.
use network.Prelude.{
  ℕ, zero, suc, ◌-◌, ◌≤◌, ◌<◌, ◌≡◌, refl, sym, ◌∙◌, ◌⊎◌, inl, inr, List, [], ◌++◌, arith,
}
use network.Prelude.Tests.{==_iff}
use network.Prelude.Lists.{length}
use network.Prelude.Int.{pos}
use network.Posix.{Answer, got, failed, Socket, IsSource, OnlySignals, eintr}
use network.Run.{done}
use network.Head.{readn_loop, readn}

pub Answer-cases : (a : Answer) → ((bs : List ℕ) × (a ≡ got bs)) ⊎ ((e : ℕ) × (a ≡ failed e))
Answer-cases (got bs) = inl (bs, refl)
Answer-cases (failed e) = inr (e, refl)

module _ (k : Socket) (pending : Socket.World k → List ℕ) (signals : Socket.World k → ℕ) where
  readn_loop_lem :
      IsSource k pending
      → OnlySignals k signals
      → (fuel n : ℕ) (w : Socket.World k) → signals w < fuel
      → (bs : List ℕ) × (w' : Socket.World k) × (readn_loop k fuel (suc n) (suc n) [] w
          ≡ done (pos 0, bs, w'))
        × (pending w ≡ bs ++ pending w')
        × (length bs ≤ suc n)
        × (bs ≡ [] → pending w ≡ [])
  unfolding readn_loop
  readn_loop_lem src os zero n w h = absurd (omega arith)
  readn_loop_lem src os (suc fuel) n w h =
      let w1 = (Socket.recv k (suc n) w).1 in
      let e0 : suc n - suc n ≡ 0 = omega arith in
      elim (Answer-cases (Socket.recv k (suc n) w).0) [
        | inl (bs, e) ↦
            let law = src.delivers (suc n) w bs (omega arith) e in
            (bs, w1, rw (e, readn_loop, e0), law.1, law.0, law.2)
        | inr (er, e) ↦
            let law = os.recv_signal (suc n) w er e in
            let (bs, w', run, cut, room, ends) =
              readn_loop_lem src os fuel n w1 (omega (arith, law.1)) in
            let same = src.keeps (suc n) w er e in
            (
              bs,
              w',
              rw (e, readn_loop, (==_iff er eintr).1 law.0) run,
              sym same ∙ cut,
              room,
              (λ q. sym same ∙ ends q),
            )
      ]

  -- Where signals are the only failures, Readn of n > 0 bytes returns 0 also where bytes came: the
  -- first answer that is no signal ends the loop, and its bytes are stored and gone from the
  -- stream but not counted.
  pub readn_counts_nothing :
      IsSource k pending
      → OnlySignals k signals
      → (fuel n : ℕ) (w : Socket.World k) → signals w < fuel
      → 0 < n
      → (bs : List ℕ) × (w' : Socket.World k) × (readn k fuel n w ≡ done (pos 0, bs, w'))
        × (pending w ≡ bs ++ pending w')
        × (length bs ≤ n)
        × (bs ≡ [] → pending w ≡ [])
  unfolding readn
  readn_counts_nothing src os fuel zero w h p = absurd (omega arith)
  readn_counts_nothing src os fuel (suc n) w h p = readn_loop_lem src os fuel n w h
