-- ===== src/Web/Starts.antt =====
-- The inner loop starts connections as long as it may.
use network.Prelude.{ℕ, zero, suc, ◌<◌, ◌≡◌, ap, ◌∙◌, inl, inr, true, ◌&&◌, arith}
use network.Prelude.Int.{pos}
use network.Prelude.Counts.{count_absent}
use network.Prelude.Tests.{ltb→lt, Bool-cases}
use network.Ending.{Safe, Safe-then}
use network.Prelude.Int.{decreased, increased, is_positive}
use network.Web.{Turn, Web, is_below, is_unused, start_connect, start_one, start_some}
use network.Web.Tally.{
  and_left, and_right, unused_bits, find_unused_lem, waiting, missing, active, Inv, Runs,
  start_connect-Safe,
}

module _ (nfiles maxnconn : ℕ) where
  -- `i` was not started, and is now: both counters follow.
  started-Inv :
      (i : ℕ) (s s' : Web)
      → Inv nfiles maxnconn s
      → is_unused (s.file i) ≡ true
      → active nfiles maxnconn s.file < maxnconn
      → Runs nfiles maxnconn (s.file i) s s'
      → Inv nfiles maxnconn
          (record s' { nconn = increased s'.nconn; nlefttoconn = decreased s'.nlefttoconn })
        × (waiting nfiles maxnconn s.file ≡ suc (waiting nfiles maxnconn s'.file))
  started-Inv i s s' v new room (to, m, u, o, a) =
      let (op, ac) = unused_bits (s.file i) new in
      let fewer : waiting nfiles maxnconn s.file ≡ suc (waiting nfiles maxnconn s'.file) =
        omega (arith, (rw (new, u) at m.waiting_moves)) in
      let same : missing nfiles maxnconn s.file ≡ missing nfiles maxnconn s'.file =
        omega (arith, (rw (op, o) at m.missing_moves)) in
      let more : suc (active nfiles maxnconn s.file) ≡ active nfiles maxnconn s'.file =
        omega (arith, (rw (ac, a) at m.active_moves)) in
      (
        record {
          to_connect = ap decreased (m.toconn_same ∙ v.to_connect ∙ ap pos fewer);
          to_read = m.toread_same ∙ v.to_read ∙ ap pos same;
          busy = ap increased (m.conn_same ∙ v.busy) ∙ ap pos more;
          few = omega (arith, more, room);
        },
        fewer,
      )

  start_one-Safe :
      (t : Turn) (s : Web)
      → Inv nfiles maxnconn s
      → active nfiles maxnconn s.file < maxnconn
      → 0 < waiting nfiles maxnconn s.file
      → Safe
          (λ s'.
            Inv nfiles maxnconn s'
            × (waiting nfiles maxnconn s.file ≡ suc (waiting nfiles maxnconn s'.file)))
          (start_one nfiles maxnconn t s)
  unfolding Safe start_one
  start_one-Safe t s v room some_left = elim (find_unused_lem nfiles 0 s.file) [
    | inl (run, none_left) ↦ absurd (
        omega (
          arith,
          count_absent is_unused nfiles s.file (λ j q. none_left j (omega arith) (omega arith)),
        ))
    | inr (k, run, high, new) ↦
        rw (start_one, run)
          (Safe-then _ _ (start_connect t k s) _
            (start_connect-Safe nfiles maxnconn t k s (omega arith))
            (λ s' r. started-Inv k s s' v new room r))
  ]

  pub start_some-Safe :
      (fuel : ℕ) (t : Turn) (s : Web)
      → Inv nfiles maxnconn s
      → waiting nfiles maxnconn s.file < fuel
      → Safe (Inv nfiles maxnconn) (start_some nfiles maxnconn fuel t s)
  unfolding Safe start_some
  start_some-Safe zero t s v h = absurd (omega arith)
  start_some-Safe (suc fuel) t s v h =
      elim (Bool-cases (is_below s.nconn maxnconn && is_positive s.nlefttoconn)) [
        | inr e ↦ rw (start_some, e) v
        | inl e ↦
            let both = (rw (v.busy, v.to_connect) at e) in
            rw (start_some, e)
              (Safe-then _ _ (start_one nfiles maxnconn t s) _
                (start_one-Safe t s v (ltb→lt _ _ (and_left _ _ both))
                  (ltb→lt _ _ (and_right _ _ both)))
                (λ s' r. start_some-Safe fuel t s' r.0 (omega (arith, r.1))))
      ]
