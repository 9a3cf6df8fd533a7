-- ===== src/Web/Counts.antt =====
-- The counters of the main loop and the flags of the files.
use network.Prelude.{
  ℕ, zero, suc, ◌+◌, ◌≤◌, ◌<◌, ◌≡◌, refl, sym, ap, ◌∙◌, ◌⊎◌, inl, inr, Bool, true, false, ◌||◌,
  List, [], ◌∷◌, arith,
}
use network.Prelude.Int.{pos}
use network.Prelude.Maps.{update}
use network.Prelude.Counts.{count, count_all, count_absent}
use network.Prelude.Tests.{Bool-cases, Option-cases}
use network.Posix.{Answer-cases}
use network.Ending.{going, exits, Safe, Safe-then, Safe-cases, Safe-weaken}
use network.Prelude.Int.{decreased, is_positive}
use network.Web.{
  unused, reading, finished, File, Turn, Web, is_unused, write_get_cmd, start_some, handle,
  handle_all, after_start, round, rounds, start,
}
use network.Web.Tally.{
  is_active, is_open, Flags-cases, waiting, missing, active, Inv, Moves, set-Moves, Runs,
  same_files, write_get_cmd-Safe,
}
use network.Web.Starts.{start_some-Safe}

module _ (nfiles maxnconn : ℕ) where
  -- A connection that stays on its file.
  kept-Inv :
      (f : File) (s s' : Web)
      → Inv nfiles maxnconn s
      → (is_unused f ≡ false) × (is_open f ≡ true) × (is_active f ≡ true)
      → Runs nfiles maxnconn f s s'
      → Inv nfiles maxnconn s'
  kept-Inv f s s' v (fu, fo, fa) (to, m, u, o, a) =
      let less : waiting nfiles maxnconn s.file ≡ waiting nfiles maxnconn s'.file =
        omega (arith, (rw (fu, u) at m.waiting_moves)) in
      let same : missing nfiles maxnconn s.file ≡ missing nfiles maxnconn s'.file =
        omega (arith, (rw (fo, o) at m.missing_moves)) in
      let more : active nfiles maxnconn s.file ≡ active nfiles maxnconn s'.file =
        omega (arith, (rw (fa, a) at m.active_moves)) in
      record {
        to_connect = m.toconn_same ∙ v.to_connect ∙ ap pos less;
        to_read = m.toread_same ∙ v.to_read ∙ ap pos same;
        busy = m.conn_same ∙ v.busy ∙ ap pos more;
        few = omega (arith, more, v.few);
      }

  -- A file that ends.
  ended-Inv :
      (i : ℕ) (s s' : Web)
      → Inv nfiles maxnconn s
      → (s.file i).flags ≡ reading
      → Moves nfiles maxnconn (s.file i) (record (s.file i) { flags = finished }) s s'
      → Inv nfiles maxnconn
          (record s' { nconn = decreased s'.nconn; nlefttoread = decreased s'.nlefttoread })
  ended-Inv i s s' v e m =
      let less : waiting nfiles maxnconn s.file ≡ waiting nfiles maxnconn s'.file =
        omega (arith, (rw e at m.waiting_moves)) in
      let same : missing nfiles maxnconn s.file ≡ suc (missing nfiles maxnconn s'.file) =
        omega (arith, (rw e at m.missing_moves)) in
      let more : active nfiles maxnconn s.file ≡ suc (active nfiles maxnconn s'.file) =
        omega (arith, (rw e at m.active_moves)) in
      record {
        to_connect = m.toconn_same ∙ v.to_connect ∙ ap pos less;
        to_read = ap decreased (m.toread_same ∙ v.to_read ∙ ap pos same);
        busy = ap decreased (m.conn_same ∙ v.busy ∙ ap pos more);
        few = omega (arith, more, v.few);
      }

  handle-Safe :
      (t : Turn) (rs ws : ℕ → Bool) (i : ℕ) (s : Web)
      → i < nfiles
      → Inv nfiles maxnconn s
      → Safe (Inv nfiles maxnconn) (handle nfiles maxnconn t rs ws i s)
  unfolding Safe handle
  handle-Safe t rs ws i s h v = elim (Flags-cases (s.file i).flags) [
    | inl e ↦ rw (handle, e) v
    | inr (inr (inr e)) ↦ rw (handle, e) v
    | inr (inl e) ↦ elim (Bool-cases (rs (s.file i).fd || ws (s.file i).fd)) [
      | inr q ↦ rw (handle, e, q) v
      | inl q ↦
          let off = record s { wset = update s.wset (s.file i).fd false } in
          rw (handle, e, q)
            (Safe-weaken _ _ (write_get_cmd t i off) (write_get_cmd-Safe nfiles maxnconn t i off h)
              (λ s' r.
                kept-Inv (s.file i) off s' (same_files nfiles maxnconn s off v refl refl refl refl)
                  (rw e, rw e, rw e) r))
    ]
    | inr (inr (inl e)) ↦ elim (Bool-cases (rs (s.file i).fd)) [
      | inr q ↦ rw (handle, e, q) v
      | inl q ↦ elim (Answer-cases (t.reads i)) [
        | inl r ↦
            let to = record (s.file i) { flags = finished } in
            let there = record s {
              file = update s.file i to;
              rset = update s.rset (s.file i).fd false;
            } in
            rw (handle, e, q, r)
              (ended-Inv i s there v e
                (set-Moves nfiles maxnconn s there i to h refl refl refl refl))
        | inr (inl (b, bs, r)) ↦ rw (handle, e, q, r) v
        | inr (inr (er, r)) ↦ rw (handle, e, q, r) tt
      ]
    ]
  ]

  handle_all-Safe :
      (t : Turn) (rs ws : ℕ → Bool) (n i : ℕ) (s : Web)
      → i + n ≤ nfiles
      → Inv nfiles maxnconn s
      → Safe (Inv nfiles maxnconn) (handle_all nfiles maxnconn t rs ws n i s)
  unfolding Safe handle_all
  handle_all-Safe t rs ws zero i s h v = v
  handle_all-Safe t rs ws (suc n) i s h v =
      Safe-then _ _ (handle nfiles maxnconn t rs ws i s) _ (handle-Safe t rs ws i s (omega arith) v)
        (λ s' v'. handle_all-Safe t rs ws n (i + 1) s' (omega arith) v')

  after_start-Safe :
      (t : Turn) (s : Web)
      → Inv nfiles maxnconn s
      → Safe (Inv nfiles maxnconn) (after_start nfiles maxnconn t s)
  unfolding Safe after_start
  after_start-Safe t s v = elim (Option-cases t.selected) [
    | inl e ↦ rw (after_start, e) tt
    | inr ((r, w), e) ↦ rw (after_start, e) (handle_all-Safe t _ _ nfiles 0 s (omega arith) v)
  ]

  count_within : (p : File → Bool) (n : ℕ) (file : ℕ → File) → count p n file ≤ n
  unfolding count
  count_within p zero file = omega arith
  count_within p (suc n) file = ground (arith, count_within p n file)

  rounds-Safe :
      (ts : List Turn) (s : Web)
      → Inv nfiles maxnconn s
      → Safe (Inv nfiles maxnconn) (rounds nfiles maxnconn ts s)
  unfolding Safe rounds round
  rounds-Safe [] s v = v
  rounds-Safe (t ∷ ts) s v = elim (Bool-cases (is_positive s.nlefttoread)) [
    | inr e ↦ rw (rounds, e) v
    | inl e ↦
        rw (rounds, e)
          (Safe-then (Inv nfiles maxnconn) _ (round nfiles maxnconn t s) _
            (Safe-then (Inv nfiles maxnconn) _ (start_some nfiles maxnconn (nfiles + 1) t s) _
              (start_some-Safe nfiles maxnconn (nfiles + 1) t s v
                (omega (arith, count_within is_unused nfiles s.file)))
              (λ s' v'. after_start-Safe t s' v'))
            (λ s' v'. rounds-Safe ts s' v'))
  ]

  start-Inv : (file : ℕ → File) → Inv nfiles maxnconn (start nfiles maxnconn file)
  unfolding start
  start-Inv file =
      let all : ℕ → File = λ i. record (file i) { flags = unused } in
      record {
        to_connect = ap pos (sym (count_all is_unused nfiles all (λ i. refl)));
        to_read = ap pos (sym (count_all is_open nfiles all (λ i. refl)));
        busy = ap pos (sym (count_absent is_active nfiles all (λ i q. refl)));
        few = omega (arith, count_absent is_active nfiles all (λ i q. refl));
      }

  -- For any number of files and any limit, any rounds of the main loop of web.c either end with a
  -- failed call or leave the counters right: nlefttoconn is the number of files not yet started,
  -- nlefttoread of those not finished, and nconn of those with a connection, which are at most
  -- maxnconn. The exit for a missing file is never reached, and the inner loop ends.
  pub web_counts :
      (file : ℕ → File) (ts : List Turn)
      → (rounds nfiles maxnconn ts (start nfiles maxnconn file) ≡ exits)
        ⊎ ((s : Web) × (rounds nfiles maxnconn ts (start nfiles maxnconn file) ≡ going s)
            × (s.nlefttoconn ≡ pos (count is_unused nfiles s.file))
            × (s.nlefttoread ≡ pos (count is_open nfiles s.file))
            × (s.nconn ≡ pos (count is_active nfiles s.file))
            × (count is_active nfiles s.file ≤ maxnconn))
  web_counts file ts =
      let m = rounds nfiles maxnconn ts (start nfiles maxnconn file) in
      elim (Safe-cases (Inv nfiles maxnconn) m
        (rounds-Safe ts (start nfiles maxnconn file) (start-Inv file))) [
          | inl e ↦ inl e
          | inr (s, e, v) ↦ inr (s, e, v.to_connect, v.to_read, v.busy, v.few)
        ]
