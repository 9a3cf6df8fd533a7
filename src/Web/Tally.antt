-- ===== src/Web/Tally.antt =====
-- The flags of the files, how many there are of each, and what opening a connection changes.
use network.Prelude.{
  ℕ, ◌+◌, ◌≤◌, ◌<◌, ◌≡◌, refl, sym, subst, ◌∙◌, ◌⊎◌, inl, inr, Bool, true, false, ◌&&◌, arith,
}
use network.Prelude.Int.{pos}
use network.Prelude.Maps.{update, update_self}
use network.Prelude.Counts.{Search, search_lem, bit, count, count-update}
use network.Prelude.Tests.{Bool-cases, Option-cases}
use network.Ending.{Safe, Safe-weaken}
use network.Web.{
  Flags, unused, connecting, reading, finished, File, Connect, refused, in_progress, at_once, Turn,
  Web, is_unused, write_get_cmd, start_connect, find_unused,
}

-- A file with a connection, and one that is not finished.
abbrev pub is_active : File → Bool
is_active f = elim f.flags [
  | unused ↦ false
  | connecting ↦ true
  | reading ↦ true
  | finished ↦ false
]

abbrev pub is_open : File → Bool
is_open f = elim f.flags [ unused ↦ true | connecting ↦ true | reading ↦ true | finished ↦ false ]

pub Flags-cases : (x : Flags) → (x ≡ unused) ⊎ (x ≡ connecting) ⊎ (x ≡ reading) ⊎ (x ≡ finished)
Flags-cases unused = inl refl
Flags-cases connecting = inr (inl refl)
Flags-cases reading = inr (inr (inl refl))
Flags-cases finished = inr (inr (inr refl))

pub Connect-cases : (x : Connect) → (x ≡ refused) ⊎ (x ≡ in_progress) ⊎ (x ≡ at_once)
Connect-cases refused = inl refl
Connect-cases in_progress = inr (inl refl)
Connect-cases at_once = inr (inr refl)

pub and_left : (a b : Bool) → (a && b) ≡ true → a ≡ true
and_left true b e = refl
and_left false b e = absurd (cc e)

pub and_right : (a b : Bool) → (a && b) ≡ true → b ≡ true
and_right true b e = e
and_right false b e = absurd (cc e)

pub unused_bits : (f : File) → is_unused f ≡ true → (is_open f ≡ true) × (is_active f ≡ false)
unused_bits f h = elim (Flags-cases f.flags) [
  | inl e ↦ (rw e, rw e)
  | inr (inl e) ↦ absurd (cc (rw e at h))
  | inr (inr (inl e)) ↦ absurd (cc (rw e at h))
  | inr (inr (inr e)) ↦ absurd (cc (rw e at h))
]

-- Where the search comes to.
pub find_unused_lem : (n i : ℕ) (file : ℕ → File) → Search is_unused n file i (find_unused n file i)
unfolding find_unused
find_unused_lem n i file = search_lem is_unused n file i

module _ (nfiles maxnconn : ℕ) where
  -- How many files have not been started, are not finished, and have a connection.
  abbrev pub waiting : (ℕ → File) → ℕ
  waiting file = count is_unused nfiles file

  abbrev pub missing : (ℕ → File) → ℕ
  missing file = count is_open nfiles file

  abbrev pub active : (ℕ → File) → ℕ
  active file = count is_active nfiles file

  pub record Inv (s : Web) : Type 0 where
    pub to_connect : s.nlefttoconn ≡ pos (waiting s.file)
    pub to_read : s.nlefttoread ≡ pos (missing s.file)
    pub busy : s.nconn ≡ pos (active s.file)
    pub few : active s.file ≤ maxnconn

  -- The counters stay, and the files change their numbers as `from` one to `to` the other.
  pub record Moves (from to : File) (s s' : Web) : Type 0 where
    pub conn_same : s'.nconn ≡ s.nconn
    pub toconn_same : s'.nlefttoconn ≡ s.nlefttoconn
    pub toread_same : s'.nlefttoread ≡ s.nlefttoread
    pub waiting_moves : waiting s'.file + bit (is_unused from) ≡ waiting s.file + bit (is_unused to)
    pub missing_moves : missing s'.file + bit (is_open from) ≡ missing s.file + bit (is_open to)
    pub active_moves : active s'.file + bit (is_active from) ≡ active s.file + bit (is_active to)

  -- A file that is being read.
  abbrev pub read_one : File
  read_one = record { fd = 0; flags = reading }

  pub set-Moves :
      (s s' : Web) (i : ℕ) (x : File)
      → i < nfiles
      → s'.file ≡ update s.file i x
      → s'.nconn ≡ s.nconn
      → s'.nlefttoconn ≡ s.nlefttoconn
      → s'.nlefttoread ≡ s.nlefttoread
      → Moves (s.file i) x s s'
  set-Moves s s' i x h file conn toconn toread = record {
    conn_same = conn;
    toconn_same = toconn;
    toread_same = toread;
    waiting_moves = rw file (count-update is_unused nfiles i s.file x h);
    missing_moves = rw file (count-update is_open nfiles i s.file x h);
    active_moves = rw file (count-update is_active nfiles i s.file x h);
  }

  pub Moves-then :
      (a b c : File) (s s1 s2 : Web) → Moves a b s s1 → Moves b c s1 s2 → Moves a c s s2
  Moves-then a b c s s1 s2 m n = record {
    conn_same = n.conn_same ∙ m.conn_same;
    toconn_same = n.toconn_same ∙ m.toconn_same;
    toread_same = n.toread_same ∙ m.toread_same;
    waiting_moves = omega (arith, m.waiting_moves, n.waiting_moves);
    missing_moves = omega (arith, m.missing_moves, n.missing_moves);
    active_moves = omega (arith, m.active_moves, n.active_moves);
  }

  -- A connection is open on the file `i`, which was `from`.
  abbrev pub Runs : File → Web → Web → Type 0
  Runs from s s' =
      (to : File) × Moves from to s s'
      × (is_unused to ≡ false)
      × (is_open to ≡ true)
      × (is_active to ≡ true)

  pub same_files :
      (s s' : Web)
      → Inv s
      → s'.file ≡ s.file
      → s'.nconn ≡ s.nconn
      → s'.nlefttoconn ≡ s.nlefttoconn
      → s'.nlefttoread ≡ s.nlefttoread
      → Inv s'
  same_files s s' v file conn toconn toread = record {
    to_connect = rw (file, toconn) v.to_connect;
    to_read = rw (file, toread) v.to_read;
    busy = rw (file, conn) v.busy;
    few = rw file v.few;
  }

  pub write_get_cmd-Safe :
      (t : Turn) (i : ℕ) (s : Web) → i < nfiles → Safe (Runs (s.file i) s) (write_get_cmd t i s)
  unfolding Safe write_get_cmd
  write_get_cmd-Safe t i s h = elim (Bool-cases (t.written i)) [
    | inr e ↦ rw e tt
    | inl e ↦
        let to = record (s.file i) { flags = reading } in
        rw e (to, set-Moves s _ i to h refl refl refl refl, refl, refl, refl)
  ]

  pub start_connect-Safe :
      (t : Turn) (i : ℕ) (s : Web) → i < nfiles → Safe (Runs (s.file i) s) (start_connect t i s)
  unfolding Safe start_connect
  start_connect-Safe t i s h = elim (Option-cases (t.socket i)) [
    | inl e ↦ rw (start_connect, e) tt
    | inr (fd, e) ↦
        let opened = record s { file = update s.file i (record (s.file i) { fd = fd }) } in
        let kept = record (s.file i) { fd = fd } in
        let first : Moves (s.file i) (opened.file i) s opened =
          subst (λ x. Moves (s.file i) x s opened) (sym (update_self s.file i kept))
            (set-Moves s opened i kept h refl refl refl refl) in
        elim (Connect-cases (t.connect i)) [
          | inl q ↦ rw (start_connect, e, q) tt
          | inr (inl q) ↦
              let to = record (opened.file i) { flags = connecting } in
              rw (start_connect, e, q)
                (
                  to,
                  Moves-then _ _ _ s opened _ first (set-Moves opened _ i to h refl refl refl refl),
                  refl,
                  refl,
                  refl,
                )
          | inr (inr q) ↦
              rw (start_connect, e, q)
                (Safe-weaken _ _ (write_get_cmd t i opened) (write_get_cmd-Safe t i opened h)
                  (λ s' r. (r.0, Moves-then _ _ _ s opened s' first r.1, r.2, r.3, r.4)))
        ]
  ]
