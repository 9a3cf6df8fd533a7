-- ===== src/Web.antt =====
-- unpv13e/nonblock/web.c, start_connect.c and write_get_cmd.c: several files at once from a web server, over
-- non-blocking connects, with at most `maxnconn` connections at a time.
pub mod Tally
pub mod Starts
pub mod Counts
mod Tests
use network.Prelude.{
  ℕ, zero, suc, ◌+◌, Bool, true, false, ◌&&◌, ◌||◌, Option, none, some, List, [], ◌∷◌,
}
use network.Ending.{End, going, exits, nothing_found, unfinished, ◌>>=◌}
use network.Prelude.Int.{decreased, increased, is_positive, ℤ, pos, negsuc}
use network.Prelude.Maps.{update}
use network.Prelude.Counts.{search}
use network.Prelude.Tests.{ltb, if◌then◌else◌}
use network.Posix.{Answer, got, failed}

-- The values of `f_flags`: 0, F_CONNECTING, F_READING, F_DONE.
pub data Flags : Type 0 where
  unused connecting reading finished : Flags

-- `struct file`, without the names.
pub record File : Type 0 where
  pub fd : ℕ
  pub flags : Flags

-- What `connect` answers: an error, EINPROGRESS, or success.
pub data Connect : Type 0 where
  refused in_progress at_once : Connect

-- What the calls of one round of the main loop answer, for each file: `Socket` and `Read` exit with a
-- failure, and so does `Writen` where `written` is false. `selected` tells which descriptors are ready
-- for reading and for writing.
pub record Turn : Type 0 where
  pub socket : ℕ → Option ℕ
  pub connect : ℕ → Connect
  pub written : ℕ → Bool
  pub selected : Option ((ℕ → Bool) × (ℕ → Bool))
  pub reads : ℕ → Answer

-- The globals; `fds` is `maxfd+1`.
pub record Web : Type 0 where
  pub file : ℕ → File
  pub nconn : ℤ
  pub nlefttoconn : ℤ
  pub nlefttoread : ℤ
  pub fds : ℕ
  pub rset : ℕ → Bool
  pub wset : ℕ → Bool

abbrev pub is_below : ℤ → ℕ → Bool
is_below (pos n) m = ltb n m
is_below (negsuc n) m = true

abbrev pub is_unused : File → Bool
is_unused f = elim f.flags [
  | unused ↦ true
  | connecting ↦ false
  | reading ↦ false
  | finished ↦ false
]

-- `write_get_cmd(&file[i])`
pub write_get_cmd : Turn → ℕ → Web → End Web
write_get_cmd t i s =
    let f = s.file i in
    if t.written i
    then going (record s {
      file = update s.file i (record f { flags = reading });
      rset = update s.rset f.fd true;
      fds = if ltb s.fds (f.fd + 1) then f.fd + 1 else s.fds;
    })
    else exits

-- `start_connect(&file[i])`
pub start_connect : Turn → ℕ → Web → End Web
start_connect t i s = elim (t.socket i) [
  | none ↦ exits
  | some fd ↦
      let opened = record s { file = update s.file i (record (s.file i) { fd = fd }) } in
      elim (t.connect i) [
        | refused ↦ exits
        | in_progress ↦ going (record opened {
          file = update opened.file i (record (opened.file i) { flags = connecting });
          rset = update s.rset fd true;
          wset = update s.wset fd true;
          fds = if ltb s.fds (fd + 1) then fd + 1 else s.fds;
        })
        | at_once ↦ write_get_cmd t i opened
      ]
]

-- `for (i = 0 ; i < nfiles; i++) if (file[i].f_flags == 0) break;` from `i` on, n rounds.
pub find_unused : ℕ → (ℕ → File) → ℕ → Option ℕ
unfolding search
find_unused n file i = search is_unused n file i

module _ (nfiles maxnconn : ℕ) where
  -- The body of the inner loop.
  pub start_one : Turn → Web → End Web
  start_one t s = elim (find_unused nfiles s.file 0) [
    | none ↦ nothing_found
    | some i ↦ start_connect t i s >>= λ s'.
        going (record s' { nconn = increased s'.nconn; nlefttoconn = decreased s'.nlefttoconn })
  ]

  -- `while (nconn < maxnconn && nlefttoconn > 0)`; a negative `maxnconn` does what 0 does.
  pub start_some : ℕ → Turn → Web → End Web
  start_some zero t s = unfinished
  start_some (suc fuel) t s = elim (is_below s.nconn maxnconn && is_positive s.nlefttoconn) [
    | false ↦ going s
    | true ↦ start_one t s >>= λ s'. start_some fuel t s'
  ]

  -- What is done for the file `i` behind `Select`. A failed connect (SO_ERROR) is only reported.
  pub handle : Turn → (ℕ → Bool) → (ℕ → Bool) → ℕ → Web → End Web
  handle t rs ws i s =
      let f = s.file i in
      elim f.flags [
        | unused ↦ going s
        | finished ↦ going s
        | connecting ↦
            if rs f.fd || ws f.fd
            then write_get_cmd t i (record s { wset = update s.wset f.fd false })
            else going s
        | reading ↦
            let read : End Web = elim (t.reads i) [
              | failed e ↦ exits
              | got [] ↦ going (record s {
                file = update s.file i (record f { flags = finished });
                rset = update s.rset f.fd false;
                nconn = decreased s.nconn;
                nlefttoread = decreased s.nlefttoread;
              })
              | got (b ∷ bs) ↦ going s
            ] in
            if rs f.fd then read else going s
      ]

  -- `for (i = 0; i < nfiles; i++)` from `i` on, n rounds.
  pub handle_all : Turn → (ℕ → Bool) → (ℕ → Bool) → ℕ → ℕ → Web → End Web
  handle_all t rs ws zero i s = going s
  handle_all t rs ws (suc n) i s = handle t rs ws i s >>= λ s'. handle_all t rs ws n (i + 1) s'

  -- `Select`, and the files behind it.
  pub after_start : Turn → Web → End Web
  after_start t s = elim t.selected [
    | none ↦ exits
    | some (r, w) ↦
        handle_all t (λ f. r f && s.rset f && ltb f s.fds) (λ f. w f && s.wset f && ltb f s.fds)
          nfiles 0 s
  ]

  -- The body of the main loop.
  pub round : Turn → Web → End Web
  round t s = start_some (nfiles + 1) t s >>= λ s'. after_start t s'

  -- `while (nlefttoread > 0)`, for the rounds of which the list has the answers.
  pub rounds : List Turn → Web → End Web
  rounds [] s = going s
  rounds (t ∷ ts) s = elim (is_positive s.nlefttoread) [
    | false ↦ going s
    | true ↦ round t s >>= λ s'. rounds ts s'
  ]

  -- In front of the main loop; `maxfd` is -1.
  pub start : (ℕ → File) → Web
  start file = record {
    file = λ i. record (file i) { flags = unused };
    nconn = pos 0;
    nlefttoconn = pos nfiles;
    nlefttoread = pos nfiles;
    fds = 0;
    rset = λ f. false;
    wset = λ f. false;
  }
