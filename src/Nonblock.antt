-- ===== src/Nonblock.antt =====
-- unpv13e/nonblock/strclinonb.c: `str_cli` over non-blocking descriptors, which copies the standard input
-- to the socket and the socket to the standard output, through two buffers.
pub mod Buffers
pub mod Copies
mod Tests
use network.Prelude.{
  ℕ, zero, suc, ◌+◌, ◌-◌, Bool, true, false, not, ◌&&◌, ◌||◌, List, [], ◌∷◌, ◌++◌,
}
use network.Prelude.Tests.{ltb, ◌==◌, if◌then◌else◌}
use network.Prelude.Lists.{length, take, drop}
use network.Posix.{Answer, got, failed, Sent, sent, refused, eagain}

-- `MAXLINE`, the size of a buffer.
abbrev pub maxline : ℕ
maxline = 4096

-- A buffer with its pointers: `text` is what stands in front of the input pointer (`toiptr`, `friptr`),
-- and `optr` the offset of the output pointer (`tooptr`, `froptr`).
pub record Buffer : Type 0 where
  pub text : List ℕ
  pub optr : ℕ

-- Both pointers at the beginning.
pub reset : Buffer
reset = record { text = []; optr = 0 }

-- Whether the pointers are equal.
pub is_empty : Buffer → Bool
is_empty b = b.optr == length b.text

-- The room behind the input pointer.
pub room : Buffer → ℕ
room b = maxline - length b.text

-- The bytes between the pointers.
pub rest : Buffer → List ℕ
rest b = drop b.optr b.text

-- The bytes that were read stand at the input pointer, which moves behind them.
pub fill : List ℕ → Buffer → Buffer
fill bs b = record b { text = b.text ++ bs }

-- The output pointer moves by what was written, and both go back where it meets the input pointer.
pub advance : ℕ → Buffer → Buffer
advance n b = if b.optr + n == length b.text then reset else record b { optr = b.optr + n }

-- The variables of `str_cli`, how often it has called `Shutdown`, and what the four descriptors have
-- seen: what was read from the standard input and written to the socket, and the way back.
pub record Client : Type 0 where
  pub stdineof : Bool
  pub to : Buffer
  pub fr : Buffer
  pub shutdowns : ℕ
  pub typed : List ℕ
  pub sent_on : List ℕ
  pub received : List ℕ
  pub shown : List ℕ

pub start : Client
start = record {
  stdineof = false;
  to = reset;
  fr = reset;
  shutdowns = 0;
  typed = [];
  sent_on = [];
  received = [];
  shown = [];
}

-- What the system answers in one round: the descriptors that `select` would report if asked, and each
-- call, by the number of bytes it is asked for.
pub record Turn : Type 0 where
  pub stdin_ready : Bool
  pub socket_ready : Bool
  pub stdout_free : Bool
  pub socket_free : Bool
  pub input : ℕ → Answer
  pub reply : ℕ → Answer
  pub shows : ℕ → Sent
  pub sends : ℕ → Sent

-- How a part of a round ends: it goes on, `str_cli` returns, or the program exits with an error.
pub data Flow (A : Type 0) : Type 0 where
  goes_on : A → Flow A
  returns : Client → Flow A
  exits : Flow A

infixl 5 ◌>>=◌
abbrev pub ◌>>=◌ : {A B : Type 0} → Flow A → (A → Flow B) → Flow B
goes_on a >>= f = f a
returns s >>= f = returns s
exits >>= f = exits

-- `read` of the standard input, if `select` reports it; with the bit of the socket in `wset`.
pub read_stdin : Bool → Answer → Bool → Client → Flow (Client × Bool)
read_stdin false answer wset s = goes_on (s, wset)
read_stdin true (failed e) wset s = if e == eagain then goes_on (s, wset) else exits
read_stdin true (got []) wset s = goes_on (
  record s { stdineof = true; shutdowns = if is_empty s.to then suc s.shutdowns else s.shutdowns },
  wset,
)
read_stdin true (got (b ∷ bs)) wset s =
    goes_on (record s { to = fill (b ∷ bs) s.to; typed = s.typed ++ (b ∷ bs) }, true)

-- `read` of the socket, if `select` reports it; with the bit of the standard output in `wset`.
pub read_socket : Bool → Answer → Bool → Client → Flow (Client × Bool)
read_socket false answer wset s = goes_on (s, wset)
read_socket true (failed e) wset s = if e == eagain then goes_on (s, wset) else exits
read_socket true (got []) wset s = if s.stdineof then returns s else exits
read_socket true (got (b ∷ bs)) wset s =
    goes_on (record s { fr = fill (b ∷ bs) s.fr; received = s.received ++ (b ∷ bs) }, true)

-- `write` of what is between the pointers of `fr`, if its bit is set and there is something.
pub write_stdout : Bool → Sent → Client → Flow Client
write_stdout false answer s = goes_on s
write_stdout true (refused e) s = if e == eagain then goes_on s else exits
write_stdout true (sent n) s =
    goes_on (record s { fr = advance n s.fr; shown = s.shown ++ take n (rest s.fr) })

-- `Shutdown` where the last byte of the input went out.
pub half_close : Client → Client
half_close s = record s {
  shutdowns = if s.stdineof && is_empty s.to then suc s.shutdowns else s.shutdowns;
}

-- `write` of what is between the pointers of `to`, if its bit is set and there is something.
pub write_socket : Bool → Sent → Client → Flow Client
write_socket false answer s = goes_on s
write_socket true (refused e) s = if e == eagain then goes_on s else exits
write_socket true (sent n) s =
    goes_on
      (half_close (record s { to = advance n s.to; sent_on = s.sent_on ++ take n (rest s.to) }))

-- One round of the loop. `select` reports a descriptor only if its bit was set in front of it.
pub round : Turn → Client → Flow Client
round t s =
    let stdin_set = not s.stdineof && ltb (length s.to.text) maxline in
    let socket_set = ltb (length s.fr.text) maxline in
    let wsock = t.socket_free && not (is_empty s.to) in
    let wout = t.stdout_free && not (is_empty s.fr) in
    read_stdin (t.stdin_ready && stdin_set) (t.input (room s.to)) wsock s >>= λ a.
    read_socket (t.socket_ready && socket_set) (t.reply (room a.0.fr)) wout a.0 >>= λ b.
    write_stdout (b.1 && not (is_empty b.0.fr)) (t.shows (length (rest b.0.fr))) b.0 >>= λ c.
    write_socket (a.1 && not (is_empty c.to)) (t.sends (length (rest c.to))) c
