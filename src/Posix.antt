-- ===== src/Posix.antt =====
-- What the programs see of the system: the answers of `send`, `recv`, `read` and `write` on one
-- connected stream socket. The kernel is not part of the repository, so a socket is a parameter
-- (`Socket`), and what POSIX documents of a working connection is the hypotheses `IsSink`, `IsSource`,
-- `NoFailure` and `OnlySignals`.
pub mod Pipe
use network.Prelude.Tests.{leb, if◌then◌else◌}
use network.Prelude.{
  ◌⊎◌, inl, inr, refl, ◌∷◌, Bool, ◌-◌, ◌&&◌, ℕ, ◌≤◌, ◌<◌, ◌≡◌, ◌≢◌, List, [], ◌++◌,
}
use network.Prelude.Lists.{length, take}

-- The values of `errno` that the programs test (Linux).
abbrev pub eintr : ℕ
eintr = 4

abbrev pub eagain : ℕ
eagain = 11

abbrev pub econnreset : ℕ
econnreset = 104

-- `recv` or `read`: the bytes that came (none at the end of the stream), or -1 with an errno.
pub data Answer : Type 0 where
  got : List ℕ → Answer
  failed : ℕ → Answer

-- Nothing more to read, some bytes, or a failure.
pub Answer-cases :
    (a : Answer)
    → (a ≡ got []) ⊎ ((b : ℕ) × (bs : List ℕ) × (a ≡ got (b ∷ bs))) ⊎ ((e : ℕ) × (a ≡ failed e))
Answer-cases (got []) = inl refl
Answer-cases (got (b ∷ bs)) = inr (inl (b, bs, refl))
Answer-cases (failed e) = inr (inr (e, refl))

-- `send` or `write`: how many bytes were taken, or -1 with an errno.
pub data Sent : Type 0 where
  sent : ℕ → Sent
  refused : ℕ → Sent

-- The calls on one connected descriptor, over an abstract state of the system.
pub record Socket : Type 1 where
  pub World : Type 0
  pub send : List ℕ → World → Sent × World
  pub recv : ℕ → World → Answer × World
  pub close : World → World

-- A `send` of a non-empty buffer takes a non-empty piece of its front, or fails and takes nothing;
-- `wire` is all that was taken so far.
pub record IsSink (k : Socket) (wire : Socket.World k → List ℕ) : Type 0 where
  pub takes :
      (buf : List ℕ) (w : Socket.World k) (n : ℕ)
      → (Socket.send k buf w).0 ≡ sent n
      → (n ≤ length buf)
        × (buf ≢ [] → 0 < n)
        × (wire (Socket.send k buf w).1 ≡ wire w ++ take n buf)
  pub loses :
      (buf : List ℕ) (w : Socket.World k) (e : ℕ)
      → (Socket.send k buf w).0 ≡ refused e
      → wire (Socket.send k buf w).1 ≡ wire w

-- A `recv` with room for n bytes hands over at most n of the bytes that are still to come, and
-- none only when there are none; `pending` is all that the peer sends before it closes.
pub record IsSource (k : Socket) (pending : Socket.World k → List ℕ) : Type 0 where
  pub delivers :
      (n : ℕ) (w : Socket.World k) (bs : List ℕ)
      → 0 < n
      → (Socket.recv k n w).0 ≡ got bs
      → (length bs ≤ n)
        × (pending w ≡ bs ++ pending (Socket.recv k n w).1)
        × (bs ≡ [] → pending w ≡ [])
  pub keeps :
      (n : ℕ) (w : Socket.World k) (e : ℕ)
      → (Socket.recv k n w).0 ≡ failed e
      → pending (Socket.recv k n w).1 ≡ pending w

-- No call on the connection fails.
pub record NoFailure (k : Socket) : Type 0 where
  pub sends : (buf : List ℕ) (w : Socket.World k) (e : ℕ) → (Socket.send k buf w).0 ≢ refused e
  pub receives : (n : ℕ) (w : Socket.World k) (e : ℕ) → (Socket.recv k n w).0 ≢ failed e

-- The only failures are interruptions by a signal, and of those there are `signals w` more at most.
pub record OnlySignals (k : Socket) (signals : Socket.World k → ℕ) : Type 0 where
  pub send_signal :
      (buf : List ℕ) (w : Socket.World k) (e : ℕ)
      → (Socket.send k buf w).0 ≡ refused e
      → (e ≡ eintr) × (signals (Socket.send k buf w).1 < signals w)
  pub send_other : (buf : List ℕ) (w : Socket.World k) → signals (Socket.send k buf w).1 ≤ signals w
  pub recv_signal :
      (n : ℕ) (w : Socket.World k) (e : ℕ)
      → (Socket.recv k n w).0 ≡ failed e
      → (e ≡ eintr) × (signals (Socket.recv k n w).1 < signals w)
  pub recv_other : (n : ℕ) (w : Socket.World k) → signals (Socket.recv k n w).1 ≤ signals w

-- On a non-blocking descriptor `recv` fails only where nothing is there.
pub record FailsEmpty (k : Socket) (pending : Socket.World k → List ℕ) : Type 0 where
  pub empty :
      (n : ℕ) (w : Socket.World k) (e : ℕ) → (Socket.recv k n w).0 ≡ failed e → pending w ≡ []

-- A blocking `send` that takes the whole buffer.
pub record TakesAll (k : Socket) (wire : Socket.World k → List ℕ) : Type 0 where
  pub whole :
      (buf : List ℕ) (w : Socket.World k)
      → ((Socket.send k buf w).0 ≡ sent (length buf))
        × (wire (Socket.send k buf w).1 ≡ wire w ++ buf)

-- The two directions of the connection do not touch each other, and `close` touches neither.
pub record IsDuplex (k : Socket) (wire pending : Socket.World k → List ℕ) : Type 0 where
  pub send_keeps : (buf : List ℕ) (w : Socket.World k) → pending (Socket.send k buf w).1 ≡ pending w
  pub recv_keeps : (n : ℕ) (w : Socket.World k) → wire (Socket.recv k n w).1 ≡ wire w
  pub close_keeps :
      (w : Socket.World k)
      → (pending (Socket.close k w) ≡ pending w) × (wire (Socket.close k w) ≡ wire w)

-- `write(fd, buf, n)` with the n bytes.
pub data Io : Type 0 where
  wrote : ℕ → List ℕ → Io

-- `toupper` in the C locale, on a byte.
unfoldable pub toupper : ℕ → ℕ
toupper c = if leb 97 c && leb c 122 then c - 32 else c
