-- ===== src/Sigio/Overflow.antt =====
-- The test for a full queue stands in front of `recvfrom`.
use network.Prelude.{ℕ, ◌+◌, ◌≤◌, ◌≡◌, inl, inr, List, [], ◌∷◌, arith}
use network.Prelude.Lists.{length}
use network.Prelude.Tests.{leb, le→leb, Bool-cases}
use network.Ending.{exits}
use network.Sigio.{qsize, Datagram, Server, store, sig_io}

-- Where nqueue and the datagrams that the handler of dgecho01.c finds are together eight or more,
-- the server exits, whatever recvfrom would say behind them.
sig_io_overflows :
    (errno nread : ℕ) (ds : List Datagram) (s : Server)
    → qsize ≤ s.nqueue + length ds
    → sig_io errno nread ds s ≡ exits
unfolding sig_io store
sig_io_overflows errno nread [] s h = rw (le→leb qsize s.nqueue (omega arith))
sig_io_overflows errno nread (d ∷ ds) s h = elim (Bool-cases (leb qsize s.nqueue)) [
  | inl full ↦ rw full
  | inr free ↦ rw free (sig_io_overflows errno (nread + 1) ds (store d s) (omega arith))
]
