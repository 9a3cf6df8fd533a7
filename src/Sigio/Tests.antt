-- ===== src/Sigio/Tests.antt =====
-- Three datagrams through the queue, with the handler between the statements of the main loop.
use network.Prelude.{ℕ, ◌≡◌, refl, true, List, [], ◌∷◌, ◌++◌}
use network.Prelude.Maps.{update}
use network.Posix.{eagain}
use network.Ending.{End, going, exits}
use network.Sigio.{
  following, Datagram, Slot, Server, start, cut, outgoing, receive, store, sig_io, advance,
  is_interruptible,
}
use network.Sigio.Spec.{Moves, view, here, next, main_goes_on, signal_comes}
use network.Sigio.Refines.{dgecho_refines}

abbrev hi : Datagram
hi = record { text = 104 ∷ 105 ∷ []; peer = 1; peerlen = 16 }

abbrev ho : Datagram
ho = record { text = 104 ∷ 111 ∷ []; peer = 2; peerlen = 16 }

abbrev fresh : ℕ → Slot
fresh i = record { dg_data = []; dg_len = 0; dg_sa = 0; dg_salen = 16 }

abbrev after_hi : Server
after_hi = record (start fresh) {
  dg = update fresh 0 (receive hi (fresh 0));
  iput = 1;
  nqueue = 1;
  cntread = update (λ i. 0) 1 1;
  arrived = cut hi ∷ [];
}

first_signal : sig_io eagain 0 (hi ∷ []) (start fresh) ≡ going after_hi
unfolding sig_io start store following
first_signal = refl

-- The second datagram comes between `Sendto` and `++iget`.
echoed_of : End Server → List Datagram
echoed_of (going s) = s.echoed
echoed_of exits = []
echoed_of End.nothing_found = []
echoed_of End.unfinished = []

between : echoed_of (sig_io eagain 0 (ho ∷ []) (advance (advance after_hi))) ≡ hi ∷ []
unfolding echoed_of sig_io store following advance outgoing receive cut start update
between = refl

asleep : is_interruptible (start fresh) ≡ true
unfolding is_interruptible start
asleep = refl

dgecho_refines_example :
    Moves (view after_hi) (view (advance after_hi))
    × ((advance after_hi).arrived ≡ (advance after_hi).echoed ++ (view (advance after_hi)).queue)
dgecho_refines_example =
    dgecho_refines fresh after_hi (advance after_hi)
      (next here (signal_comes eagain (hi ∷ []) asleep first_signal)) main_goes_on
