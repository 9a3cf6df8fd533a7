-- ===== src/Sigio/Spec.antt =====
-- What the server promises, and its steps.
use network.Prelude.{ℕ, ◌<◌, ◌≡◌, true, List, [], ◌∷◌, ◌++◌}
use network.Prelude.Lists.{length}
use network.Ending.{going}
use network.Sigio.{qsize, Datagram, Slot, Server, start, sig_io, is_interruptible, advance}
use network.Sigio.Queue.{waiting, Inv}

-- A queue with room for eight.
pub record Echo : Type 0 where
  pub queue : List Datagram
  pub echoed : List Datagram

pub data Move (a : Echo) : Echo → Type 0 where
  arrives :
      (d : Datagram) → length a.queue < qsize → Move a (record a { queue = a.queue ++ (d ∷ []) })
  echoes :
      (d : Datagram) (rest : List Datagram)
      → a.queue ≡ d ∷ rest
      → Move a (record { queue = rest; echoed = a.echoed ++ (d ∷ []) })

pub data Moves (a : Echo) : Echo → Type 0 where
  none : Moves a a
  then_move : {b c : Echo} → Moves a b → Move b c → Moves a c

-- The statements of the main loop, and the handler where it can run.
pub data Step (s : Server) : Server → Type 0 where
  main_goes_on : Step s (advance s)
  signal_comes :
      {s' : Server} (errno : ℕ) (ds : List Datagram)
      → is_interruptible s ≡ true
      → sig_io errno 0 ds s ≡ going s'
      → Step s s'

pub data Reach (dg : ℕ → Slot) : Server → Type 0 where
  here : Reach dg (start dg)
  next : {s s' : Server} → Reach dg s → Step s s' → Reach dg s'

-- What a state of the server stands for.
unfoldable pub view : Server → Echo
view s = record { queue = waiting s; echoed = s.echoed }

unfoldable pub Goes : Server → Server → Type 0
Goes s s' = Inv s' × Moves (view s) (view s') × (s'.arrived ≡ s'.echoed ++ waiting s')
