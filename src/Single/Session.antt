-- ===== src/Single/Session.antt =====
-- scoket编程/client.c and server1.c on one connection, with the bytes that are under way in both
-- directions. A `write` hands its bytes over in pieces, while the other side may read; it may return
-- before all of them are handed over, and the programs drop the rest. A `read` takes a front of what is
-- there, however it cuts; one that fails or meets the end takes nothing.
pub mod Rounds
use network.Prelude.{ℕ, ◌+◌, ◌≡◌, sym, List, [], ◌∷◌, ◌++◌, map}
use network.Posix.{toupper}

-- Where the client stands in its loop: in `write`, with the bytes not yet handed over, or in `read`.
pub data Client : Type 0 where
  writing : List ℕ → Client
  reading : Client

-- The server: in `read`, in the `write` to standard output with what it has read, or in the `write`
-- back to the client, with the bytes not yet handed over.
pub data Server : Type 0 where
  taking : Server
  noting returning : List ℕ → Server

-- `up` and `down` are under way to the server and to the client; `said` is all that the client has
-- handed over, `shown` what it has put on its standard output, `noted` what the server has put on its own.
pub record Session : Type 0 where
  pub client : Client
  pub server : Server
  pub up : List ℕ
  pub down : List ℕ
  pub said : List ℕ
  pub shown : List ℕ
  pub noted : List ℕ

abbrev pub hello : List ℕ
hello = 104 ∷ 101 ∷ 108 ∷ 108 ∷ 111 ∷ []

abbrev pub fresh : Session
fresh = record {
  client = writing hello;
  server = taking;
  up = [];
  down = [];
  said = [];
  shown = [];
  noted = [];
}

pub data Step (s : Session) : Session → Type 0 where
  client_hands :
      (bs rest : List ℕ)
      → s.client ≡ writing (bs ++ rest)
      → Step s (record s { client = writing rest; up = s.up ++ bs; said = s.said ++ bs })
  client_written :
      (rest : List ℕ) → s.client ≡ writing rest → Step s (record s { client = reading })
  client_reads :
      (bs rest : List ℕ)
      → s.client ≡ reading
      → s.down ≡ bs ++ rest
      → Step s (record s { client = writing hello; down = rest; shown = s.shown ++ bs })
  server_reads :
      (bs rest : List ℕ)
      → s.server ≡ taking
      → s.up ≡ bs ++ rest
      → Step s (record s { server = noting bs; up = rest })
  server_notes :
      (bs rest : List ℕ)
      → s.server ≡ noting (bs ++ rest)
      → Step s (record s { server = returning (map toupper (bs ++ rest)); noted = s.noted ++ bs })
  server_hands :
      (bs rest : List ℕ)
      → s.server ≡ returning (bs ++ rest)
      → Step s (record s { server = returning rest; down = s.down ++ bs })
  server_returned :
      (rest : List ℕ) → s.server ≡ returning rest → Step s (record s { server = taking })

-- No `write` returns in this step before it has handed over all its bytes.
abbrev pub Whole : {s s' : Session} → Step s s' → Type 0
Whole (client_hands bs rest at) = Unit
Whole (client_written rest at) = rest ≡ []
Whole (client_reads bs rest at e) = Unit
Whole (server_reads bs rest at e) = Unit
Whole (server_notes bs rest at) = rest ≡ []
Whole (server_hands bs rest at) = Unit
Whole (server_returned rest at) = rest ≡ []

-- Any number of steps of the two programs in any order, in which every `write` is whole.
pub data Runs (s : Session) : Session → Type 0 where
  here : Runs s s
  next : {s' s'' : Session} → Runs s s' → (step : Step s' s'') → Whole step → Runs s s''

-- What the server has read and not yet handed back, as it will go back.
unfoldable pub to_return : Server → List ℕ
to_return taking = []
to_return (noting bs) = map toupper bs
to_return (returning bs) = bs

-- What it has read and not yet put on its standard output.
unfoldable pub to_note : Server → List ℕ
to_note taking = []
to_note (noting bs) = bs
to_note (returning bs) = []

-- Nothing is lost, doubled or reordered.
record Inv (s : Session) : Type 0 where
  pub back : map toupper s.said ≡ s.shown ++ (s.down ++ (to_return s.server ++ map toupper s.up))
  pub forth : s.said ≡ s.noted ++ (to_note s.server ++ s.up)
