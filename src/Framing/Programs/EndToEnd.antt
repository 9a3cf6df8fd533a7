-- ===== src/Framing/Programs/EndToEnd.antt =====
-- client.c and serve.c together: several clients, each with a file that goes in at its end and is printed
-- by the server.
use network.Prelude.{
  ℕ, zero, suc, ◌+◌, ◌<◌, ◌≡◌, ◌≢◌, refl, ◌∙◌, ◌⊎◌, inl, inr, ap, Bool, true, false, List, [], ◌∷◌,
  ◌++◌, map, arith,
}
use network.Prelude.Tests.{◌==◌, if◌then◌else◌, Bool-cases}
use network.Prelude.Lists.{length, All}
use network.Prelude.Int.{pos}
use network.Posix.{got, Socket, IsSink, IsSource, NoFailure}
use network.Run.{done}
use network.Framing.Programs.{
  Served, Server, printed, removed, client_loop, serve_rounds, serve_entries,
}
use network.Framing.Programs.Clients.{times, results_of, stays, ready, clients_apart}
use network.Framing.Programs.Transfer.{frames, IsPrintable, client_loop-frames, serve_rounds-frames}

-- A piece that the client sends whole: there is memory for its frame.
abbrev pub IsSendable : (ℕ → Bool) → List ℕ → Type 0
IsSendable malloc p = (0 < length p) × (length p < 1000) × (malloc (length p + 4) ≡ true)

-- What comes of a client that is ready n times.
abbrev pub printed_of : ℕ → List (List ℕ) → List Served
printed_of n pieces = if n == 0 then [] else map printed pieces ++ (removed ∷ [])

stays_printed :
    (pieces : List (List ℕ)) (b : Bool) → stays (map printed pieces ++ (removed ∷ [])) b ≡ false
unfolding stays
stays_printed [] b = refl
stays_printed (p ∷ ps) b = stays_printed ps b

leaves :
    (n : ℕ) (pieces : List (List ℕ)) (b : Bool)
    → stays (printed_of n pieces) b ≡ (if n == 0 then b else false)
unfolding stays
leaves n pieces b = elim (Bool-cases (n == 0)) [
  | inl e ↦ rw e refl
  | inr e ↦ rw e (stays_printed pieces b)
]

module _ (here there : Socket) (malloc malloc' : ℕ → Bool) (wire : Socket.World here → List ℕ)
    (pending : Socket.World there → List ℕ) (carry : Socket.World here → Socket.World there)
    (sink : IsSink here wire) (nf : NoFailure here) (src : IsSource there pending)
    (nf' : NoFailure there) (carries : (w : Socket.World here) → pending (carry w) ≡ wire w)
    (m1 : malloc' 1 ≡ true) where
  rounds_alone :
      (n : ℕ) (pieces : List (List ℕ)) (w : Socket.World there)
      → (n ≡ 0) ⊎ (n ≡ suc (length pieces))
      → All (IsPrintable malloc') pieces
      → pending w ≡ frames pieces
      → (w' : Socket.World there) × (serve_rounds there malloc' n w
          ≡ done (printed_of n pieces, w'))
  unfolding serve_rounds
  rounds_alone zero pieces w h ok arrived = (w, refl)
  rounds_alone (suc n) pieces w (inl e) ok arrived = absurd (omega (arith, e))
  rounds_alone (suc n) pieces w (inr e) ok arrived =
      let (w', run) = serve_rounds-frames there malloc' pending src nf' m1 pieces w ok arrived in
      let some_rounds : (suc n == 0) ≡ false = ground arith in
      (w', ap (λ m. serve_rounds there malloc' m w) e ∙ run ∙ rw some_rounds refl)

  -- Let any number of clients each run the loop of client.c on a working connection of its own,
  -- which carries to serve.c what is put on the wire, with a file that read hands over in pieces
  -- of 1 to 999 bytes without a zero byte, with memory for each piece at both ends and more than
  -- 1004 rounds for each writen, and let serve.c find each of them ready once for each piece and
  -- once more, or never, in any order among the others: the clients and the server come through,
  -- and the server prints of each client it found ready the pieces of its file, in order, and then
  -- takes it off the epoll set, on which the clients it never found ready stay as they were,
  -- however send and recv cut the streams.
  pub files_arrive :
      (fuel listenfd : ℕ) (fds : List ℕ) (files : ℕ → List (List ℕ)) (temp : List ℕ)
      (w : ℕ → Socket.World here) (s : Server there malloc')
      → 1004 < fuel
      → ((f : ℕ) → All (IsSendable malloc) (files f))
      → ((f : ℕ) → All (IsPrintable malloc') (files f))
      → ((f : ℕ) → wire (w f) ≡ [])
      → All (λ f. f ≢ listenfd) fds
      → ((f : ℕ) → (times f fds ≡ 0) ⊎ (times f fds ≡ suc (length (files f))))
      → (w1 : ℕ → Socket.World here) × ((f : ℕ)
          → client_loop here malloc fuel (pos f) (map got (files f) ++ (got [] ∷ [])) temp (w f)
            ≡ done (w1 f))
        × ((s' : Server there malloc') × (serve_entries there malloc' listenfd
                (map (ready there malloc') fds)
                (record s { worlds = λ f. carry (w1 f) })
              ≡ done s')
            × ((f : ℕ)
                → (results_of f s'.out ≡ results_of f s.out ++ printed_of (times f fds) (files f))
                  × (s'.watch f ≡ (if times f fds == 0 then s.watch f else false))))
  files_arrive fuel listenfd fds files temp w s enough sendable printable fresh apart rounds =
      let sent = λ (f : ℕ).
        client_loop-frames here malloc wire sink nf fuel f (files f) [] temp (w f) enough
          (sendable f) in
      let w1 = λ (f : ℕ). (sent f).0 in
      let alone = λ (f : ℕ).
        rounds_alone (times f fds) (files f) (carry (w1 f)) (rounds f) (printable f)
          (carries (w1 f) ∙ (sent f).2 ∙ ap (λ l. l ++ frames (files f)) (fresh f)) in
      let (s', run, each) =
        clients_apart there malloc' listenfd fds (record s { worlds = λ f. carry (w1 f) })
          (λ f. printed_of (times f fds) (files f)) (λ f. (alone f).0) apart (λ f. (alone f).1) in
      (
        w1,
        (λ f. (sent f).1),
        (s', run, λ f. ((each f).1, (each f).2 ∙ leaves (times f fds) (files f) (s.watch f))),
      )
