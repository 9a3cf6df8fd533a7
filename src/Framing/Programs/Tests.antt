-- ===== src/Framing/Programs/Tests.antt =====
-- The programs over socket.c on concrete streams: runs, and the theorems at inputs that meet their
-- hypotheses. The socket moves three bytes at a time.
use network.Prelude.Maps.{ℕ-cases}
use network.Prelude.Tests.{◌==◌, if◌then◌else◌, Bool-cases}
use network.Prelude.{
  false, ap, ◌∙◌, subst, inl, inr, ◌⊎◌, suc, ℕ, ◌-◌, ◌^◌, ◌≡◌, refl, Bool, true, some, List, [],
  ◌∷◌, ◌++◌, map, arith,
}
use network.Prelude.Lists.{take, length, All}
use network.Prelude.Int.{ℤ, pos, to_int}
use network.Posix.{got, Socket}
use network.Posix.Pipe.{pipe, to_come, sent_off, pipe-IsSink, pipe-IsSource, pipe-NoFailure}
use network.Run.{done, undefined}
use network.Framing.Bytes.{int_bytes, htonl, ntohl, of_bytes, overlay, big_endian}
use network.Framing.{send_msg, recv_msg, writen_loop}
use network.Framing.Send.{frame, MsgSent, send_msg_lem}
use network.Framing.Message.{delivered, recv_msg-frame, recv_msg_negative}
use network.Framing.Programs.Clients.{times_other, times, results_of, stays, ready, clients_apart}
use network.Framing.Programs.{
  Served, Server, serve_entries, printed, removed, client_loop, serve_client, serve_rounds,
}
use network.Framing.Programs.EndToEnd.{IsSendable, printed_of, files_arrive}
use network.Framing.Programs.Transfer.{IsPrintable, frames, client_loop-frames, serve_rounds-frames}

abbrev any_size : ℕ → Bool
any_size n = true

-- "hello"
abbrev hello : List ℕ
hello = 104 ∷ 101 ∷ 108 ∷ 108 ∷ 111 ∷ []

-- "ok"
abbrev okay : List ℕ
okay = 111 ∷ 107 ∷ []

abbrev two : List (List ℕ)
two = hello ∷ okay ∷ []

abbrev idle : List ℕ × List ℕ
idle = ([], [])

wire_of_two :
    client_loop (pipe 2) any_size 2000 (pos 4) (got hello ∷ got okay ∷ got [] ∷ []) [] idle
    ≡ done ([], 0 ∷ 0 ∷ 0 ∷ 5 ∷ 104 ∷ 101 ∷ 108 ∷ 108 ∷ 111 ∷ 0 ∷ 0 ∷ 0 ∷ 2 ∷ 111 ∷ 107 ∷ [])
unfolding client_loop send_msg writen_loop int_bytes htonl overlay
wire_of_two = refl

rounds_of_two :
    serve_rounds
      (pipe 2)
      any_size
      3
      (0 ∷ 0 ∷ 0 ∷ 5 ∷ 104 ∷ 101 ∷ 108 ∷ 108 ∷ 111 ∷ 0 ∷ 0 ∷ 0 ∷ 2 ∷ 111 ∷ 107 ∷ [], [])
    ≡ done (printed hello ∷ printed okay ∷ removed ∷ [], idle)
unfolding serve_rounds serve_client recv_msg ntohl of_bytes overlay to_int
rounds_of_two = refl

serve_rounds-frames_example :
    (w' : Socket.World (pipe 2)) × (serve_rounds (pipe 2) any_size 3 (frames two, [])
      ≡ done (map printed two ++ (removed ∷ []), w'))
serve_rounds-frames_example =
    serve_rounds-frames (pipe 2) any_size (to_come 2) (pipe-IsSource 2) (pipe-NoFailure 2) refl two
      (frames two, [])
      (
        (omega arith, omega arith, refl, omega arith),
        ((omega arith, omega arith, refl, omega arith), tt),
      )
      refl

client_loop-frames_example :
    (w' : Socket.World (pipe 2)) × (client_loop
        (pipe 2)
        any_size
        2000
        (pos 4)
        (map got two ++ (got [] ∷ []))
        []
        idle
      ≡ done w')
    × (sent_off 2 w' ≡ sent_off 2 idle ++ frames two)
client_loop-frames_example =
    client_loop-frames (pipe 2) any_size (sent_off 2) (pipe-IsSink 2) (pipe-NoFailure 2) 2000 4 two
      [] [] idle (omega arith)
      ((omega arith, omega arith, refl), ((omega arith, omega arith, refl), tt))

send_msg_lem_example :
    (out : ℤ × Socket.World (pipe 2)) × (send_msg
        (pipe 2)
        any_size
        10
        (pos 4)
        (some hello)
        (pos 5)
        idle
      ≡ done out)
    × MsgSent (pipe 2) any_size (sent_off 2) (take 5 hello) idle out
send_msg_lem_example =
    send_msg_lem (pipe 2) any_size (sent_off 2) (pipe-IsSink 2) 10 4 hello 5 idle (omega arith)
      (omega arith) (omega arith) (omega arith) refl

recv_msg-frame_example :
    (w' : Socket.World (pipe 2)) × (recv_msg (pipe 2) any_size (frame hello ++ okay, [])
      ≡ done (delivered hello, w'))
    × (to_come 2 w' ≡ okay)
recv_msg-frame_example =
    recv_msg-frame (pipe 2) any_size (to_come 2) (pipe-IsSource 2) (pipe-NoFailure 2) hello okay
      (frame hello ++ okay, []) refl (omega arith) (omega arith) refl

recv_msg_negative_example :
    recv_msg (pipe 2) any_size (big_endian (2 ^ 32 - 1) ++ hello, []) ≡ undefined
recv_msg_negative_example =
    recv_msg_negative (pipe 2) any_size (to_come 2) (pipe-IsSource 2) (pipe-NoFailure 2)
      (2 ^ 32 - 1) hello (big_endian (2 ^ 32 - 1) ++ hello, []) refl (omega arith) (omega arith)

-- Two clients: "hello" comes on the descriptor 5, "ok" on every other.
abbrev streams : ℕ → List ℕ × List ℕ
streams f = if f == 5 then (0 ∷ 0 ∷ 0 ∷ 5 ∷ hello, []) else (0 ∷ 0 ∷ 0 ∷ 2 ∷ okay, [])

abbrev both_served : ℕ → List Served
both_served f = if f == 5 then printed hello ∷ [] else if f == 6 then printed okay ∷ [] else []

abbrev both_read : ℕ → List ℕ × List ℕ
both_read f = if f == 5 then idle else if f == 6 then idle else streams f

abbrev two_clients : Server (pipe 2) any_size
two_clients = record { watch = λ f. true; worlds = streams; out = [] }

each_alone :
    (f : ℕ)
    → serve_rounds (pipe 2) any_size (times f (5 ∷ 6 ∷ [])) (streams f)
      ≡ done (both_served f, both_read f)
unfolding times serve_rounds serve_client recv_msg ntohl of_bytes overlay to_int
each_alone f = elim (ℕ-cases 5 f) [
  | inl e ↦
      subst
        (λ g.
          serve_rounds (pipe 2) any_size (times g (5 ∷ 6 ∷ [])) (streams g)
          ≡ done (both_served g, both_read g))
        e refl
  | inr e ↦ elim (ℕ-cases 6 f) [
    | inl q ↦
        subst
          (λ g.
            serve_rounds (pipe 2) any_size (times g (5 ∷ 6 ∷ [])) (streams g)
            ≡ done (both_served g, both_read g))
          q refl
    | inr q ↦
        let not5 : (f == 5) ≡ false = ground (arith, e) in
        let not6 : (f == 6) ≡ false = ground (arith, q) in
        ap (λ n. serve_rounds (pipe 2) any_size n (streams f))
          (times_other 5 f (6 ∷ []) e ∙ times_other 6 f [] q)
        ∙ rw (not5, not6) refl
  ]
]

clients_apart_example :
    (s' : Server (pipe 2) any_size) × (serve_entries
        (pipe 2)
        any_size
        3
        (ready (pipe 2) any_size 5 ∷ ready (pipe 2) any_size 6 ∷ [])
        two_clients
      ≡ done s')
    × ((f : ℕ)
        → (s'.worlds f ≡ both_read f)
          × (results_of f s'.out ≡ results_of f [] ++ both_served f)
          × (s'.watch f ≡ stays (both_served f) true))
clients_apart_example =
    clients_apart (pipe 2) any_size 3 (5 ∷ 6 ∷ []) two_clients both_served both_read
      (omega arith, (omega arith, tt)) each_alone

-- The client on 5 sends two pieces, the one on 6 another, and no one else anything.
abbrev files : ℕ → List (List ℕ)
files f = if f == 5 then two else if f == 6 then okay ∷ [] else []

-- The entries of both, in turn.
abbrev in_turn : List ℕ
in_turn = 5 ∷ 6 ∷ 5 ∷ 6 ∷ 5 ∷ []

every_file : (P : List (List ℕ) → Type 0) (f : ℕ) → P two → P (okay ∷ []) → P [] → P (files f)
every_file P f a b c = elim (Bool-cases (f == 5)) [
  | inl e ↦ rw e a
  | inr e ↦ elim (Bool-cases (f == 6)) [ inl q ↦ rw (e, q) b | inr q ↦ rw (e, q) c ]
]

files_rounds : (f : ℕ) → (times f in_turn ≡ 0) ⊎ (times f in_turn ≡ suc (length (files f)))
unfolding times
files_rounds f = elim (ℕ-cases 5 f) [
  | inl e ↦
      subst (λ g. (times g in_turn ≡ 0) ⊎ (times g in_turn ≡ suc (length (files g)))) e (inr refl)
  | inr e ↦ elim (ℕ-cases 6 f) [
    | inl q ↦
        subst (λ g. (times g in_turn ≡ 0) ⊎ (times g in_turn ≡ suc (length (files g)))) q (inr refl)
    | inr q ↦ inl (
        times_other 5 f (6 ∷ 5 ∷ 6 ∷ 5 ∷ []) e
        ∙ times_other 6 f (5 ∷ 6 ∷ 5 ∷ []) q
        ∙ times_other 5 f (6 ∷ 5 ∷ []) e
        ∙ times_other 6 f (5 ∷ []) q
        ∙ times_other 5 f [] e)
  ]
]

files_arrive_example :
    (w1 : ℕ → Socket.World (pipe 2)) × ((f : ℕ)
      → client_loop (pipe 2) any_size 2000 (pos f) (map got (files f) ++ (got [] ∷ [])) [] idle
        ≡ done (w1 f))
    × ((s' : Server (pipe 2) any_size) × (serve_entries
            (pipe 2)
            any_size
            3
            (map (ready (pipe 2) any_size) in_turn)
            (record two_clients { worlds = λ f. ((w1 f).1, []) })
          ≡ done s')
        × ((f : ℕ)
            → (results_of f s'.out ≡ results_of f [] ++ printed_of (times f in_turn) (files f))
              × (s'.watch f ≡ (if times f in_turn == 0 then true else false))))
files_arrive_example =
    files_arrive (pipe 2) (pipe 2) any_size any_size (sent_off 2) (to_come 2) (λ w. (w.1, []))
      (pipe-IsSink 2) (pipe-NoFailure 2) (pipe-IsSource 2) (pipe-NoFailure 2) (λ w. refl) refl 2000
      3 in_turn files [] (λ f. idle) two_clients (omega arith)
      (λ f.
        every_file (All (IsSendable any_size)) f
          ((omega arith, omega arith, refl), ((omega arith, omega arith, refl), tt))
          ((omega arith, omega arith, refl), tt) tt)
      (λ f.
        every_file (All (IsPrintable any_size)) f
          (
            (omega arith, omega arith, refl, omega arith),
            ((omega arith, omega arith, refl, omega arith), tt),
          )
          ((omega arith, omega arith, refl, omega arith), tt) tt)
      (λ f. refl) (omega arith, (omega arith, (omega arith, (omega arith, (omega arith, tt)))))
      files_rounds
