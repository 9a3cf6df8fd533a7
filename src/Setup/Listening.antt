-- ===== src/Setup/Listening.antt =====
-- What the calls lead to: a socket that listens, an exit, or a server that does not listen.
use network.Prelude.{sym, ap, ◌∙◌, ℕ, ◌≡◌, refl, inl, inr, ◌⊎◌, Bool, true, false, none, some}
use network.Prelude.Tests.{Bool-cases, Option-cases}
use network.Outcome.{Outcome, ok, exited, ◌>>=◌}
use network.Setup.{
  Opened, Answers, Address, port, serv_socket, make, set_reuse, bind, unlink, listen, checked,
  unchecked,
}
use network.Setup.Servers.{
  open_select, open_table, open_poll, open_processes, open_threads, open_edge, open_epoll,
  open_reactor, open_single, open_frames, open_local,
}

-- The program ended, or it has the socket that `socket` gave, bound to `p` and listening.
abbrev pub ListensOrExits : Answers → ℕ → Outcome Opened → Type 0
ListensOrExits a p o =
    (o ≡ exited)
    ⊎ ((s : Opened) × (o ≡ ok s)
        × (a.created ≡ some s.fd)
        × (s.address ≡ some (port p))
        × (s.backlog ≡ some 128))

-- The state of a socket that `socket` has just given.
abbrev pub plain : ℕ → Opened
plain fd = record { fd = fd; reuse = false; address = none; backlog = none; peer = none }

-- `make`, some change that keeps the descriptor, `bind` and `listen`, all checked.
opens :
    (a : Answers) (set : Opened → Opened) (p : ℕ)
    → ((fd : ℕ) → (set (plain fd)).fd ≡ fd)
    → ListensOrExits a p
        (make a >>= λ s. checked (bind a (port p) (set s)) >>= λ s'. checked (listen a 128 s'))
unfolding make bind checked listen
opens a set p same = elim (Option-cases a.created) [
  | inl e ↦ inl (rw (e, make))
  | inr (fd, e) ↦ elim (Bool-cases a.bound) [
    | inr b ↦ inl (rw (e, make, b))
    | inl b ↦ elim (Bool-cases a.listening) [
      | inr l ↦ inl (rw (e, make, b, listen, l))
      | inl l ↦ inr (
        record (set (plain fd)) { address = some (port p); backlog = some 128 },
        rw (e, make, b, listen, l),
        e ∙ ap some (sym (same fd)),
        refl,
        refl,
      )
    ]
  ]
]

fd-set_reuse : (a : Answers) (opt : Bool) (fd : ℕ) → (set_reuse a opt (plain fd)).fd ≡ fd
unfolding set_reuse
fd-set_reuse a opt fd = refl

-- Whatever the calls answer, select.c, select优化.c, poll.c, server2.c, server3.c and ET非阻塞模式.c
-- either exit before their loops or enter them with the descriptor that socket gave, bound to
-- their port and listening with a backlog of 128.
pub servers_listen :
    (a : Answers) (opt : Bool)
    → ListensOrExits a 6666 (open_select a)
      × ListensOrExits a 6665 (open_table a)
      × ListensOrExits a 6666 (open_poll a)
      × ListensOrExits a 9995 (open_processes a)
      × ListensOrExits a 9995 (open_threads a)
      × ListensOrExits a 6665 (open_edge a opt)
unfolding open_select open_table open_poll open_processes open_threads open_edge
servers_listen a opt =
    let reuses = λ (o : Bool) (p : ℕ). opens a (set_reuse a o) p (fd-set_reuse a o) in
    let plainly = λ (p : ℕ). opens a (λ s. s) p (λ fd. refl) in
    (
      reuses true 6666,
      reuses true 6665,
      plainly 6666,
      reuses true 9995,
      plainly 9995,
      reuses opt 6665,
    )

-- The program goes on with a socket that is bound but does not listen.
abbrev pub IsDeaf : Outcome Opened → Address → Type 0
IsDeaf o to = (s : Opened) × (o ≡ ok s) × (s.address ≡ some to) × (s.backlog ≡ none)

bound_checked :
    (a : Answers) (to : Address) (fd : ℕ) (set : Opened → Opened) (s' : Opened)
    → bind a to (set (plain fd)) ≡ some s'
    → checked (bind a to (set (plain fd))) ≡ ok s'
unfolding checked
bound_checked a to fd set s' e = rw e

deaf :
    (a a' : Answers) (set : Opened → Opened) (to : Address) (fd n : ℕ)
    → a.created ≡ some fd
    → a.listening ≡ false
    → (s' : Opened) → bind a' to (set (plain fd)) ≡ some s'
    → s'.address ≡ some to
    → s'.backlog ≡ none
    → IsDeaf
        (make a >>= λ s. checked (bind a' to (set s)) >>= λ s'. ok (unchecked (listen a n s') s'))
        to
unfolding make checked listen unchecked
deaf a a' set to fd n e l s' run address backlog =
    (s', simp (e, make, bound_checked a' to fd set s' run, listen, l) refl, address, backlog)

-- Where bind succeeds and listen fails, epoll.c, epoll反应堆.c, server1.c, serve.c and the local
-- server go on, each with a socket that is bound to its address and does not listen.
servers-IsDeaf :
    (a : Answers) (fd p : ℕ)
    → a.created ≡ some fd
    → a.bound ≡ true
    → a.listening ≡ false
    → IsDeaf (open_epoll a) (port 6666)
      × IsDeaf (open_reactor a p) (port p)
      × IsDeaf (open_single a) (port 9527)
      × IsDeaf (open_frames a) (port 9526)
      × IsDeaf (open_local a) serv_socket
unfolding open_epoll open_reactor open_single open_frames open_local bind set_reuse unlink
servers-IsDeaf a fd p e b l =
    let at =
      λ (set : Opened → Opened) (to : Address) (n : ℕ) (s' : Opened). deaf a a set to fd n e l s' in
    (
      at (set_reuse a true) (port 6666) 128
          (record (set_reuse a true (plain fd)) { address = some (port 6666) }) (rw b) refl refl,
      at (λ s. s) (port p) 20 (record (plain fd) { address = some (port p) }) (rw b) refl refl,
      at (set_reuse a true) (port 9527) 128
          (record (set_reuse a true (plain fd)) { address = some (port 9527) }) (rw b) refl refl,
      at (λ s. s) (port 9526) 128 (record (plain fd) { address = some (port 9526) }) (rw b) refl
          refl,
      deaf a (unlink a) (λ s. s) serv_socket fd 20 e l
          (record (plain fd) { address = some serv_socket }) (rw b) refl refl,
    )
