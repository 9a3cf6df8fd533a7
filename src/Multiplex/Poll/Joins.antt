-- ===== src/Multiplex/Poll/Joins.antt =====
-- Rounds of poll.c with a new client alone.
use network.Prelude.{
  subst, ℕ, zero, suc, ◌+◌, ◌-◌, ◌≤◌, ◌<◌, ◌≡◌, ◌≢◌, refl, sym, ap, ◌∙◌, ◌⊎◌, inl, inr, Bool, true,
  false, none, some, arith,
}
use network.Prelude.Int.{pos}
use network.Prelude.Maps.{update, update_self, update_ne, ℕ-cases}
use network.Prelude.Tests.{ltb, leb, Option-cases, if◌then◌else◌, le→leb}
use network.Outcome.{ok}
use network.Multiplex.Poll.{
  Slot, Server, Turn, open_max, free_slot, accept_client, serve_slots, spent, round, after_poll,
}
use network.Multiplex.Poll.Invariant.{Inv, marked, marked-Inv, fd-marked}
use network.Multiplex.Poll.Rounds.{round_polled, marked_first}

-- The search finds the first free slot, if there is one.
pub free_slot_lem :
    (n i j : ℕ) (fds : ℕ → Slot)
    → i ≤ j
    → j < i + n
    → (fds j).fd ≡ none
    → (k : ℕ) × (free_slot n fds i ≡ some k) × (i ≤ k) × (k ≤ j) × ((fds k).fd ≡ none)
unfolding free_slot
free_slot_lem zero i j fds low high free = absurd (omega arith)
free_slot_lem (suc n) i j fds low high free = elim (Option-cases (fds i).fd) [
  | inl e ↦ (i, rw (e, free_slot), omega arith, low, e)
  | inr (f, e) ↦
      let apart : i ≢ j = λ q. absurd (cc (e, free, ap (λ k. (fds k).fd) q)) in
      let (k, found, above, below, unused) =
        free_slot_lem n (i + 1) j fds (omega (arith, apart)) (omega arith) free in
      (k, rw (e, free_slot) found, omega arith, below, unused)
]

-- The state behind the entry of `cfd` in slot `k`.
abbrev pub entered : Server → ℕ → ℕ → Server
entered s k cfd = record s {
  fds = update s.fds k (record (s.fds k) { fd = some cfd });
  maxfd = if ltb s.maxfd k then k else s.maxfd;
  opened = update s.opened cfd true;
}

pub accepted_at :
    (t : Turn) (s : Server) (cfd k : ℕ)
    → t.accepted ≡ some cfd
    → free_slot (open_max - 1) s.fds 1 ≡ some k
    → accept_client t s ≡ ok (entered s k cfd)
unfolding accept_client
accepted_at t s cfd k e found = rw (e, accept_client, found)

holder :
    (s : Server) (k cfd i f : ℕ)
    → ((entered s k cfd).fds i).fd ≡ some f
    → ((k ≡ i) × (cfd ≡ f)) ⊎ ((s.fds i).fd ≡ some f)
holder s k cfd i f h = elim (ℕ-cases k i) [
  | inl e ↦
      let new = update_self s.fds k (record (s.fds k) { fd = some cfd }) in
      inl (
        e,
        cc (
          subst (λ m. ((entered s k cfd).fds m).fd ≡ some f) (sym e) h,
          ap (λ sl. Slot.fd sl) new,
        ),
      )
  | inr e ↦ inr (ap (λ sl. Slot.fd sl) (sym (update_ne s.fds k i _ e)) ∙ h)
]

older : (s : Server) (cfd f : ℕ) → s.opened f ≡ true → s.opened cfd ≡ false → cfd ≢ f
older s cfd f p q e = cc (p, q, ap s.opened e)

pub connection :
    (t : Turn) (n : ℕ) (s s' : Server)
    → (s.fds 0).revents ≡ some true
    → accept_client t s ≡ ok s'
    → after_poll t (pos n) s ≡ (if leb n 1 then ok s' else serve_slots t s'.maxfd 1 s')
unfolding after_poll spent
connection t n s s' e run = rw (e, after_poll, run)

pub entered-Inv :
    (lfd : ℕ) (s : Server) (k cfd : ℕ)
    → Inv lfd s
    → 1 ≤ k
    → k < open_max
    → (s.fds k).fd ≡ none
    → s.opened cfd ≡ false
    → Inv lfd (entered s k cfd)
entered-Inv lfd s k cfd v low high free fresh = record {
  listener = ap (λ sl. Slot.fd sl) (update_ne s.fds k 0 _ (omega arith)) ∙ v.listener;
  bound = ground (arith, v.bound);
  beyond = λ j q.
      rw (update_ne s.fds k j (record (s.fds k) { fd = some cfd }) (ground arith))
        (v.beyond j (ground arith));
  is_open = λ i f q. elim (holder s k cfd i f q) [
    | inl e ↦ subst (λ g. update s.opened cfd true g ≡ true) e.1 (update_self s.opened cfd true)
    | inr e ↦
        update_ne s.opened cfd f true (older s cfd f (v.is_open i f e) fresh) ∙ v.is_open i f e
  ];
  distinct = λ i j f p q. elim (holder s k cfd i f p) [
    | inl a ↦ elim (holder s k cfd j f q) [
      | inl b ↦ sym a.0 ∙ b.0
      | inr b ↦ absurd (older s cfd f (v.is_open j f b) fresh a.1)
    ]
    | inr a ↦ elim (holder s k cfd j f q) [
      | inl b ↦ absurd (older s cfd f (v.is_open i f a) fresh b.1)
      | inr b ↦ v.distinct i j f a b
    ]
  ];
}

-- A client that connects while no other descriptor is ready, and for whom some slot is free, is
-- entered in a free slot that no free slot precedes; no other slot gets another descriptor,
-- nothing is written, and the invariant of the table holds again.
round_accepts :
    (lfd n cfd j : ℕ) (t : Turn) (s : Server) (ready : ℕ → Bool)
    → Inv lfd s
    → t.polled ≡ some (n, ready)
    → ready 0 ≡ true
    → n ≤ 1
    → t.accepted ≡ some cfd
    → s.opened cfd ≡ false
    → 1 ≤ j
    → j < open_max
    → (s.fds j).fd ≡ none
    → (s' : Server) × (k : ℕ) × (round t s ≡ ok s')
      × Inv lfd s'
      × (1 ≤ k)
      × (k ≤ j)
      × ((s.fds k).fd ≡ none)
      × ((s'.fds k).fd ≡ some cfd)
      × ((i : ℕ) → k ≢ i → (s'.fds i).fd ≡ (s.fds i).fd)
      × (s'.trace ≡ s.trace)
round_accepts lfd n cfd j t s ready v polled new alone accepted fresh low high free =
    let s1 = marked s ready in
    let w = marked-Inv lfd s ready v in
    let (k, found, above, below, unused) =
      free_slot_lem (open_max - 1) 1 j s1.fds low (omega arith) (fd-marked s ready j ∙ free) in
    (
      entered s1 k cfd,
      k,
      round_polled n t s ready polled
          ∙ connection t n s1 (entered s1 k cfd) (marked_first lfd s ready v ∙ ap some new)
              (accepted_at t s1 cfd k accepted found)
          ∙ ap
              (λ b.
                if b
                then ok (entered s1 k cfd)
                else serve_slots t (entered s1 k cfd).maxfd 1 (entered s1 k cfd))
              (le→leb n 1 alone),
      entered-Inv lfd s1 k cfd w above (omega arith) unused fresh,
      above,
      below,
      sym (fd-marked s ready k) ∙ unused,
      ap (λ sl. Slot.fd sl) (update_self s1.fds k _),
      (λ i apart. ap (λ sl. Slot.fd sl) (update_ne s1.fds k i _ apart) ∙ fd-marked s ready i),
      refl,
    )
