-- ===== src/Reactor/Invariant.antt =====
-- The table and the epoll set agree: a descriptor is watched exactly if a slot in use holds it, for
-- the events of that slot and with a pointer to it.
use network.Prelude.Maps.{update, update_self, update_ne, ℕ-cases}
use network.Prelude.{
  ℕ, ◌≤◌, ◌<◌, ◌≡◌, ◌≢◌, sym, ◌∙◌, ap, ◌⊎◌, inl, inr, true, false, Option, none, some, arith,
}
use network.Prelude.Tests.{Option-cases}
use network.Reactor.{
  Event, Interest, reading, writing, recvdata, senddata, acceptconn, Reactor, max_events, buflen,
}
use network.Reactor.Table.{Retargets, Retires}

-- What a slot in use holds: the listener waits for connections in the last slot; a client's slot
-- waits for data, or waits to send the bytes that came, and its callback gets the slot itself.
abbrev pub Mode : ℕ → Event → Type 0
Mode i e =
    ((i ≡ max_events) × (e.call_back ≡ acceptconn) × (e.events ≡ reading))
    ⊎ ((i < max_events)
        × (e.arg ≡ some i)
        × (((e.call_back ≡ recvdata) × (e.events ≡ reading))
            ⊎ ((e.call_back ≡ senddata) × (e.events ≡ writing) × (0 < e.len) × (e.len ≤ buflen))))

pub record Inv (r : Reactor) : Type 0 where
  pub used_watched :
      (i : ℕ)
      → (r.slots i).status ≡ 1
      → (r.watch (r.slots i).fd ≡ some ((r.slots i).events, i))
        × (r.opened (r.slots i).fd ≡ true)
        × Mode i (r.slots i)
  pub watched_used :
      (f i : ℕ) (m : Interest)
      → r.watch f ≡ some (m, i)
      → ((r.slots i).status ≡ 1) × ((r.slots i).fd ≡ f)
  pub status_bit : (i : ℕ) → ((r.slots i).status ≡ 0) ⊎ ((r.slots i).status ≡ 1)

same_slot :
    {m n : Interest} {a b : ℕ} (o : Option (Interest × ℕ))
    → o ≡ some (m, a)
    → o ≡ some (n, b)
    → a ≡ b
same_slot o p q = cc

-- Slots in use hold different descriptors.
pub distinct_fds :
    (r : Reactor) (i j : ℕ)
    → Inv r
    → (r.slots i).status ≡ 1
    → (r.slots j).status ≡ 1
    → (r.slots i).fd ≡ (r.slots j).fd
    → i ≡ j
distinct_fds r i j v hi hj e =
    same_slot (r.watch (r.slots i).fd) (v.used_watched i hi).0
      (ap r.watch e ∙ (v.used_watched j hj).0)

-- A slot in use that points to itself in the epoll set.
abbrev Watched : Reactor → ℕ → Event → Type 0
Watched r j e = (r.watch e.fd ≡ some (e.events, j)) × (r.opened e.fd ≡ true) × Mode j e

pub Retargets-Inv :
    (r r' : Reactor) (i : ℕ) (e : Event)
    → Inv r
    → (r.slots i).status ≡ 1
    → Retargets r r' i e
    → e.fd ≡ (r.slots i).fd
    → e.status ≡ 1
    → Mode i e
    → Inv r'
Retargets-Inv r r' i e v used t fd st mode = record {
  used_watched = λ j h. used_watched j h (ℕ-cases i j);
  watched_used = λ f j m h. watched_used f j m h (ℕ-cases (r.slots i).fd f);
  status_bit = λ j. status_bit j (ℕ-cases i j);
}
  where
    used_watched : (j : ℕ) → (r'.slots j).status ≡ 1 → (i ≡ j) ⊎ (i ≢ j) → Watched r' j (r'.slots j)
    used_watched j h (inl q) =
        rw (← q, t.slot_at)
          (
            ap r'.watch fd ∙ t.watch_at,
            t.opened_same e.fd ∙ ap r.opened fd ∙ (v.used_watched i used).1,
            mode,
          )
    used_watched j h (inr q) =
        let was = t.slot_other j q in
        let h' : (r.slots j).status ≡ 1 = rw was at h in
        let w = v.used_watched j h' in
        let apart : (r.slots i).fd ≢ (r.slots j).fd =
          λ same. q (distinct_fds r i j v used h' same) in
        rw was (t.watch_other (r.slots j).fd apart ∙ w.0, t.opened_same (r.slots j).fd ∙ w.1, w.2)

    watched_used :
        (f j : ℕ) (m : Interest)
        → r'.watch f ≡ some (m, j)
        → ((r.slots i).fd ≡ f) ⊎ ((r.slots i).fd ≢ f)
        → ((r'.slots j).status ≡ 1) × ((r'.slots j).fd ≡ f)
    watched_used f j m h (inl q) =
        let here : i ≡ j = same_slot (r'.watch f) (ap r'.watch (sym q) ∙ t.watch_at) h in
        rw (← here, t.slot_at) (st, fd ∙ q)
    watched_used f j m h (inr q) =
        let w = v.watched_used f j m (sym (t.watch_other f q) ∙ h) in
        let apart : i ≢ j = λ same. q (ap (λ k. (r.slots k).fd) same ∙ w.1) in
        rw (t.slot_other j apart) w

    status_bit : (j : ℕ) → (i ≡ j) ⊎ (i ≢ j) → ((r'.slots j).status ≡ 0) ⊎ ((r'.slots j).status ≡ 1)
    status_bit j (inl q) = inr (rw (← q, t.slot_at) st)
    status_bit j (inr q) = rw (t.slot_other j q) (v.status_bit j)

pub Retires-Inv :
    (r r' : Reactor) (i : ℕ) → Inv r → (r.slots i).status ≡ 1 → Retires r r' i → Inv r'
Retires-Inv r r' i v used t = record {
  used_watched = λ j h. used_watched j h (ℕ-cases i j);
  watched_used = λ f j m h. watched_used f j m h (ℕ-cases (r.slots i).fd f);
  status_bit = λ j. status_bit j (ℕ-cases i j);
}
  where
    used_watched : (j : ℕ) → (r'.slots j).status ≡ 1 → (i ≡ j) ⊎ (i ≢ j) → Watched r' j (r'.slots j)
    used_watched j h (inl q) =
        let free : (r'.slots j).status ≡ 0 = rw (← q, t.slot_at) in absurd (omega (arith, h, free))
    used_watched j h (inr q) =
        let was = t.slot_other j q in
        let h' : (r.slots j).status ≡ 1 = rw was at h in
        let w = v.used_watched j h' in
        let apart : (r.slots i).fd ≢ (r.slots j).fd =
          λ same. q (distinct_fds r i j v used h' same) in
        rw was
          (t.watch_other (r.slots j).fd apart ∙ w.0, t.opened_other (r.slots j).fd apart ∙ w.1, w.2)

    watched_used :
        (f j : ℕ) (m : Interest)
        → r'.watch f ≡ some (m, j)
        → ((r.slots i).fd ≡ f) ⊎ ((r.slots i).fd ≢ f)
        → ((r'.slots j).status ≡ 1) × ((r'.slots j).fd ≡ f)
    watched_used f j m h (inl q) =
        let gone : r'.watch f ≡ none = ap r'.watch (sym q) ∙ t.watch_at in absurd (cc (gone, h))
    watched_used f j m h (inr q) =
        let w = v.watched_used f j m (sym (t.watch_other f q) ∙ h) in
        let apart : i ≢ j = λ same. q (ap (λ k. (r.slots k).fd) same ∙ w.1) in
        rw (t.slot_other j apart) w

    status_bit : (j : ℕ) → (i ≡ j) ⊎ (i ≢ j) → ((r'.slots j).status ≡ 0) ⊎ ((r'.slots j).status ≡ 1)
    status_bit j (inl q) = inl (rw (← q, t.slot_at))
    status_bit j (inr q) = rw (t.slot_other j q) (v.status_bit j)

-- A descriptor that is not open is not watched.
pub not_watched : (r : Reactor) (f : ℕ) → Inv r → r.opened f ≡ false → r.watch f ≡ none
not_watched r f v h = elim (Option-cases (r.watch f)) [
  | inl e ↦ e
  | inr ((m, i), e) ↦
      let w = v.watched_used f i m e in
      let o = (v.used_watched i w.0).1 in absurd (cc (sym (ap r.opened w.1) ∙ o, h))
]

-- A descriptor that is opened and left alone.
pub opened-Inv :
    (r : Reactor) (f : ℕ)
    → Inv r
    → r.opened f ≡ false
    → Inv (record r { opened = update r.opened f true })
opened-Inv r f v h = record {
  used_watched = λ j u.
      let w = v.used_watched j u in
      (
        w.0,
        update_ne r.opened f (r.slots j).fd true (λ q. absurd (cc (sym (ap r.opened q) ∙ h, w.1)))
            ∙ w.1,
        w.2,
      );
  watched_used = v.watched_used;
  status_bit = v.status_bit;
}

-- A new descriptor `f` put into the free slot `i`.
pub enlist-Inv :
    (r r' : Reactor) (i f : ℕ) (e : Event)
    → Inv r
    → r.opened f ≡ true
    → r.watch f ≡ none
    → (r.slots i).status ≡ 0
    → r'.slots i ≡ e
    → ((j : ℕ) → i ≢ j → r'.slots j ≡ r.slots j)
    → r'.watch ≡ update r.watch f (some (e.events, i))
    → r'.opened ≡ r.opened
    → e.fd ≡ f
    → e.status ≡ 1
    → Mode i e
    → Inv r'
enlist-Inv r r' i f e v is_open unwatched free at other watch same_open fd st mode = record {
  used_watched = λ j h. used_watched j h (ℕ-cases i j);
  watched_used = λ g j m h. watched_used g j m h (ℕ-cases f g);
  status_bit = λ j. status_bit j (ℕ-cases i j);
}
  where
    watch_f : r'.watch f ≡ some (e.events, i)
    watch_f = ap (λ g. g f) watch ∙ update_self r.watch f (some (e.events, i))

    watch_g : (g : ℕ) → f ≢ g → r'.watch g ≡ r.watch g
    watch_g g h = ap (λ k. k g) watch ∙ update_ne r.watch f g (some (e.events, i)) h

    used_watched : (j : ℕ) → (r'.slots j).status ≡ 1 → (i ≡ j) ⊎ (i ≢ j) → Watched r' j (r'.slots j)
    used_watched j h (inl q) =
        rw (← q, at)
          (ap r'.watch fd ∙ watch_f, ap (λ g. g e.fd) same_open ∙ ap r.opened fd ∙ is_open, mode)
    used_watched j h (inr q) =
        let h' : (r.slots j).status ≡ 1 = rw (other j q) at h in
        let w = v.used_watched j h' in
        let apart : f ≢ (r.slots j).fd =
          λ same. absurd (cc (sym (ap r.watch same) ∙ unwatched, w.0)) in
        rw (other j q)
          (watch_g (r.slots j).fd apart ∙ w.0, ap (λ g. g (r.slots j).fd) same_open ∙ w.1, w.2)

    watched_used :
        (g j : ℕ) (m : Interest)
        → r'.watch g ≡ some (m, j)
        → (f ≡ g) ⊎ (f ≢ g)
        → ((r'.slots j).status ≡ 1) × ((r'.slots j).fd ≡ g)
    watched_used g j m h (inl q) =
        let here : i ≡ j = same_slot (r'.watch g) (ap r'.watch (sym q) ∙ watch_f) h in
        rw (← here, at) (st, fd ∙ q)
    watched_used g j m h (inr q) =
        let w = v.watched_used g j m (sym (watch_g g q) ∙ h) in
        let apart : i ≢ j =
          λ same. absurd (omega (arith, ap (λ k. (r.slots k).status) same, w.0, free)) in
        rw (other j apart) w

    status_bit : (j : ℕ) → (i ≡ j) ⊎ (i ≢ j) → ((r'.slots j).status ≡ 0) ⊎ ((r'.slots j).status ≡ 1)
    status_bit j (inl q) = inr (rw (← q, at) st)
    status_bit j (inr q) = rw (other j q) (v.status_bit j)
