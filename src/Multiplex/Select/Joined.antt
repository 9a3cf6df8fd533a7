-- ===== src/Multiplex/Select/Joined.antt =====
-- A new client in a free entry of the table of select优化.c.
use network.Prelude.{
  ℕ, suc, ◌+◌, ◌≤◌, ◌<◌, ◌≡◌, ◌≢◌, refl, sym, ap, ◌∙◌, ◌⊎◌, inl, inr, Bool, true, false, Option,
  none, some, arith,
}
use network.Prelude.Maps.{update, update_self, update_ne, ℕ-cases}
use network.Prelude.Tests.{ltb, ==_iff, if◌then◌else◌}
use network.Multiplex.Select.{Server, fd_setsize, start}
use network.Multiplex.Select.Rounds.{entered}
use network.Multiplex.Select.Table.{Table, put_in, stays_in, some_inj, fresh_apart}

-- An entry of the new table is the new one or an old one.
entry-cases :
    (client : ℕ → Option ℕ) (k f i g : ℕ)
    → update client k (some f) i ≡ some g
    → ((k ≡ i) × (f ≡ g)) ⊎ ((k ≢ i) × (client i ≡ some g))
entry-cases client k f i g h = elim (ℕ-cases k i) [
  | inl q ↦ inl (
    q,
    some_inj (sym (ap (update client k (some f)) (sym q) ∙ update_self client k (some f)) ∙ h),
  )
  | inr q ↦ inr (q, sym (update_ne client k i (some f) q) ∙ h)
]

above : (m n a : ℕ) → a ≤ m → a ≤ (if ltb m n then n else m)
above m n a h = ground arith

above_new : (m n : ℕ) → n ≤ (if ltb m n then n else m)
above_new m n = ground arith

below_both : (m n a : ℕ) → m ≤ a → n ≤ a → (if ltb m n then n else m) ≤ a
below_both m n a h l = ground arith

module _ (listenfd k f : ℕ) (s : Server) (v : Table listenfd s) (unused : s.client k ≡ none)
    (low : k < fd_setsize) (fits : f < fd_setsize) (closed : s.opened f ≡ false) where
  no_old : (i : ℕ) → s.client i ≢ some f
  no_old i = λ e. fresh_apart listenfd f f s v closed (v.entry_set i f e) refl

  pub entered_Table : Table listenfd (entered s k f)
  entered_Table = record {
    listens = stays_in s.allset f listenfd v.listens;
    entry_set = λ i g h. elim (entry-cases s.client k f i g h) [
      | inl (p, q) ↦ ap (update s.allset f true) (sym q) ∙ update_self s.allset f true
      | inr (p, e) ↦ stays_in s.allset f g (v.entry_set i g e)
    ];
    entry_other = λ i g h. elim (entry-cases s.client k f i g h) [
      | inl (p, q) ↦ λ r. fresh_apart listenfd listenfd f s v closed v.listens (q ∙ r)
      | inr (p, e) ↦ v.entry_other i g e
    ];
    entry_once = λ i j g h l. elim (entry-cases s.client k f i g h) [
      | inl (p, q) ↦ elim (entry-cases s.client k f j g l) [
        | inl (o, r) ↦ sym p ∙ o
        | inr (o, e) ↦ absurd (no_old j (e ∙ ap some (sym q)))
      ]
      | inr (p, e) ↦ elim (entry-cases s.client k f j g l) [
        | inl (o, r) ↦ absurd (no_old i (e ∙ ap some (sym r)))
        | inr (o, d) ↦ v.entry_once i j g e d
      ]
    ];
    entry_slot = λ i g h. elim (entry-cases s.client k f i g h) [
      | inl (p, q) ↦ omega (arith, p, above_new s.slots (k + 1))
      | inr (p, e) ↦ above s.slots (k + 1) (suc i) (v.entry_slot i g e)
    ];
    set_entry = λ g h. elim (put_in s.allset f g h) [
      | inl q ↦ inr (k, update_self s.client k (some f) ∙ ap some q)
      | inr (p, e) ↦ elim (v.set_entry g e) [
        | inl q ↦ inl q
        | inr (j, d) ↦
            inr
              (j, update_ne s.client k j (some f) (λ q. absurd (cc (unused, d, ap s.client q))) ∙ d)
      ]
    ];
    set_open = λ g h. elim (put_in s.allset f g h) [
      | inl q ↦ ap (update s.opened f true) (sym q) ∙ update_self s.opened f true
      | inr (p, e) ↦ stays_in s.opened f g (v.set_open g e)
    ];
    set_fits = λ g h. elim (put_in s.allset f g h) [
      | inl q ↦ omega (arith, q, fits)
      | inr (p, e) ↦ v.set_fits g e
    ];
    set_max = λ g h. elim (put_in s.allset f g h) [
      | inl q ↦ omega (arith, q, above_new s.maxfd f)
      | inr (p, e) ↦ above s.maxfd f g (v.set_max g e)
    ];
    slots_fit = below_both s.slots (k + 1) fd_setsize v.slots_fit (omega arith);
  }

pub start_Table :
    (listenfd : ℕ) (opened : ℕ → Bool)
    → opened listenfd ≡ true
    → listenfd < fd_setsize
    → Table listenfd (start listenfd opened)
unfolding start
start_Table listenfd opened e fits = record {
  listens = (==_iff listenfd listenfd).1 refl;
  entry_set = λ i f h. absurd (cc h);
  entry_other = λ i f h. absurd (cc h);
  entry_once = λ i j f h l. absurd (cc h);
  entry_slot = λ i f h. absurd (cc h);
  set_entry = λ f h. inl ((==_iff f listenfd).0 h);
  set_open = λ f h. ap opened ((==_iff f listenfd).0 h) ∙ e;
  set_fits = λ f h. omega (arith, (==_iff f listenfd).0 h, fits);
  set_max = λ f h. omega (arith, (==_iff f listenfd).0 h);
  slots_fit = omega arith;
}
