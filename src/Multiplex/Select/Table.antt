-- ===== src/Multiplex/Select/Table.antt =====
-- The table of the clients and the set of descriptors of select优化.c fit together in every round.
use network.Prelude.{
  ℕ, zero, suc, ◌+◌, ◌≤◌, ◌<◌, ◌≡◌, ◌≢◌, sym, ap, ◌∙◌, ◌⊎◌, inl, inr, Bool, true, false, Option,
  none, some, [], ◌∷◌,
}
use network.Prelude.Int.{ℤ}
use network.Prelude.Maps.{update, update_self, update_ne, ℕ-cases}
use network.Prelude.Tests.{Bool-cases, Option-cases}
use network.Posix.{Answer, got, failed}
use network.Multiplex.Select.{Server, Turn, fd_setsize, decrement, is_zero, answer, serve_clients}

-- The set holds the listening descriptor and those of the clients, each in one entry below `slots`; all of
-- them are open, and none is above `maxfd`.
pub record Table (listenfd : ℕ) (s : Server) : Type 0 where
  pub listens : s.allset listenfd ≡ true
  pub entry_set : (i f : ℕ) → s.client i ≡ some f → s.allset f ≡ true
  pub entry_other : (i f : ℕ) → s.client i ≡ some f → f ≢ listenfd
  pub entry_once : (i j f : ℕ) → s.client i ≡ some f → s.client j ≡ some f → i ≡ j
  pub entry_slot : (i f : ℕ) → s.client i ≡ some f → i < s.slots
  pub set_entry : (f : ℕ) → s.allset f ≡ true → (f ≡ listenfd) ⊎ ((i : ℕ) × (s.client i ≡ some f))
  pub set_open : (f : ℕ) → s.allset f ≡ true → s.opened f ≡ true
  pub set_fits : (f : ℕ) → s.allset f ≡ true → f < fd_setsize
  pub set_max : (f : ℕ) → s.allset f ≡ true → f ≤ s.maxfd
  pub slots_fit : s.slots ≤ fd_setsize

pub some_inj : {a b : ℕ} → some a ≡ some b → a ≡ b
some_inj e = cc

cleared :
    (client : ℕ → Option ℕ) (i j f : ℕ)
    → update client i none j ≡ some f
    → (i ≢ j) × (client j ≡ some f)
cleared client i j f h = elim (ℕ-cases i j) [
  | inl e ↦ absurd (cc (update_self client i none, h, ap (update client i none) e))
  | inr e ↦ (e, sym (update_ne client i j none e) ∙ h)
]

taken_out : (set : ℕ → Bool) (f g : ℕ) → update set f false g ≡ true → (f ≢ g) × (set g ≡ true)
taken_out set f g h = elim (ℕ-cases f g) [
  | inl e ↦ absurd (cc (update_self set f false, h, ap (update set f false) e))
  | inr e ↦ (e, sym (update_ne set f g false e) ∙ h)
]

pub put_in :
    (set : ℕ → Bool) (f g : ℕ) → update set f true g ≡ true → (f ≡ g) ⊎ ((f ≢ g) × (set g ≡ true))
put_in set f g h = elim (ℕ-cases f g) [
  | inl e ↦ inl e
  | inr e ↦ inr (e, sym (update_ne set f g true e) ∙ h)
]

pub stays_in : (set : ℕ → Bool) (f g : ℕ) → set g ≡ true → update set f true g ≡ true
stays_in set f g h = elim (ℕ-cases f g) [
  | inl e ↦ ap (update set f true) (sym e) ∙ update_self set f true
  | inr e ↦ update_ne set f g true e ∙ h
]

module _ (listenfd : ℕ) where
  -- A client that left.
  left_Table :
      (i f : ℕ) (s : Server)
      → s.client i ≡ some f
      → Table listenfd s
      → Table listenfd (record s {
        client = update s.client i none;
        allset = update s.allset f false;
        opened = update s.opened f false;
      })
  left_Table i f s at v = record {
    listens = update_ne s.allset f listenfd false (v.entry_other i f at) ∙ v.listens;
    entry_set = λ j g h.
        let (apart, old) = cleared s.client i j g h in
        update_ne s.allset f g false (λ e. apart (v.entry_once i j g (at ∙ ap some e) old))
        ∙ v.entry_set j g old;
    entry_other = λ j g h. v.entry_other j g (cleared s.client i j g h).1;
    entry_once =
        λ j k g h l. v.entry_once j k g (cleared s.client i j g h).1 (cleared s.client i k g l).1;
    entry_slot = λ j g h. v.entry_slot j g (cleared s.client i j g h).1;
    set_entry = λ g h.
        let (apart, old) = taken_out s.allset f g h in
        elim (v.set_entry g old) [
          | inl e ↦ inl e
          | inr (j, e) ↦ inr (
            j,
            update_ne s.client i j none (λ q. apart (some_inj (sym at ∙ ap s.client q ∙ e))) ∙ e,
          )
        ];
    set_open = λ g h.
        let (apart, old) = taken_out s.allset f g h in
        update_ne s.opened f g false apart ∙ v.set_open g old;
    set_fits = λ g h. v.set_fits g (taken_out s.allset f g h).1;
    set_max = λ g h. v.set_max g (taken_out s.allset f g h).1;
    slots_fit = v.slots_fit;
  }

  answer_Table :
      (i f : ℕ) (a : Answer) (s : Server)
      → s.client i ≡ some f
      → Table listenfd s
      → Table listenfd (answer i f a s)
  unfolding answer
  answer_Table i f (failed e) s at v = v
  answer_Table i f (got []) s at v = left_Table i f s at v
  answer_Table i f (got (b ∷ bs)) s at v = record {
    listens = v.listens;
    entry_set = v.entry_set;
    entry_other = v.entry_other;
    entry_once = v.entry_once;
    entry_slot = v.entry_slot;
    set_entry = v.set_entry;
    set_open = v.set_open;
    set_fits = v.set_fits;
    set_max = v.set_max;
    slots_fit = v.slots_fit;
  }

  pub serve_clients_Table :
      (t : Turn) (set : ℕ → Bool) (n i : ℕ) (nready : ℤ) (s : Server)
      → Table listenfd s
      → Table listenfd (serve_clients t set n i nready s)
  unfolding serve_clients
  serve_clients_Table t set zero i nready s v = v
  serve_clients_Table t set (suc n) i nready s v = elim (Option-cases (s.client i)) [
    | inl e ↦ rw (e, serve_clients) (serve_clients_Table t set n (i + 1) nready s v)
    | inr (f, e) ↦ elim (Bool-cases (set f)) [
      | inr q ↦ rw (e, serve_clients, q) (serve_clients_Table t set n (i + 1) nready s v)
      | inl q ↦
          let w = answer_Table i f (t.reads f) s e v in
          let rest =
            serve_clients_Table t set n (i + 1) (decrement nready) (answer i f (t.reads f) s) w in
          elim (Bool-cases (is_zero (decrement nready))) [
            | inl z ↦ rw (e, serve_clients, q, z) w
            | inr z ↦ rw (e, serve_clients, q, z) rest
          ]
    ]
  ]

  pub fresh_apart :
      (g f : ℕ) (s : Server) → Table listenfd s → s.opened f ≡ false → s.allset g ≡ true → f ≢ g
  fresh_apart g f s v closed h = λ q. absurd (cc (v.set_open g h, closed, ap s.opened q))
