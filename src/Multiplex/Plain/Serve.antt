-- ===== src/Multiplex/Plain/Serve.antt =====
-- A pass of select.c over the descriptors, told descriptor by descriptor.
use network.Prelude.{
  subst, ℕ, zero, suc, ◌+◌, ◌-◌, ◌≤◌, ◌<◌, ◌≡◌, ◌≢◌, refl, sym, ap, ◌∙◌, ◌⊎◌, inl, inr, Bool, true,
  false, some, List, [], ◌∷◌, ◌++◌, map, append-nil, append_assoc, arith,
}
use network.Prelude.Maps.{update, update_self, update_ne, ℕ-cases}
use network.Prelude.Tests.{Bool-cases, if◌then◌else◌}
use network.Posix.{Answer, got, failed, Io, wrote, toupper}
use network.Outcome.{ok}
use network.Multiplex.Plain.{
  Server, Turn, left_in, answer, serve_fd, serve_fds, after_select, round,
}

abbrev pub echoed : ℕ → Answer → List Io
echoed f (failed e) = []
echoed f (got []) = []
echoed f (got (b ∷ bs)) = wrote f (map toupper (b ∷ bs)) ∷ []

abbrev pub is_end : Answer → Bool
is_end (failed e) = false
is_end (got []) = true
is_end (got (b ∷ bs)) = false

-- What the n descriptors from `i` on are answered.
pub replies : Turn → (ℕ → Bool) → ℕ → ℕ → List Io
replies t set zero i = []
replies t set (suc n) i = (if set i then echoed i (t.reads i) else []) ++ replies t set n (i + 1)

-- Whether `f` is in the set behind the pass, if it was `b` in front of it.
abbrev pub stays : Turn → (ℕ → Bool) → ℕ → Bool → Bool
stays t set f b = if set f then (if is_end (t.reads f) then false else b) else b

trace-answer : (i : ℕ) (a : Answer) (s : Server) → (answer i a s).trace ≡ s.trace ++ echoed i a
unfolding answer
trace-answer i (failed e) s = sym (append-nil s.trace)
trace-answer i (got []) s = sym (append-nil s.trace)
trace-answer i (got (b ∷ bs)) s = refl

trace-serve_fd :
    (t : Turn) (set : ℕ → Bool) (i : ℕ) (s : Server)
    → (serve_fd t set i s).trace ≡ s.trace ++ (if set i then echoed i (t.reads i) else [])
unfolding serve_fd
trace-serve_fd t set i s = elim (Bool-cases (set i)) [
  | inl e ↦ rw e (trace-answer i (t.reads i) s)
  | inr e ↦ rw e (sym (append-nil s.trace))
]

trace-serve_fds :
    (t : Turn) (set : ℕ → Bool) (n i : ℕ) (s : Server)
    → (serve_fds t set n i s).trace ≡ s.trace ++ replies t set n i
unfolding serve_fds replies
trace-serve_fds t set zero i s = sym (append-nil s.trace)
trace-serve_fds t set (suc n) i s =
    trace-serve_fds t set n (i + 1) (serve_fd t set i s)
    ∙ ap (λ l. l ++ replies t set n (i + 1)) (trace-serve_fd t set i s)
    ∙ append_assoc s.trace _ (replies t set n (i + 1))

-- A set of descriptors that a round changes as it does the set of `select`: a descriptor leaves it
-- where its data ended.
record Follows (set_of : Server → ℕ → Bool) : Type 0 where
  at_end : (i : ℕ) (s : Server) → set_of (answer i (got []) s) ≡ update (set_of s) i false
  at_data : (i b : ℕ) (bs : List ℕ) (s : Server) → set_of (answer i (got (b ∷ bs)) s) ≡ set_of s
  at_failure : (i e : ℕ) (s : Server) → set_of (answer i (failed e) s) ≡ set_of s

allset-Follows : Follows (λ s. s.allset)
unfolding answer
allset-Follows = record {
  at_end = λ i s. refl;
  at_data = λ i b bs s. refl;
  at_failure = λ i e s. refl;
}

opened-Follows : Follows (λ s. s.opened)
unfolding answer
opened-Follows = record {
  at_end = λ i s. refl;
  at_data = λ i b bs s. refl;
  at_failure = λ i e s. refl;
}

module _ (set_of : Server → ℕ → Bool) (v : Follows set_of) (t : Turn) (set : ℕ → Bool) where
  answer_self :
      (i : ℕ) (a : Answer) (s : Server)
      → set_of (answer i a s) i ≡ (if is_end a then false else set_of s i)
  answer_self i (failed e) s = ap (λ g. g i) (v.at_failure i e s)
  answer_self i (got []) s = ap (λ g. g i) (v.at_end i s) ∙ update_self (set_of s) i false
  answer_self i (got (b ∷ bs)) s = ap (λ g. g i) (v.at_data i b bs s)

  answer_other : (i j : ℕ) (a : Answer) (s : Server) → i ≢ j → set_of (answer i a s) j ≡ set_of s j
  answer_other i j (failed e) s h = ap (λ g. g j) (v.at_failure i e s)
  answer_other i j (got []) s h = ap (λ g. g j) (v.at_end i s) ∙ update_ne (set_of s) i j false h
  answer_other i j (got (b ∷ bs)) s h = ap (λ g. g j) (v.at_data i b bs s)

  serve_self : (i : ℕ) (s : Server) → set_of (serve_fd t set i s) i ≡ stays t set i (set_of s i)
  unfolding serve_fd
  serve_self i s = elim (Bool-cases (set i)) [
    | inl e ↦ rw e (answer_self i (t.reads i) s)
    | inr e ↦ rw e
  ]

  serve_other : (i j : ℕ) (s : Server) → i ≢ j → set_of (serve_fd t set i s) j ≡ set_of s j
  unfolding serve_fd
  serve_other i j s h = elim (Bool-cases (set i)) [
    | inl e ↦ rw e (answer_other i j (t.reads i) s h)
    | inr e ↦ rw e
  ]

  outside :
      (n i j : ℕ) (s : Server) → j < i ⊎ i + n ≤ j → set_of (serve_fds t set n i s) j ≡ set_of s j
  unfolding serve_fds
  outside zero i j s h = refl
  outside (suc n) i j s h =
      outside n (i + 1) j (serve_fd t set i s) (ground arith) ∙ serve_other i j s (ground arith)

  inside :
      (n i j : ℕ) (s : Server)
      → i ≤ j
      → j < i + n
      → set_of (serve_fds t set n i s) j ≡ stays t set j (set_of s j)
  unfolding serve_fds
  inside zero i j s low high = absurd (omega arith)
  inside (suc n) i j s low high = elim (ℕ-cases i j) [
    | inl e ↦
        outside n (i + 1) j (serve_fd t set i s) (ground (arith, e))
        ∙ subst (λ k. set_of (serve_fd t set i s) k ≡ stays t set k (set_of s k)) e (serve_self i s)
    | inr e ↦
        inside n (i + 1) j (serve_fd t set i s) (omega (arith, e)) (omega arith)
        ∙ ap (stays t set j) (serve_other i j s e)
  ]

maxfd-answer : (i : ℕ) (a : Answer) (s : Server) → (answer i a s).maxfd ≡ s.maxfd
unfolding answer
maxfd-answer i (failed e) s = refl
maxfd-answer i (got []) s = refl
maxfd-answer i (got (b ∷ bs)) s = refl

maxfd-serve_fds :
    (t : Turn) (set : ℕ → Bool) (n i : ℕ) (s : Server) → (serve_fds t set n i s).maxfd ≡ s.maxfd
unfolding serve_fds serve_fd
maxfd-serve_fds t set zero i s = refl
maxfd-serve_fds t set (suc n) i s =
    maxfd-serve_fds t set n (i + 1) (serve_fd t set i s)
    ∙ (elim (Bool-cases (set i)) [ inl e ↦ rw e (maxfd-answer i (t.reads i) s) | inr e ↦ rw e ])

no_connection :
    (listenfd n : ℕ) (t : Turn) (set : ℕ → Bool) (s : Server)
    → set listenfd ≡ false
    → after_select listenfd t set n s ≡ ok (serve_fds t set (s.maxfd - listenfd) (listenfd + 1) s)
unfolding after_select
no_connection listenfd n t set s e = rw e

-- In a round of select.c without a new connection, every descriptor above the listening one that
-- select reports is read once: what is written is the answers in upper case, in the order of the
-- descriptors; exactly the descriptors whose data ended leave the set and are closed; every other
-- descriptor, those with a failed read among them, stays in the set and open as it was; and maxfd
-- stays.
pub pass_serves :
    (listenfd n : ℕ) (t : Turn) (s : Server) (ready : ℕ → Bool)
    → t.selected ≡ some (n, ready)
    → left_in ready s listenfd ≡ false
    → listenfd ≤ s.maxfd
    → (s' : Server) × (round listenfd t s ≡ ok s')
      × (s'.trace ≡ s.trace ++ replies t (left_in ready s) (s.maxfd - listenfd) (listenfd + 1))
      × (s'.maxfd ≡ s.maxfd)
      × ((f : ℕ)
          → (listenfd < f) × (f ≤ s.maxfd)
          → (s'.allset f ≡ stays t (left_in ready s) f (s.allset f))
            × (s'.opened f ≡ stays t (left_in ready s) f (s.opened f)))
      × ((f : ℕ)
          → (f ≤ listenfd) ⊎ (s.maxfd < f)
          → (s'.allset f ≡ s.allset f) × (s'.opened f ≡ s.opened f))
unfolding round
pass_serves listenfd n t s ready selected quiet below =
    let set = left_in ready s in
    (
      serve_fds t set (s.maxfd - listenfd) (listenfd + 1) s,
      simp (selected, round) (no_connection listenfd n t set s quiet),
      trace-serve_fds t set (s.maxfd - listenfd) (listenfd + 1) s,
      maxfd-serve_fds t set (s.maxfd - listenfd) (listenfd + 1) s,
      (λ f h. (
        inside (λ x. x.allset) allset-Follows t set (s.maxfd - listenfd) (listenfd + 1) f s
            (omega (arith, h.0)) (omega (arith, h.0, h.1)),
        inside (λ x. x.opened) opened-Follows t set (s.maxfd - listenfd) (listenfd + 1) f s
            (omega (arith, h.0)) (omega (arith, h.0, h.1)),
      )),
      (λ f h.
          let apart : f < listenfd + 1 ⊎ (listenfd + 1) + (s.maxfd - listenfd) ≤ f = elim h [
            | inl low ↦ inl (omega arith)
            | inr high ↦ inr (omega arith)
          ] in
          (
            outside (λ x. x.allset) allset-Follows t set (s.maxfd - listenfd) (listenfd + 1) f s
                apart,
            outside (λ x. x.opened) opened-Follows t set (s.maxfd - listenfd) (listenfd + 1) f s
                apart,
          )),
    )
