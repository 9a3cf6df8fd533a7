-- ===== src/Multiplex/Poll/Invariant.antt =====
-- The table of poll.c: slot 0 holds the listening descriptor, a slot behind `maxfd` was never used, and
-- slots in use hold different open descriptors.
use network.Prelude.{
  subst, ℕ, zero, suc, ◌+◌, ◌<◌, ◌≡◌, ◌≢◌, refl, sym, ap, ◌∙◌, inl, inr, Bool, true, false, Option,
  none, some, arith,
}
use network.Prelude.Maps.{update, update_ne, ℕ-cases}
use network.Prelude.Tests.{leb, ◌==◌, Bool-cases, if◌then◌else◌}
use network.Posix.{Answer}
use network.Multiplex.Poll.{Slot, Server, Turn, open_max, start, mark}
use network.Multiplex.Poll.Serve.{
  served, serve_all, served_self, served_other, maxfd-served, opened-served, leaves, leaves_at,
  is_ready, closing,
}

pub record Inv (lfd : ℕ) (s : Server) : Type 0 where
  pub listener : (s.fds 0).fd ≡ some lfd
  pub bound : s.maxfd < open_max
  pub beyond : (j : ℕ) → s.maxfd < j → ((s.fds j).fd ≡ none) × ((s.fds j).revents ≡ none)
  pub is_open : (i f : ℕ) → (s.fds i).fd ≡ some f → s.opened f ≡ true
  pub distinct : (i j f : ℕ) → (s.fds i).fd ≡ some f → (s.fds j).fd ≡ some f → i ≡ j

only_first : (i lfd f : ℕ) → (if i == 0 then some lfd else none) ≡ some f → (i ≡ 0) × (lfd ≡ f)
only_first i lfd f h = ground arith

pub start-Inv : (lfd : ℕ) (opened : ℕ → Bool) → opened lfd ≡ true → Inv lfd (start lfd opened)
unfolding start
start-Inv lfd opened h = record {
  listener = refl;
  bound = omega arith;
  beyond = λ j q. ground arith;
  is_open = λ i f q. subst (λ g. opened g ≡ true) (only_first i lfd f q).1 h;
  distinct = λ i j f p q. (only_first i lfd f p).0 ∙ sym (only_first j lfd f q).0;
}

Inv-keeps :
    (lfd : ℕ) (s s' : Server)
    → Inv lfd s
    → s'.maxfd ≡ s.maxfd
    → ((j : ℕ) → (s'.fds j).fd ≡ (s.fds j).fd)
    → ((j : ℕ) → s.maxfd < j → s'.fds j ≡ s.fds j)
    → s'.opened ≡ s.opened
    → Inv lfd s'
Inv-keeps lfd s s' v top same high opened = record {
  listener = same 0 ∙ v.listener;
  bound = omega (arith, top, v.bound);
  beyond = λ j q. let q' : s.maxfd < j = omega (arith, top, q) in rw (high j q') (v.beyond j q');
  is_open = λ i f q. ap (λ o. o f) opened ∙ v.is_open i f (sym (same i) ∙ q);
  distinct = λ i j f p q. v.distinct i j f (sym (same i) ∙ p) (sym (same j) ∙ q);
}

no_some : {o : Option ℕ} {f : ℕ} → o ≡ none → o ≢ some f
no_some p q = cc (p, q)

Inv-leaves :
    (lfd : ℕ) (s s' : Server) (i f : ℕ)
    → Inv lfd s
    → 0 < i
    → (s.fds i).fd ≡ some f
    → s'.maxfd ≡ s.maxfd
    → (s'.fds i).fd ≡ none
    → ((j : ℕ) → i ≢ j → s'.fds j ≡ s.fds j)
    → s'.opened ≡ update s.opened f false
    → Inv lfd s'
Inv-leaves lfd s s' i f v low used top gone other opened =
    let apart : (j g : ℕ) → (s'.fds j).fd ≡ some g → i ≢ j =
      λ j g q e. no_some gone (subst (λ k. (s'.fds k).fd ≡ some g) (sym e) q) in
    let same : (j g : ℕ) → (s'.fds j).fd ≡ some g → (s.fds j).fd ≡ some g =
      λ j g q. ap (λ sl. Slot.fd sl) (sym (other j (apart j g q))) ∙ q in
    record {
      listener = ap (λ sl. Slot.fd sl) (other 0 (omega arith)) ∙ v.listener;
      bound = omega (arith, top, v.bound);
      beyond = λ j q.
          let q' : s.maxfd < j = omega (arith, top, q) in
          let unused = v.beyond j q' in
          let i_not_j : i ≢ j = λ e. no_some unused.0 (subst (λ k. (s.fds k).fd ≡ some f) e used) in
          rw (other j i_not_j) unused;
      is_open = λ j g q.
          let f_not_g : f ≢ g =
            λ e. apart j g q (v.distinct i j g (used ∙ ap some e) (same j g q)) in
          ap (λ o. o g) opened ∙ update_ne s.opened f g false f_not_g ∙ v.is_open j g (same j g q);
      distinct = λ j k g p q. v.distinct j k g (same j g p) (same k g q);
    }

fd_mark : (ready : ℕ → Bool) (i : ℕ) (sl : Slot) → (mark ready i sl).fd ≡ sl.fd
unfolding mark
fd_mark ready i sl = refl

-- The table behind a `poll` that succeeded.
abbrev pub marked : Server → (ℕ → Bool) → Server
marked s ready = record s { fds = λ i. if leb i s.maxfd then mark ready i (s.fds i) else s.fds i }

pub fd-marked : (s : Server) (ready : ℕ → Bool) (i : ℕ) → ((marked s ready).fds i).fd ≡ (s.fds i).fd
fd-marked s ready i = elim (Bool-cases (leb i s.maxfd)) [
  | inl e ↦ rw e (fd_mark ready i (s.fds i))
  | inr e ↦ rw e
]

pub marked_beyond :
    (s : Server) (ready : ℕ → Bool) (i : ℕ) → s.maxfd < i → (marked s ready).fds i ≡ s.fds i
marked_beyond s ready i h = ground arith

pub marked-Inv : (lfd : ℕ) (s : Server) (ready : ℕ → Bool) → Inv lfd s → Inv lfd (marked s ready)
marked-Inv lfd s ready v =
    Inv-keeps lfd s (marked s ready) v refl (fd-marked s ready) (marked_beyond s ready) refl

leaves_used :
    (reads : ℕ → Answer) (o : Option ℕ) (r : Bool)
    → leaves_at reads o r ≡ true
    → (f : ℕ) × (o ≡ some f)
leaves_used reads none r h = absurd (cc h)
leaves_used reads (some f) r h = (f, refl)

pub served-Inv :
    (lfd : ℕ) (t : Turn) (i : ℕ) (s : Server) → 0 < i → Inv lfd s → Inv lfd (served t i s)
served-Inv lfd t i s low v = elim (Bool-cases (leaves t (s.fds i))) [
  | inr e ↦
      let same : (j : ℕ) → (served t i s).fds j ≡ s.fds j = λ j. elim (ℕ-cases i j) [
        | inl q ↦ subst (λ k. (served t i s).fds k ≡ s.fds k) q (served_self t i s ∙ rw e)
        | inr q ↦ served_other t i j s q
      ] in
      Inv-keeps lfd s (served t i s) v (maxfd-served t i s) (λ j. ap (λ sl. Slot.fd sl) (same j))
        (λ j q. same j) (opened-served t i s ∙ rw e)
  | inl e ↦
      let (f, used) = leaves_used t.reads (s.fds i).fd (is_ready (s.fds i).revents) e in
      Inv-leaves lfd s (served t i s) i f v low used (maxfd-served t i s)
        (ap (λ sl. Slot.fd sl) (served_self t i s) ∙ rw e) (λ j q. served_other t i j s q)
        (opened-served t i s ∙ rw e (ap (λ o. closing o s.opened) used))
]

pub serve_all-Inv :
    (lfd : ℕ) (t : Turn) (n i : ℕ) (s : Server) → 0 < i → Inv lfd s → Inv lfd (serve_all t n i s)
unfolding serve_all
serve_all-Inv lfd t zero i s low v = v
serve_all-Inv lfd t (suc n) i s low v =
    serve_all-Inv lfd t n (i + 1) (served t i s) (omega arith) (served-Inv lfd t i s low v)
