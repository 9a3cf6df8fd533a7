-- ===== src/Multiplex/Select/Serve.antt =====
-- The count of `nready` in select优化.c: when the loop over the clients ends early.
use network.Prelude.{
  ℕ, zero, suc, ◌+◌, ◌≤◌, ◌≡◌, ◌≢◌, refl, sym, ap, ap₂, ◌∙◌, inl, inr, Bool, true, false, Option,
  none, some, List, [], ◌∷◌, ◌++◌, map, append-nil, append_assoc, arith,
}
use network.Prelude.Int.{ℤ, pos}
use network.Prelude.Maps.{update_ne}
use network.Prelude.Tests.{Bool-cases, Option-cases, if◌then◌else◌}
use network.Posix.{Answer, got, failed, Io, wrote, toupper}
use network.Multiplex.Select.{Server, Turn, answer, serve_clients, is_zero}

-- Whether an entry is ready.
abbrev pub waits : (ℕ → Bool) → Option ℕ → Bool
waits set none = false
waits set (some f) = set f

-- How many of the entries from `i` on, n in all, are ready.
unfoldable pub ready_count : (ℕ → Bool) → ℕ → ℕ → (ℕ → Option ℕ) → ℕ
ready_count set zero i client = 0
ready_count set (suc n) i client =
    (if waits set (client i) then 1 else 0) + ready_count set n (i + 1) client

-- Each ready entry is served; nothing is counted.
pub serve_at : Turn → (ℕ → Bool) → ℕ → Option ℕ → Server → Server
serve_at t set i none s = s
serve_at t set i (some f) s = if set f then answer i f (t.reads f) s else s

pub serve_all : Turn → (ℕ → Bool) → ℕ → ℕ → Server → Server
serve_all t set zero i s = s
serve_all t set (suc n) i s = serve_all t set n (i + 1) (serve_at t set i (s.client i) s)

answer_other :
    (i j f : ℕ) (a : Answer) (s : Server) → i ≢ j → (answer i f a s).client j ≡ s.client j
unfolding answer
answer_other i j f (failed e) s h = refl
answer_other i j f (got []) s h = update_ne s.client i j none h
answer_other i j f (got (b ∷ bs)) s h = refl

pub serve_at_other :
    (t : Turn) (set : ℕ → Bool) (i j : ℕ) (o : Option ℕ) (s : Server)
    → i ≢ j
    → (serve_at t set i o s).client j ≡ s.client j
unfolding serve_at
serve_at_other t set i j none s h = refl
serve_at_other t set i j (some f) s h = elim (Bool-cases (set f)) [
  | inl e ↦ rw e (answer_other i j f (t.reads f) s h)
  | inr e ↦ rw e
]

count_same :
    (set : ℕ → Bool) (n i : ℕ) (c d : ℕ → Option ℕ)
    → ((j : ℕ) → i ≤ j → c j ≡ d j)
    → ready_count set n i c ≡ ready_count set n i d
unfolding ready_count
count_same set zero i c d h = refl
count_same set (suc n) i c d h =
    ap₂ (λ o m. (if waits set o then 1 else 0) + m) (h i (omega arith))
      (count_same set n (i + 1) c d (λ j q. h j (omega arith)))

not_ready :
    (t : Turn) (set : ℕ → Bool) (i : ℕ) (o : Option ℕ) (s : Server)
    → waits set o ≡ false
    → serve_at t set i o s ≡ s
unfolding serve_at
not_ready t set i none s h = refl
not_ready t set i (some f) s h = rw h

-- Where nobody is ready, serving changes nothing.
pub serve_all-nobody :
    (t : Turn) (set : ℕ → Bool) (n i : ℕ) (s : Server)
    → ready_count set n i s.client ≡ 0
    → serve_all t set n i s ≡ s
unfolding serve_all ready_count
serve_all-nobody t set zero i s h = refl
serve_all-nobody t set (suc n) i s h = elim (Bool-cases (waits set (s.client i))) [
  | inl e ↦ absurd (ground (arith, h, e))
  | inr e ↦
      ap (λ s'. serve_all t set n (i + 1) s') (not_ready t set i (s.client i) s e)
      ∙ serve_all-nobody t set n (i + 1) s (ground (arith, h, e))
]

pass_by :
    (t : Turn) (set : ℕ → Bool) (n i : ℕ) (nready : ℤ) (s : Server)
    → waits set (s.client i) ≡ false
    → serve_clients t set (suc n) i nready s ≡ serve_clients t set n (i + 1) nready s
unfolding serve_clients
pass_by t set n i nready s h = elim (Option-cases (s.client i)) [
  | inl e ↦ rw (e, serve_clients)
  | inr (f, e) ↦
      let quiet : set f ≡ false = ap (waits set) (sym e) ∙ h in rw (e, serve_clients, quiet)
]

attend :
    (t : Turn) (set : ℕ → Bool) (n i m : ℕ) (s : Server)
    → waits set (s.client i) ≡ true
    → let s' = serve_at t set i (s.client i) s in
      serve_clients t set (suc n) i (pos (suc m)) s
      ≡ (if is_zero (pos m) then s' else serve_clients t set n (i + 1) (pos m) s')
unfolding serve_clients serve_at
attend t set n i m s h = elim (Option-cases (s.client i)) [
  | inl e ↦ absurd (cc (ap (waits set) (sym e) ∙ h))
  | inr (f, e) ↦ let here : set f ≡ true = ap (waits set) (sym e) ∙ h in rw (e, serve_clients, here)
]

later_count :
    (t : Turn) (set : ℕ → Bool) (n i : ℕ) (s : Server)
    → ready_count set n (i + 1) (serve_at t set i (s.client i) s).client
      ≡ ready_count set n (i + 1) s.client
later_count t set n i s =
    count_same set n (i + 1) _ s.client
      (λ j q. serve_at_other t set i j (s.client i) s (omega arith))

counted :
    (set : ℕ → Bool) (n i k : ℕ) (client : ℕ → Option ℕ)
    → waits set (client i) ≡ true
    → ready_count set (suc n) i client ≤ k
    → suc (ready_count set n (i + 1) client) ≤ k
unfolding ready_count
counted set n i k client e h = ground (arith, h, e)

uncounted :
    (set : ℕ → Bool) (n i k : ℕ) (client : ℕ → Option ℕ)
    → waits set (client i) ≡ false
    → ready_count set (suc n) i client ≤ k
    → ready_count set n (i + 1) client ≤ k
unfolding ready_count
uncounted set n i k client e h = ground (arith, h, e)

attend_rest :
    (t : Turn) (set : ℕ → Bool) (n i k : ℕ) (s : Server)
    → suc (ready_count set n (i + 1) s.client) ≤ k
    → waits set (s.client i) ≡ true
    → ((m : ℕ) (s' : Server)
        → ready_count set n (i + 1) s'.client ≤ m
        → serve_clients t set n (i + 1) (pos m) s' ≡ serve_all t set n (i + 1) s')
    → serve_clients t set (suc n) i (pos k) s
      ≡ serve_all t set n (i + 1) (serve_at t set i (s.client i) s)
attend_rest t set n i zero s low e rest = absurd (omega arith)
attend_rest t set n i (suc zero) s low e rest =
    attend t set n i 0 s e
    ∙ sym (
        serve_all-nobody t set n (i + 1) (serve_at t set i (s.client i) s)
          (omega (arith, low, later_count t set n i s)))
attend_rest t set n i (suc (suc m)) s low e rest =
    attend t set n i (suc m) s e
    ∙ rest (suc m) (serve_at t set i (s.client i) s) (omega (arith, low, later_count t set n i s))

-- Counted down from at least the number of ready entries, the loop serves each of them.
pub serve_clients_lem :
    (t : Turn) (set : ℕ → Bool) (n i nready : ℕ) (s : Server)
    → ready_count set n i s.client ≤ nready
    → serve_clients t set n i (pos nready) s ≡ serve_all t set n i s
unfolding serve_clients serve_all
serve_clients_lem t set zero i nready s h = refl
serve_clients_lem t set (suc n) i nready s h = elim (Bool-cases (waits set (s.client i))) [
  | inr e ↦
      pass_by t set n i (pos nready) s e
      ∙ serve_clients_lem t set n (i + 1) nready s (uncounted set n i nready s.client e h)
      ∙ ap (λ s'. serve_all t set n (i + 1) s') (sym (not_ready t set i (s.client i) s e))
  | inl e ↦
      attend_rest t set n i nready s (counted set n i nready s.client e h) e
        (λ m s' q. serve_clients_lem t set n (i + 1) m s' q)
]

-- What the entries from `i` on are answered, in their order.
abbrev pub echoed : ℕ → Answer → List Io
echoed f (failed e) = []
echoed f (got []) = []
echoed f (got (b ∷ bs)) = wrote f (map toupper (b ∷ bs)) ∷ wrote 1 (map toupper (b ∷ bs)) ∷ []

abbrev pub reply : Turn → (ℕ → Bool) → Option ℕ → List Io
reply t set none = []
reply t set (some f) = if set f then echoed f (t.reads f) else []

unfoldable pub replies : Turn → (ℕ → Bool) → ℕ → ℕ → (ℕ → Option ℕ) → List Io
replies t set zero i client = []
replies t set (suc n) i client = reply t set (client i) ++ replies t set n (i + 1) client

replies_same :
    (t : Turn) (set : ℕ → Bool) (n i : ℕ) (c d : ℕ → Option ℕ)
    → ((j : ℕ) → i ≤ j → c j ≡ d j)
    → replies t set n i c ≡ replies t set n i d
unfolding replies
replies_same t set zero i c d h = refl
replies_same t set (suc n) i c d h =
    ap₂ (λ o rest. reply t set o ++ rest) (h i (omega arith))
      (replies_same t set n (i + 1) c d (λ j q. h j (omega arith)))

trace-answer : (i f : ℕ) (a : Answer) (s : Server) → (answer i f a s).trace ≡ s.trace ++ echoed f a
unfolding answer
trace-answer i f (failed e) s = sym (append-nil s.trace)
trace-answer i f (got []) s = sym (append-nil s.trace)
trace-answer i f (got (b ∷ bs)) s = refl

trace-serve_at :
    (t : Turn) (set : ℕ → Bool) (i : ℕ) (o : Option ℕ) (s : Server)
    → (serve_at t set i o s).trace ≡ s.trace ++ reply t set o
unfolding serve_at
trace-serve_at t set i none s = sym (append-nil s.trace)
trace-serve_at t set i (some f) s = elim (Bool-cases (set f)) [
  | inl e ↦ rw e (trace-answer i f (t.reads f) s)
  | inr e ↦ rw e (sym (append-nil s.trace))
]

pub trace-serve_all :
    (t : Turn) (set : ℕ → Bool) (n i : ℕ) (s : Server)
    → (serve_all t set n i s).trace ≡ s.trace ++ replies t set n i s.client
unfolding serve_all replies
trace-serve_all t set zero i s = sym (append-nil s.trace)
trace-serve_all t set (suc n) i s =
    let s' = serve_at t set i (s.client i) s in
    trace-serve_all t set n (i + 1) s'
    ∙ ap₂ (λ a b. a ++ b) (trace-serve_at t set i (s.client i) s)
        (replies_same t set n (i + 1) s'.client s.client
          (λ j q. serve_at_other t set i j (s.client i) s (omega arith)))
    ∙ append_assoc s.trace (reply t set (s.client i)) (replies t set n (i + 1) s.client)
