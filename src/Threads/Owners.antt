-- ===== src/Threads/Owners.antt =====
-- Which client a thread of server3.c serves, in every order in which main and the threads run.
use network.Prelude.{
  ℕ, zero, suc, ◌<◌, ◌≡◌, ◌≢◌, refl, sym, ap, ◌∙◌, ◌⊎◌, inl, inr, Bool, true, false, Option, none,
  some, List, [], ◌∷◌, ◌++◌, arith, subst,
}
use network.Prelude.Maps.{update, update_self, update_ne, ℕ-cases}
use network.Prelude.Tests.{ltb, Bool-cases, ltb→lt}
use network.Prelude.Lists.{length, length-append}
use network.Outcome.{ok, undefined}
use network.Threads.{
  Thread, absent, created, serving, finished, Server, start, accept_client, begin, finish,
}
use network.Threads.Room.{joined, has_room, no_room}

-- The j-th client, in the order of the connections.
pub client_at : List ℕ → ℕ → Option ℕ
client_at [] j = none
client_at (c ∷ cs) zero = some c
client_at (c ∷ cs) (suc j) = client_at cs j

client_at-last : (h : List ℕ) (c : ℕ) → client_at (h ++ (c ∷ [])) (length h) ≡ some c
unfolding client_at
client_at-last [] c = refl
client_at-last (x ∷ h) c = client_at-last h c

client_at_before :
    (h : List ℕ) (c j : ℕ) → j < length h → client_at (h ++ (c ∷ [])) j ≡ client_at h j
unfolding client_at
client_at_before [] c j q = absurd (omega arith)
client_at_before (x ∷ h) c zero q = refl
client_at_before (x ∷ h) c (suc j) q = client_at_before h c j (omega arith)

client_at-some : (h : List ℕ) (j : ℕ) → j < length h → (c : ℕ) × (client_at h j ≡ some c)
unfolding client_at
client_at-some [] j q = absurd (omega arith)
client_at-some (x ∷ h) zero q = (x, refl)
client_at-some (x ∷ h) (suc j) q = client_at-some h j (omega arith)

client_at_bound : (h : List ℕ) (j c : ℕ) → client_at h j ≡ some c → j < length h
unfolding client_at
client_at_bound [] j c e = absurd (cc e)
client_at_bound (x ∷ h) zero c e = omega arith
client_at_bound (x ∷ h) (suc j) c e = omega (arith, client_at_bound h j c e)

-- A step of main or of a thread, with the clients that have connected so far.
pub data Step (s : Server) (h : List ℕ) : Server → List ℕ → Type 0 where
  accepts :
      (cfd : ℕ) {s' : Server}
      → accept_client (some cfd) true s ≡ ok s'
      → Step s h s' (h ++ (cfd ∷ []))
  begins : (j : ℕ) {s' : Server} → begin j s ≡ ok s' → Step s h s' h
  finishes : (j : ℕ) → Step s h (finish j s) h

pub data Reach (opened : ℕ → Bool) : Server → List ℕ → Type 0 where
  here : Reach opened (start opened) []
  next : {s s' : Server} {h h' : List ℕ} → Reach opened s h → Step s h s' h' → Reach opened s' h'

-- A thread's argument is the entry with its own number; what it serves or served is its own client.
abbrev Owner : List ℕ → ℕ → Thread → Type 0
Owner h j absent = Unit
Owner h j (created k) = (k ≡ j) × (j < length h)
Owner h j (serving c) = client_at h j ≡ some c
Owner h j (finished c) = client_at h j ≡ some c

pub record Inv (s : Server) (h : List ℕ) : Type 0 where
  pub count : s.i ≡ length h
  pub entries : (j : ℕ) → j < length h → s.ttid j ≡ client_at h j
  pub owners : (j : ℕ) → Owner h j (s.threads j)

Owner-more : (h : List ℕ) (c j : ℕ) (t : Thread) → Owner h j t → Owner (h ++ (c ∷ [])) j t
Owner-more h c j absent o = tt
Owner-more h c j (created k) o = (o.0, omega (arith, o.1, length-append h (c ∷ [])))
Owner-more h c j (serving d) o = client_at_before h c j (client_at_bound h j d o) ∙ o
Owner-more h c j (finished d) o = client_at_before h c j (client_at_bound h j d o) ∙ o

pub joined-Inv :
    (cfd : ℕ) (s : Server) (h : List ℕ) → Inv s h → Inv (joined cfd s) (h ++ (cfd ∷ []))
joined-Inv cfd s h v = record {
  count = omega (arith, v.count, length-append h (cfd ∷ []));
  entries = λ j q. elim (ℕ-cases s.i j) [
    | inl e ↦
        subst (λ m. update s.ttid s.i (some cfd) m ≡ client_at (h ++ (cfd ∷ [])) m) e
          (update_self s.ttid s.i (some cfd)
            ∙ sym (ap (client_at (h ++ (cfd ∷ []))) v.count ∙ client_at-last h cfd))
    | inr e ↦
        let low : j < length h = omega (arith, q, e, v.count, length-append h (cfd ∷ [])) in
        update_ne s.ttid s.i j (some cfd) e ∙ v.entries j low ∙ sym (client_at_before h cfd j low)
  ];
  owners = λ j. elim (ℕ-cases s.i j) [
    | inl e ↦
        subst (λ m. Owner (h ++ (cfd ∷ [])) m (update s.threads s.i (created s.i) m)) e
          (subst (Owner (h ++ (cfd ∷ [])) s.i) (sym (update_self s.threads s.i (created s.i)))
            (refl, omega (arith, v.count, length-append h (cfd ∷ []))))
    | inr e ↦
        subst (Owner (h ++ (cfd ∷ [])) j) (sym (update_ne s.threads s.i j (created s.i) e))
          (Owner-more h cfd j (s.threads j) (v.owners j))
  ];
}

-- One thread moves on to a state that fits its number.
moved-Inv :
    (s s' : Server) (h : List ℕ) (j : ℕ) (t : Thread)
    → Inv s h
    → Owner h j t
    → s'.i ≡ s.i
    → s'.ttid ≡ s.ttid
    → s'.threads ≡ update s.threads j t
    → Inv s' h
moved-Inv s s' h j t v o ei et es = record {
  count = ei ∙ v.count;
  entries = λ k q. ap (λ f. f k) et ∙ v.entries k q;
  owners = λ k. elim (ℕ-cases j k) [
    | inl e ↦
        subst (λ m. Owner h m (s'.threads m)) e
          (subst (Owner h j) (sym (ap (λ f. f j) es ∙ update_self s.threads j t)) o)
    | inr e ↦ subst (Owner h k) (sym (ap (λ f. f k) es ∙ update_ne s.threads j k t e)) (v.owners k)
  ];
}

ok_injective : {a b : Server} → ok a ≡ ok b → a ≡ b
ok_injective q = cc

undefined_ok : {a : Server} → undefined ≢ ok a
undefined_ok q = cc

accepts-Inv :
    (cfd : ℕ) (s s' : Server) (h : List ℕ)
    → accept_client (some cfd) true s ≡ ok s'
    → Inv s h
    → Inv s' (h ++ (cfd ∷ []))
accepts-Inv cfd s s' h run v = elim (Bool-cases (ltb s.i 256)) [
  | inl e ↦
      subst (λ x. Inv x (h ++ (cfd ∷ [])))
        (ok_injective (sym (has_room cfd s (ltb→lt s.i 256 e)) ∙ run)) (joined-Inv cfd s h v)
  | inr e ↦ absurd (undefined_ok (sym (no_room cfd s (ground (arith, e))) ∙ run))
]

Thread-cases :
    (t : Thread)
    → (t ≡ absent)
      ⊎ ((k : ℕ) × (t ≡ created k))
      ⊎ ((c : ℕ) × (t ≡ serving c))
      ⊎ ((c : ℕ) × (t ≡ finished c))
Thread-cases absent = inl refl
Thread-cases (created k) = inr (inl (k, refl))
Thread-cases (serving c) = inr (inr (inl (c, refl)))
Thread-cases (finished c) = inr (inr (inr (c, refl)))

-- What `begin` does, in a state of the program.
pub begin_lem :
    (j : ℕ) (s : Server) (h : List ℕ) → Inv s h → (s' : Server) × (begin j s ≡ ok s') × Inv s' h
unfolding begin
begin_lem j s h v = elim (Thread-cases (s.threads j)) [
  | inl e ↦ (s, rw (e, begin), v)
  | inr (inl (k, e)) ↦
      let own : (k ≡ j) × (j < length h) = subst (Owner h j) e (v.owners j) in
      let (c, client) = client_at-some h j own.1 in
      let entry : s.ttid k ≡ some c = ap s.ttid own.0 ∙ v.entries j own.1 ∙ client in
      let s' = record s { threads = update s.threads j (serving c) } in
      (s', rw (e, begin, entry), moved-Inv s s' h j (serving c) v client refl refl refl)
  | inr (inr (inl (c, e))) ↦ (s, rw (e, begin), v)
  | inr (inr (inr (c, e))) ↦ (s, rw (e, begin), v)
]

pub finish-Inv : (j : ℕ) (s : Server) (h : List ℕ) → Inv s h → Inv (finish j s) h
unfolding finish
finish-Inv j s h v = elim (Thread-cases (s.threads j)) [
  | inl e ↦ subst (λ x. Inv x h) (sym (rw (e, finish))) v
  | inr (inl (k, e)) ↦ subst (λ x. Inv x h) (sym (rw (e, finish))) v
  | inr (inr (inl (c, e))) ↦
      let s' = record s {
        threads = update s.threads j (finished c);
        opened = update s.opened c false;
      } in
      subst (λ x. Inv x h) (sym (closes j c s e))
        (moved-Inv s s' h j (finished c) v (subst (Owner h j) e (v.owners j)) refl refl refl)
  | inr (inr (inr (c, e))) ↦ subst (λ x. Inv x h) (sym (rw (e, finish))) v
]
  where
    closes :
        (j c : ℕ) (s : Server)
        → s.threads j ≡ serving c
        → finish j s
          ≡ record s { threads = update s.threads j (finished c); opened = update s.opened c false }
    closes j c s e = rw (e, finish)

Step-Inv : {s s' : Server} {h h' : List ℕ} → Step s h s' h' → Inv s h → Inv s' h'
Step-Inv {s} {s'} {h} (accepts cfd run) v = accepts-Inv cfd s s' h run v
Step-Inv {s} {s'} {h} (begins j run) v =
    let (t, run', w) = begin_lem j s h v in subst (λ x. Inv x h) (ok_injective (sym run' ∙ run)) w
Step-Inv {s} {s'} {h} (finishes j) v = finish-Inv j s h v

pub start-Inv : (opened : ℕ → Bool) → Inv (start opened) []
unfolding start
start-Inv opened = record { count = refl; entries = λ j q. absurd (omega arith); owners = λ j. tt }

Reach-Inv : {opened : ℕ → Bool} {s : Server} {h : List ℕ} → Reach opened s h → Inv s h
Reach-Inv {opened} here = start-Inv opened
Reach-Inv (next path step) = Step-Inv step (Reach-Inv path)

-- In every order of the steps of main and of the threads of server3.c, the j-th thread serves the
-- j-th client that connected, whenever it comes to run, and no thread reads an entry without a
-- value.
pub threads_serve_own :
    (opened : ℕ → Bool) (s : Server) (h : List ℕ) (j : ℕ)
    → Reach opened s h
    → ((c : ℕ) → s.threads j ≡ serving c → client_at h j ≡ some c)
      × ((s' : Server) × (begin j s ≡ ok s'))
threads_serve_own opened s h j path =
    let v = Reach-Inv path in
    let (s', run, w) = begin_lem j s h v in ((λ c e. subst (Owner h j) e (v.owners j)), (s', run))
