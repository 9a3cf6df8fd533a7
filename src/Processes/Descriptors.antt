-- ===== src/Processes/Descriptors.antt =====
-- Who has which descriptor open in the processes of server2.c.
use network.Prelude.{
  ℕ, ◌≡◌, ◌≢◌, refl, sym, ap, ◌∙◌, ◌⊎◌, inl, inr, Bool, true, false, some, List, [], ◌∷◌, subst,
}
use network.Prelude.Maps.{update, update_self, update_ne, ℕ-cases}
use network.Prelude.Tests.{◌==◌, Bool-cases, Option-cases, if◌then◌else◌}
use network.Outcome.{ok, exited, ◌>>=◌}
use network.Processes.{Child, Family, Turn, start, be_child, be_parent, round, rounds}

-- What a process shares with the start, and nothing of the clients.
abbrev pub AllChildren : (Child → Type 0) → List Child → Type 0
AllChildren P [] = Unit
AllChildren P (c ∷ cs) = P c × AllChildren P cs

-- A child has its client's descriptor, and of the others those that were open at the start, without the
-- listening one.
abbrev pub HasOwn : ℕ → (ℕ → Bool) → Child → Type 0
HasOwn lfd opened c =
    (f : ℕ) → c.opened f ≡ (if lfd == f then false else if c.client == f then true else opened f)

pub record Inv (lfd : ℕ) (opened : ℕ → Bool) (s : Family) : Type 0 where
  pub parent : (f : ℕ) → s.opened f ≡ opened f
  pub children : AllChildren (HasOwn lfd opened) s.running

-- `accept` gives a descriptor that the parent does not have open.
abbrev pub IsFresh : (ℕ → Bool) → Turn → Type 0
IsFresh opened t = (cfd : ℕ) → t.accepted ≡ some cfd → opened cfd ≡ false

abbrev pub AllFresh : (ℕ → Bool) → List Turn → Type 0
AllFresh opened [] = Unit
AllFresh opened (t ∷ ts) = IsFresh opened t × AllFresh opened ts

pub ok_injective : {a b : Family} → ok a ≡ ok b → a ≡ b
ok_injective q = cc

-- What a round leaves, where it does not end the parent.
abbrev pub forked : ℕ → ℕ → Family → Family
forked lfd cfd s = record s {
  opened = update (update s.opened cfd true) cfd false;
  running = be_child lfd cfd (update s.opened cfd true) ∷ s.running;
  handler = true;
}

pub round_cases :
    (lfd : ℕ) (t : Turn) (s : Family)
    → (round lfd t s ≡ exited)
      ⊎ ((cfd : ℕ) × (t.accepted ≡ some cfd) × (round lfd t s ≡ ok (forked lfd cfd s)))
unfolding round be_parent
round_cases lfd t s = elim (Option-cases t.accepted) [
  | inl e ↦ inl (rw (e, round))
  | inr (cfd, e) ↦ elim (Bool-cases t.forked) [
    | inr q ↦ inl (rw (e, round, q))
    | inl q ↦ elim (Bool-cases t.installed) [
      | inr p ↦ inl (rw (e, round, q, p))
      | inl p ↦ inr (cfd, e, rw (e, round, q, p))
    ]
  ]
]

closed_again :
    (opened : ℕ → Bool) (cfd f : ℕ)
    → opened cfd ≡ false
    → update (update opened cfd true) cfd false f ≡ opened f
closed_again opened cfd f h = elim (ℕ-cases cfd f) [
  | inl e ↦
      subst (λ g. update (update opened cfd true) cfd false g ≡ opened g) e
        (update_self _ cfd false ∙ sym h)
  | inr e ↦ update_ne _ cfd f false e ∙ update_ne opened cfd f true e
]

child-HasOwn :
    (lfd cfd : ℕ) (opened : ℕ → Bool) (s : Family)
    → Inv lfd opened s
    → HasOwn lfd opened (be_child lfd cfd (update s.opened cfd true))
unfolding be_child update
child-HasOwn lfd cfd opened s v f =
    ap (λ b. if lfd == f then false else if cfd == f then true else b) (v.parent f)

forked-Inv :
    (lfd cfd : ℕ) (opened : ℕ → Bool) (s : Family)
    → opened cfd ≡ false
    → Inv lfd opened s
    → Inv lfd opened (forked lfd cfd s)
forked-Inv lfd cfd opened s h v = record {
  parent = λ f. closed_again s.opened cfd f (v.parent cfd ∙ h) ∙ v.parent f;
  children = (child-HasOwn lfd cfd opened s v, v.children);
}

pub run_rest :
    (lfd : ℕ) (t : Turn) (ts : List Turn) (s s' s'' : Family)
    → round lfd t s ≡ ok s'
    → rounds lfd (t ∷ ts) s ≡ ok s''
    → rounds lfd ts s' ≡ ok s''
unfolding rounds
run_rest lfd t ts s s' s'' e run = ap (λ o. o >>= λ x. rounds lfd ts x) (sym e) ∙ run

pub run_exits :
    (lfd : ℕ) (t : Turn) (ts : List Turn) (s : Family)
    → round lfd t s ≡ exited
    → rounds lfd (t ∷ ts) s ≡ exited
unfolding rounds
run_exits lfd t ts s e = ap (λ o. o >>= λ x. rounds lfd ts x) e

pub exited_ok : {a : Family} → exited ≢ ok a
exited_ok q = cc

rounds-Inv :
    (lfd : ℕ) (opened : ℕ → Bool) (ts : List Turn) (s s' : Family)
    → AllFresh opened ts
    → Inv lfd opened s
    → rounds lfd ts s ≡ ok s'
    → Inv lfd opened s'
unfolding rounds
rounds-Inv lfd opened [] s s' fresh v run = subst (Inv lfd opened) (ok_injective run) v
rounds-Inv lfd opened (t ∷ ts) s s' fresh v run = elim (round_cases lfd t s) [
  | inl e ↦ absurd (exited_ok (sym (run_exits lfd t ts s e) ∙ run))
  | inr (cfd, e, made) ↦
      rounds-Inv lfd opened ts (forked lfd cfd s) s' fresh.1
        (forked-Inv lfd cfd opened s (fresh.0 cfd e) v)
        (run_rest lfd t ts s (forked lfd cfd s) s' made run)
]

-- After any rounds of the parent of server2.c, in which accept gives only descriptors that were
-- not open at the start, the parent has open exactly what it had at the start, and each running
-- child that, less the listening descriptor, and its own client's.
pub family_descriptors :
    (lfd : ℕ) (opened : ℕ → Bool) (ts : List Turn) (s : Family)
    → AllFresh opened ts
    → rounds lfd ts (start opened) ≡ ok s
    → Inv lfd opened s
unfolding start
family_descriptors lfd opened ts s fresh run =
    rounds-Inv lfd opened ts (start opened) s fresh (start-Inv lfd opened) run
  where
    start-Inv : (lfd : ℕ) (opened : ℕ → Bool) → Inv lfd opened (start opened)
    start-Inv lfd opened = record { parent = λ f. refl; children = tt }
