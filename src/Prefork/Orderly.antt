-- ===== src/Prefork/Orderly.antt =====
-- One child: what it has to do, and what its status says of it.
use network.Prelude.{
  ℕ, suc, ◌+◌, ◌≤◌, ◌<◌, ◌≡◌, refl, sym, ap, subst, ◌∙◌, ◌⊎◌, inl, inr, Bool, true, false, ◌&&◌,
  List, [], ◌∷◌, arith,
}
use network.Prelude.Lists.{length, length-append}
use network.Prelude.Maps.{update, update_self, update_ne, ℕ-cases}
use network.Prelude.Counts.{Search, search_lem}
use network.Prelude.Tests.{◌==◌, ==_iff, Bool-cases}
use network.Prefork.{Child, is_ready, find_ready, pass, finish, collect}

-- What a child has to do and what it has told of is at most one client, as its status says.
abbrev pub IsOrderly : Child → Type 0
IsOrderly c = (length c.clients + c.told ≡ c.child_status) × (c.child_status ≤ 1)

pub find_ready_lem :
    (n i : ℕ) (child : ℕ → Child) → Search is_ready n child i (find_ready n child i)
unfolding find_ready
find_ready_lem n i child = search_lem is_ready n child i

pub pass-IsOrderly : (fd : ℕ) (c : Child) → IsOrderly c → is_ready c ≡ true → IsOrderly (pass fd c)
unfolding pass
pass-IsOrderly fd c (tally, low) idle =
    let zero_status = (==_iff c.child_status 0).0 idle in
    (omega (arith, tally, zero_status, length-append c.clients (fd ∷ [])), omega arith)

pub and_right : (a b : Bool) → (a && b) ≡ true → b ≡ true
and_right true b e = e
and_right false b e = absurd (cc e)

pub clients-cases : (l : List ℕ) → (l ≡ []) ⊎ ((fd : ℕ) × (rest : List ℕ) × (l ≡ fd ∷ rest))
clients-cases [] = inl refl
clients-cases (fd ∷ rest) = inr (fd, rest, refl)

pub finish-IsOrderly : (c : Child) → IsOrderly c → IsOrderly (finish c)
unfolding finish
finish-IsOrderly c (tally, low) = elim (clients-cases c.clients) [
  | inl e ↦ rw (finish, e) (tally, low)
  | inr (fd, rest, e) ↦
      let fewer : length c.clients ≡ suc (length rest) = ap (λ l. length l) e in
      rw (finish, e) (omega (arith, tally, fewer), low)
]

pub is_ready-finish : (c : Child) → is_ready (finish c) ≡ is_ready c
unfolding finish
is_ready-finish c = elim (clients-cases c.clients) [
  | inl e ↦ rw (finish, e)
  | inr (fd, rest, e) ↦ rw (finish, e)
]

pub collect-IsOrderly : (c : Child) → IsOrderly c → 0 < c.told → IsOrderly (collect c)
unfolding collect
collect-IsOrderly c (tally, low) some_told = (omega (arith, tally, low, some_told), omega arith)

pub is_busy : (c : Child) → IsOrderly c → 0 < c.told → is_ready c ≡ false
is_busy c (tally, low) told = elim (Bool-cases (c.child_status == 0)) [
  | inr e ↦ e
  | inl e ↦ absurd (omega (arith, tally, told, (==_iff c.child_status 0).0 e))
]

pub told_kept :
    (child : ℕ → Child) (k : ℕ) (c : Child)
    → c.told ≡ (child k).told
    → (i : ℕ) → (update child k c i).told ≡ (child i).told
told_kept child k c same i = elim (ℕ-cases k i) [
  | inl e ↦
      subst (λ j. (update child k c j).told ≡ (child j).told) e
        (ap Child.told (update_self child k c) ∙ same)
  | inr e ↦ ap Child.told (update_ne child k i c e)
]

pub update-IsOrderly :
    (child : ℕ → Child) (k : ℕ) (c : Child)
    → ((i : ℕ) → IsOrderly (child i))
    → IsOrderly c
    → (i : ℕ) → IsOrderly (update child k c i)
update-IsOrderly child k c all it i = elim (ℕ-cases k i) [
  | inl e ↦ subst IsOrderly (sym (ap (λ j. update child k c j) (sym e) ∙ update_self child k c)) it
  | inr e ↦ subst IsOrderly (sym (update_ne child k i c e)) (all i)
]
