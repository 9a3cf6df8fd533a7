-- ===== src/Forking/Pieces.antt =====
-- What the processes of client.c hold together, and what a statement of one of them does to it.
use network.Prelude.{
  ℕ, zero, suc, ◌≡◌, refl, sym, ap, subst, ◌∙◌, List, [], ◌∷◌, ◌++◌, append_assoc,
}
use mathlib.Core.List.{Perm, perm_append_comm}
use mathlib.Core.List.Perm
use network.Outcome.{ok}
use network.Forking.{Process, Traffic, Turn, Effect, quiet, turn, turn_at}
use network.Forking.Reach.{came}

-- What the processes hold, one after the other.
unfoldable pub all : (Process → List (List ℕ)) → List Process → List (List ℕ)
all h [] = []
all h (p ∷ ps) = h p ++ all h ps

all-append :
    (h : Process → List (List ℕ)) (ps qs : List Process) → all h (ps ++ qs) ≡ all h ps ++ all h qs
unfolding all
all-append h [] qs = refl
all-append h (p ∷ ps) qs =
    ap (λ l. h p ++ l) (all-append h ps qs) ∙ sym (append_assoc (h p) (all h ps) (all h qs))

-- The same bag, by equal lists at both ends.
pub between : {l l' r r' : List (List ℕ)} → l ≡ l' → Perm l' r' → r ≡ r' → Perm l r
between {l} {l'} {r} {r'} e p q = subst (λ x. Perm x r) (sym e) (subst (λ x. Perm l' x) (sym q) p)

-- The middle of three goes to the end.
middle_last : (x y z : List (List ℕ)) → Perm ((x ++ y) ++ z) ((x ++ z) ++ y)
middle_last x y z =
    between (append_assoc x y z) (Perm.append_left x (perm_append_comm y z)) (append_assoc x z y)

module _ (h : Process → List (List ℕ)) (read written : Traffic → List (List ℕ))
    (quiet_read : read quiet ≡ []) (quiet_written : written quiet ≡ []) (t : Turn)
    (locally : (p : Process) (e : Effect)
      → turn t p ≡ ok e
      → Perm (h p ++ read e.through) (written e.through ++ (h e.process ++ all h e.children))) where
  first_keeps :
      (p : Process) (ps : List Process) (e : Effect)
      → turn t p ≡ ok e
      → Perm
          (all h (p ∷ ps) ++ read e.through)
          (written e.through ++ all h (e.process ∷ (ps ++ e.children)))
  unfolding all
  first_keeps p ps e run =
      let a = read e.through in
      let b = written e.through in
      let x = all h ps in
      let c = all h e.children in
      Perm.trans (middle_last (h p) x a) (
        Perm.trans (Perm.append_right x (locally p e run)) (
          between (append_assoc b (h e.process ++ c) x)
            (Perm.append_left b (middle_last (h e.process) c x))
            (ap (λ l. b ++ (h e.process ++ l)) (all-append h ps e.children)
              ∙ ap (λ l. b ++ l) (sym (append_assoc (h e.process) x c)))))

  pub turn_at_keeps :
      (i : ℕ) (ps : List Process) (r : Traffic × List Process)
      → turn_at i t ps ≡ ok r
      → Perm (all h ps ++ read r.0) (written r.0 ++ all h r.1)
  unfolding turn_at all
  turn_at_keeps i [] r run =
      let same : (quiet, []) ≡ r = cc run in
      subst (λ x. Perm (read x.0) (written x.0 ++ all h x.1)) same
        (between quiet_read Perm.rfl (ap (λ l. l ++ []) quiet_written))
  turn_at_keeps zero (p ∷ ps) r run =
      let (e, one, same) =
        came (turn t p) (λ e. (e.through, e.process ∷ (ps ++ e.children))) r run in
      subst (λ x. Perm (all h (p ∷ ps) ++ read x.0) (written x.0 ++ all h x.1)) same
        (first_keeps p ps e one)
  turn_at_keeps (suc i) (p ∷ ps) r run =
      let (r', others, same) = came (turn_at i t ps) (λ r. (r.0, p ∷ r.1)) r run in
      let ih = turn_at_keeps i ps r' others in
      let b = written r'.0 in
      let kept : Perm ((h p ++ all h ps) ++ read r'.0) (b ++ (h p ++ all h r'.1)) =
        between (append_assoc (h p) (all h ps) (read r'.0))
          (Perm.trans (Perm.append_left (h p) ih) (
            between (sym (append_assoc (h p) b (all h r'.1)))
              (Perm.append_right (all h r'.1) (perm_append_comm (h p) b))
              (sym (append_assoc b (h p) (all h r'.1)))))
          refl in
      subst (λ x. Perm (all h (p ∷ ps) ++ read x.0) (written x.0 ++ all h x.1)) same kept
