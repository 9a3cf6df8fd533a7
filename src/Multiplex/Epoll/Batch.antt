-- ===== src/Multiplex/Epoll/Batch.antt =====
-- What one batch of entries leads to in epoll.c.
use network.Prelude.{
  ℕ, ◌≡◌, ◌≢◌, refl, sym, ap, ap₂, arith, ◌∙◌, inl, inr, Bool, true, false, not, ◌&&◌, ◌||◌, Option,
  none, some, List, [], ◌∷◌, ◌++◌, map, append-nil, append_assoc,
}
use network.Prelude.Maps.{update, update_self, update_ne}
use mathlib.Core.List.{map-append}
use network.Prelude.Tests.{◌==◌, ==_iff, Bool-cases, if◌then◌else◌}
use network.Posix.{Answer, got, failed, econnreset, Io, wrote, toupper}
use network.Outcome.{ok}
use network.Multiplex.Epoll.{
  Server, Event, accept_client, serve_client, serve_event, serve_events, round,
}

-- `accept` succeeds, or `read` does not fail but by a reset.
abbrev pub GoesWell : ℕ → Event → Type 0
GoesWell lfd ev =
    ((ev.fd == lfd) ≡ true → ev.accepted ≢ none)
    × ((ev.fd == lfd) ≡ false → (e : ℕ) → ev.answer ≡ failed e → e ≡ econnreset)

abbrev pub AllWell : ℕ → List Event → Type 0
AllWell lfd [] = Unit
AllWell lfd (ev ∷ evs) = GoesWell lfd ev × AllWell lfd evs

abbrev pub echoed : ℕ → Answer → List Io
echoed f (failed e) = []
echoed f (got []) = []
echoed f (got (b ∷ bs)) = wrote 1 (b ∷ bs) ∷ wrote f (map toupper (b ∷ bs)) ∷ []

-- What the entries are answered, in their order.
pub replies : ℕ → List Event → List Io
replies lfd [] = []
replies lfd (ev ∷ evs) = (if ev.fd == lfd then [] else echoed ev.fd ev.answer) ++ replies lfd evs

-- Whether an entry lets the descriptor `f` in, and whether it lets it go.
abbrev pub is_joined : ℕ → ℕ → Event → Bool
is_joined lfd f ev = ev.fd == lfd && (elim ev.accepted [ none ↦ false | some cfd ↦ cfd == f ])

abbrev pub is_gone : Answer → Bool
is_gone (failed e) = true
is_gone (got []) = true
is_gone (got (b ∷ bs)) = false

abbrev pub is_left : ℕ → ℕ → Event → Bool
is_left lfd f ev = not (ev.fd == lfd) && (ev.fd == f && is_gone ev.answer)

-- Whether some entry lets `f` in.
pub joins : ℕ → ℕ → List Event → Bool
joins lfd f [] = false
joins lfd f (ev ∷ evs) = is_joined lfd f ev || joins lfd f evs

-- Whether `f` is watched behind the entries, if `b` tells whether it was: the last that lets it in or go
-- decides.
pub watched : ℕ → ℕ → List Event → Bool → Bool
watched lfd f [] b = b
watched lfd f (ev ∷ evs) b =
    watched lfd f evs (if is_joined lfd f ev then true else if is_left lfd f ev then false else b)

-- The bytes that the reads on `f` gave.
pub heard : ℕ → ℕ → List Event → List ℕ
heard lfd f [] = []
heard lfd f (ev ∷ evs) =
    (if not (ev.fd == lfd) && ev.fd == f
      then elim ev.answer [ failed e ↦ [] | got bs ↦ bs ]
      else [])
    ++ heard lfd f evs

-- The bytes that were written to `f`.
pub sent_to : ℕ → List Io → List ℕ
sent_to f [] = []
sent_to f (wrote g bs ∷ l) = (if g == f then bs else []) ++ sent_to f l

sent_to-append : (f : ℕ) (l m : List Io) → sent_to f (l ++ m) ≡ sent_to f l ++ sent_to f m
unfolding sent_to
sent_to-append f [] m = refl
sent_to-append f (wrote g bs ∷ l) m =
    ap (λ x. (if g == f then bs else []) ++ x) (sent_to-append f l m)
    ∙ sym (append_assoc (if g == f then bs else []) (sent_to f l) (sent_to f m))

update_if : (g : ℕ → Bool) (k f : ℕ) (v : Bool) → update g k v f ≡ (if k == f then v else g f)
update_if g k f v = elim (Bool-cases (k == f)) [
  | inl e ↦
      let same : k ≡ f = (==_iff k f).0 e in rw e (ap (update g k v) (sym same) ∙ update_self g k v)
  | inr e ↦
      let apart : k ≢ f = λ q. absurd (cc (e, (==_iff k f).1 q)) in rw e (update_ne g k f v apart)
]

or_if : (b c : Bool) → (if c then true else b) ≡ (b || c)
or_if true true = refl
or_if true false = refl
or_if false true = refl
or_if false false = refl

or_no : (b : Bool) → b ≡ (b || false)
or_no true = refl
or_no false = refl

is_new : Option ℕ → ℕ → Bool
is_new o f = elim o [ none ↦ false | some cfd ↦ cfd == f ]

accepts :
    (o : Option ℕ) (s : Server)
    → o ≢ none
    → (s' : Server) × (accept_client o s ≡ ok s')
      × (s'.trace ≡ s.trace ++ [])
      × ((f : ℕ)
          → (s'.opened f ≡ (s.opened f || is_new o f))
            × (s'.watch f ≡ (if is_new o f then true else s.watch f)))
unfolding accept_client is_new
accepts none s h = absurd (h refl)
accepts (some cfd) s h = (
  _,
  refl,
  sym (append-nil s.trace),
  λ f.
      (update_if s.opened cfd f true ∙ or_if (s.opened f) (cfd == f), update_if s.watch cfd f true),
)

-- The set without `g`, seen at `f`.
dropped :
    (g f : ℕ) (watch : ℕ → Bool)
    → update watch g false f ≡ (if g == f && true then false else watch f)
dropped g f watch = elim (Bool-cases (g == f)) [
  | inl e ↦ update_if watch g f false ∙ rw e refl
  | inr e ↦ update_if watch g f false ∙ rw e refl
]

kept : (c b : Bool) → b ≡ (if c && false then false else b)
kept true b = refl
kept false b = refl

answers :
    (g : ℕ) (a : Answer) (s : Server)
    → ((e : ℕ) → a ≡ failed e → e ≡ econnreset)
    → (s' : Server) × (serve_client g a s ≡ ok s')
      × (s'.trace ≡ s.trace ++ echoed g a)
      × ((f : ℕ)
          → (s'.opened f ≡ s.opened f)
            × (s'.watch f ≡ (if g == f && is_gone a then false else s.watch f)))
unfolding serve_client
answers g (failed e) s h = (
  record s { watch = update s.watch g false },
  rw ((==_iff e econnreset).1 (h e refl)),
  sym (append-nil s.trace),
  λ f. (refl, dropped g f s.watch),
)
answers g (got []) s h = (_, refl, sym (append-nil s.trace), λ f. (refl, dropped g f s.watch))
answers g (got (b ∷ bs)) s h = (_, refl, refl, λ f. (refl, kept (g == f) (s.watch f)))

one :
    (lfd : ℕ) (ev : Event) (s : Server)
    → GoesWell lfd ev
    → (s' : Server) × (serve_event lfd ev s ≡ ok s')
      × (s'.trace ≡ s.trace ++ (if ev.fd == lfd then [] else echoed ev.fd ev.answer))
      × ((f : ℕ)
          → (s'.opened f ≡ (s.opened f || is_joined lfd f ev))
            × (s'.watch f ≡ (
                if is_joined lfd f ev
                then true
                else if is_left lfd f ev
                then false
                else s.watch f)))
unfolding serve_event is_new
one lfd ev s well = elim (Bool-cases (ev.fd == lfd)) [
  | inl e ↦ rw e (accepts ev.accepted s (well.0 e))
  | inr e ↦
      let (s', run, tr, at) = answers ev.fd ev.answer s (well.1 e) in
      rw e (s', run, tr, λ f. ((at f).0 ∙ or_no (s.opened f), (at f).1))
]

-- What one entry makes of the bytes written to `f`, which is not standard output.
sent_to-echoed :
    (f g : ℕ) (a : Answer)
    → f ≢ 1
    → sent_to f (echoed g a)
      ≡ map toupper (if g == f then elim a [ failed e ↦ [] | got bs ↦ bs ] else [])
unfolding sent_to
sent_to-echoed f g (failed e) h = elim (Bool-cases (g == f)) [
  | inl e ↦ rw e refl
  | inr e ↦ rw e refl
]
sent_to-echoed f g (got []) h = elim (Bool-cases (g == f)) [ inl e ↦ rw e refl | inr e ↦ rw e refl ]
sent_to-echoed f g (got (b ∷ bs)) h =
    let not_out : (1 == f) ≡ false = ground (arith, h) in
    elim (Bool-cases (g == f)) [
      | inl e ↦ rw (not_out, e) (append-nil (map toupper (b ∷ bs)))
      | inr e ↦ rw (not_out, e) refl
    ]

sent_to-replies :
    (lfd f : ℕ) (evs : List Event)
    → f ≢ 1
    → sent_to f (replies lfd evs) ≡ map toupper (heard lfd f evs)
unfolding replies heard sent_to
sent_to-replies lfd f [] h = refl
sent_to-replies lfd f (ev ∷ evs) h =
    let rest = sent_to-replies lfd f evs h in
    elim (Bool-cases (ev.fd == lfd)) [
      | inl e ↦ rw e rest
      | inr e ↦ rw e (
          sent_to-append f (echoed ev.fd ev.answer) (replies lfd evs)
          ∙ ap₂ (λ x y. x ++ y) (sent_to-echoed f ev.fd ev.answer h) rest
          ∙ sym (map-append toupper _ (heard lfd f evs)))
    ]

sent_after :
    (lfd f : ℕ) (evs : List Event) (before after : List Io)
    → f ≢ 1
    → after ≡ before ++ replies lfd evs
    → sent_to f after ≡ sent_to f before ++ map toupper (heard lfd f evs)
sent_after lfd f evs before after h e =
    ap (sent_to f) e
    ∙ sent_to-append f before (replies lfd evs)
    ∙ ap (λ l. sent_to f before ++ l) (sent_to-replies lfd f evs h)

or_assoc : (a b c : Bool) → ((a || b) || c) ≡ (a || (b || c))
or_assoc true b c = refl
or_assoc false b c = refl

-- If no accept fails and no read fails but by a reset, a round handles every entry that epoll_wait
-- returned: exactly the clients that were accepted are opened besides those open before, a
-- descriptor is watched afterwards as its last entry leaves it (in the set when it was accepted,
-- off it when its data ended or it was reset, as before otherwise), standard output and the
-- clients get what the clients sent in the order of the entries, and each descriptor but standard
-- output gets in upper case exactly what came on it.
pub batch_served :
    (lfd : ℕ) (evs : List Event) (s : Server)
    → AllWell lfd evs
    → (s' : Server) × (round lfd (some evs) s ≡ ok s')
      × (s'.trace ≡ s.trace ++ replies lfd evs)
      × ((f : ℕ)
          → (s'.opened f ≡ (s.opened f || joins lfd f evs))
            × (s'.watch f ≡ watched lfd f evs (s.watch f))
            × (f ≢ 1 → sent_to f s'.trace ≡ sent_to f s.trace ++ map toupper (heard lfd f evs)))
unfolding round serve_events replies joins watched
batch_served lfd [] s well = (
  s,
  refl,
  sym (append-nil s.trace),
  λ f. (
    or_no (s.opened f),
    refl,
    λ h. sent_after lfd f [] s.trace s.trace h (sym (append-nil s.trace)),
  ),
)
batch_served lfd (ev ∷ evs) s well =
    let (s1, run1, tr1, at1) = one lfd ev s well.0 in
    let (s2, run2, tr2, at2) = batch_served lfd evs s1 well.1 in
    let tr = tr2 ∙ ap (λ l. l ++ replies lfd evs) tr1 ∙ append_assoc s.trace _ (replies lfd evs) in
    (
      s2,
      rw run1 run2,
      tr,
      λ f. (
        (at2 f).0 ∙ ap (λ b. b || joins lfd f evs) (at1 f).0 ∙ or_assoc (s.opened f) _ _,
        (at2 f).1 ∙ ap (watched lfd f evs) (at1 f).1,
        λ h. sent_after lfd f (ev ∷ evs) s.trace s2.trace h tr,
      ),
    )
