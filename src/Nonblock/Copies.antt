-- ===== src/Nonblock/Copies.antt =====
-- The states of `str_cli` in every order of what the four descriptors are ready for.
use network.Prelude.{
  ℕ, suc, ◌≤◌, ◌<◌, ◌≡◌, refl, ap, subst, ◌∙◌, ◌⊎◌, inl, inr, Bool, true, false, not, ◌&&◌, List,
  [], ◌∷◌, ◌++◌, arith,
}
use network.Prelude.Tests.{ltb, ◌==◌, ==_iff, Bool-cases, if◌then◌else◌}
use network.Prelude.Lists.{length}
use network.Posix.{Answer, got, failed, Sent, sent, refused, eagain}
use network.Nonblock.{
  Buffer, reset, is_empty, room, rest, advance, maxline, Client, start, Turn, Flow, goes_on,
  returns, exits, ◌>>=◌, read_stdin, read_socket, write_stdout, half_close, write_socket, round,
}
use network.Nonblock.Buffers.{Holds, reset-Holds, fill-Holds, advance-Holds}

-- No call hands over or takes more bytes than it was asked for.
pub record IsFitting (t : Turn) : Type 0 where
  pub input_fits : (n : ℕ) (bs : List ℕ) → t.input n ≡ got bs → length bs ≤ n
  pub reply_fits : (n : ℕ) (bs : List ℕ) → t.reply n ≡ got bs → length bs ≤ n
  pub shows_fits : (n k : ℕ) → t.shows n ≡ sent k → k ≤ n
  pub sends_fits : (n k : ℕ) → t.sends n ≡ sent k → k ≤ n

pub data Reach : Client → Type 0 where
  here : Reach start
  next : {s s' : Client} (t : Turn) → Reach s → IsFitting t → round t s ≡ goes_on s' → Reach s'

record Inv (s : Client) : Type 0 where
  pub up : Holds s.to s.typed s.sent_on
  pub down : Holds s.fr s.received s.shown
  pub closed : s.shutdowns ≡ (if s.stdineof && is_empty s.to then 1 else 0)

goes_inj : {A : Type 0} {a b : A} → goes_on a ≡ goes_on b → a ≡ b
goes_inj e = cc

-- A chain that goes on has gone on in its first part.
split_flow :
    {A B : Type 0} (m : Flow A) (f : A → Flow B) (b : B)
    → (m >>= f) ≡ goes_on b
    → (a : A) × (m ≡ goes_on a) × (f a ≡ goes_on b)
split_flow (goes_on a) f b e = (a, refl, e)
split_flow (returns s) f b e = absurd (cc e)
split_flow exits f b e = absurd (cc e)

some_length : (b : ℕ) (bs : List ℕ) → 0 < length (b ∷ bs)
some_length b bs = omega arith

-- A failed call goes on with what it had, if it goes on at all.
same_after :
    {A : Type 0} (e : ℕ) (a b : A) → (if e == eagain then goes_on a else exits) ≡ goes_on b → a ≡ b
same_after e a b q = elim (Bool-cases (e == eagain)) [
  | inl h ↦ goes_inj (rw h at q)
  | inr h ↦ absurd (cc (rw h at q))
]

not_yet : (s : Client) → Inv s → s.stdineof ≡ false ⊎ is_empty s.to ≡ false → s.shutdowns ≡ 0
not_yet s v (inl e) = v.closed ∙ rw e
not_yet s v (inr e) = v.closed ∙ elim (Bool-cases s.stdineof) [ inl h ↦ rw (h, e) | inr h ↦ rw h ]

one_more : (b : Bool) (n : ℕ) → n ≡ 0 → (if b then suc n else n) ≡ (if b then 1 else 0)
one_more true n e = ap suc e
one_more false n e = e

read_stdin-Inv :
    (ready wset : Bool) (answer : Answer) (s : Client) (r : Client × Bool)
    → Inv s
    → (ready ≡ true → s.stdineof ≡ false)
    → ((bs : List ℕ) → answer ≡ got bs → length bs ≤ room s.to)
    → read_stdin ready answer wset s ≡ goes_on r
    → Inv r.0
unfolding read_stdin
read_stdin-Inv false wset answer s r v off fits e = subst Inv (ap (λ x. x.0) (goes_inj e)) v
read_stdin-Inv true wset (failed er) s r v off fits e =
    subst Inv (ap (λ x. x.0) (same_after er (s, wset) r e)) v
read_stdin-Inv true wset (got []) s r v off fits e =
    subst Inv (ap (λ x. x.0) (goes_inj e)) (record {
      up = v.up;
      down = v.down;
      closed = one_more (is_empty s.to) s.shutdowns (not_yet s v (inl (off refl)));
    })
read_stdin-Inv true wset (got (b ∷ bs)) s r v off fits e =
    subst Inv (ap (λ x. x.0) (goes_inj e)) (record {
      up = fill-Holds s.to s.typed s.sent_on (b ∷ bs) v.up (some_length b bs) (fits (b ∷ bs) refl);
      down = v.down;
      closed = not_yet s v (inl (off refl)) ∙ rw (off refl);
    })

read_socket-Inv :
    (ready wset : Bool) (answer : Answer) (s : Client) (r : Client × Bool)
    → Inv s
    → ((bs : List ℕ) → answer ≡ got bs → length bs ≤ room s.fr)
    → read_socket ready answer wset s ≡ goes_on r
    → Inv r.0
unfolding read_socket
read_socket-Inv false wset answer s r v fits e = subst Inv (ap (λ x. x.0) (goes_inj e)) v
read_socket-Inv true wset (failed er) s r v fits e =
    subst Inv (ap (λ x. x.0) (same_after er (s, wset) r e)) v
read_socket-Inv true wset (got []) s r v fits e = elim (Bool-cases s.stdineof) [
  | inl h ↦ absurd (cc (rw h at e))
  | inr h ↦ absurd (cc (rw h at e))
]
read_socket-Inv true wset (got (b ∷ bs)) s r v fits e =
    subst Inv (ap (λ x. x.0) (goes_inj e)) (record {
      up = v.up;
      down =
          fill-Holds s.fr s.received s.shown (b ∷ bs) v.down (some_length b bs)
            (fits (b ∷ bs) refl);
      closed = v.closed;
    })

write_stdout-Inv :
    (ready : Bool) (answer : Sent) (s s' : Client)
    → Inv s
    → ((n : ℕ) → answer ≡ sent n → n ≤ length (rest s.fr))
    → write_stdout ready answer s ≡ goes_on s'
    → Inv s'
unfolding write_stdout
write_stdout-Inv false answer s s' v fits e = subst Inv (goes_inj e) v
write_stdout-Inv true (refused er) s s' v fits e = subst Inv (same_after er s s' e) v
write_stdout-Inv true (sent n) s s' v fits e = subst Inv (goes_inj e) (record {
  up = v.up;
  down = advance-Holds s.fr s.received s.shown n v.down (fits n refl);
  closed = v.closed;
})

write_socket-Inv :
    (ready : Bool) (answer : Sent) (s s' : Client)
    → Inv s
    → (ready ≡ true → is_empty s.to ≡ false)
    → ((n : ℕ) → answer ≡ sent n → n ≤ length (rest s.to))
    → write_socket ready answer s ≡ goes_on s'
    → Inv s'
unfolding write_socket half_close
write_socket-Inv false answer s s' v busy fits e = subst Inv (goes_inj e) v
write_socket-Inv true (refused er) s s' v busy fits e = subst Inv (same_after er s s' e) v
write_socket-Inv true (sent n) s s' v busy fits e = subst Inv (goes_inj e) (record {
  up = advance-Holds s.to s.typed s.sent_on n v.up (fits n refl);
  down = v.down;
  closed =
      one_more (s.stdineof && is_empty (advance n s.to)) s.shutdowns
        (not_yet s v (inr (busy refl)));
})

and_left : (a b : Bool) → (a && b) ≡ true → a ≡ true
and_left true b e = refl
and_left false b e = absurd (cc e)

and_right : (a b : Bool) → (a && b) ≡ true → b ≡ true
and_right true b e = e
and_right false b e = absurd (cc e)

not-true : (b : Bool) → not b ≡ true → b ≡ false
not-true true e = absurd (cc e)
not-true false e = refl

round-Inv : (t : Turn) (s s' : Client) → IsFitting t → Inv s → round t s ≡ goes_on s' → Inv s'
unfolding round
round-Inv t s s' fit v e =
    let (a, first, e1) = split_flow _ _ s' e in
    let va =
      read_stdin-Inv _ _ (t.input (room s.to)) s a v
        (λ q. not-true s.stdineof (and_left _ _ (and_right t.stdin_ready _ q)))
        (λ bs q. fit.input_fits (room s.to) bs q) first in
    let (b, second, e2) = split_flow _ _ s' e1 in
    let vb =
      read_socket-Inv _ _ (t.reply (room a.0.fr)) a.0 b va
        (λ bs q. fit.reply_fits (room a.0.fr) bs q) second in
    let (c, third, e3) = split_flow _ _ s' e2 in
    let vc =
      write_stdout-Inv _ _ b.0 c vb (λ n q. fit.shows_fits (length (rest b.0.fr)) n q) third in
    write_socket-Inv _ _ c s' vc (λ q. not-true (is_empty c.to) (and_right a.1 _ q))
      (λ n q. fit.sends_fits (length (rest c.to)) n q) e3

Reach-Inv : (s : Client) → Reach s → Inv s
unfolding start is_empty reset
Reach-Inv s here = record { up = reset-Holds; down = reset-Holds; closed = refl }
Reach-Inv s (next {s = before} t path fit e) = round-Inv t before s fit (Reach-Inv before path) e

-- A full buffer has something to write.
full_waits :
    (b : Buffer) (came gone : List ℕ)
    → Holds b came gone
    → ltb (length b.text) maxline ≡ false
    → is_empty b ≡ false
unfolding is_empty
full_waits b came gone v full = elim (Bool-cases (b.optr == length b.text)) [
  | inr e ↦ e
  | inl e ↦
      let none = v.starts_again ((==_iff b.optr (length b.text)).0 e) in
      absurd (cc (ap (λ l. ltb (length l) maxline) none, full))
]

-- In every state that str_cli of strclinonb.c reaches, whatever its descriptors are ready for, if
-- no call moves more bytes than it is asked for: what was typed is what went to the socket and
-- what waits in its buffer, one behind the other, and the same on the way back; Shutdown was
-- called once if the input has ended and its buffer is empty, and else never; no buffer holds more
-- than 4096 bytes, and where the one from the socket is full it has something to write.
pub client_copies :
    (s : Client)
    → Reach s
    → (s.typed ≡ s.sent_on ++ rest s.to)
      × (s.received ≡ s.shown ++ rest s.fr)
      × (s.shutdowns ≡ (if s.stdineof && is_empty s.to then 1 else 0))
      × (length s.to.text ≤ maxline)
      × (length s.fr.text ≤ maxline)
      × (ltb (length s.fr.text) maxline ≡ false → is_empty s.fr ≡ false)
client_copies s path =
    let v = Reach-Inv s path in
    (
      v.up.keeps,
      v.down.keeps,
      v.closed,
      v.up.fits,
      v.down.fits,
      full_waits s.fr s.received s.shown v.down,
    )
