-- ===== src/Multiplex/Poll/Serve.antt =====
-- What one pass over the clients of poll.c does, told slot by slot from the state in front of it.
use network.Prelude.{
  subst, ℕ, zero, suc, ◌+◌, ◌≤◌, ◌<◌, ◌≡◌, ◌≢◌, refl, sym, ap, ap₂, ◌∙◌, ◌⊎◌, inl, inr, Bool, true,
  false, Option, none, some, List, [], ◌∷◌, ◌++◌, map, append-nil, append_assoc, arith,
}
use network.Prelude.Maps.{update, update_self, update_ne}
use network.Prelude.Tests.{◌==◌, ==_iff, Bool-cases, Option-cases, if◌then◌else◌}
use network.Posix.{Answer, got, failed, econnreset, Io, wrote, toupper}
use network.Outcome.{ok}
use network.Multiplex.Poll.{Slot, Server, Turn, drop_client, answer, serve_slot, serve_slots}

-- A ready client is answered, or leaves.
abbrev pub echoed : ℕ → Answer → List Io
echoed f (failed e) = []
echoed f (got []) = []
echoed f (got (b ∷ bs)) = wrote 1 (b ∷ bs) ∷ wrote f (map toupper (b ∷ bs)) ∷ []

abbrev pub is_end : Answer → Bool
is_end (failed e) = true
is_end (got []) = true
is_end (got (b ∷ bs)) = false

abbrev pub is_ready : Option Bool → Bool
is_ready none = false
is_ready (some b) = b

abbrev pub reply_at : (ℕ → Answer) → Option ℕ → Bool → List Io
reply_at reads none r = []
reply_at reads (some f) r = if r then echoed f (reads f) else []

abbrev pub leaves_at : (ℕ → Answer) → Option ℕ → Bool → Bool
leaves_at reads none r = false
leaves_at reads (some f) r = if r then is_end (reads f) else false

abbrev pub reply : Turn → Slot → List Io
reply t sl = reply_at t.reads sl.fd (is_ready sl.revents)

abbrev pub leaves : Turn → Slot → Bool
leaves t sl = leaves_at t.reads sl.fd (is_ready sl.revents)

abbrev pub without_client : Slot → Slot
without_client sl = record sl { fd = none }

abbrev pub closing : Option ℕ → (ℕ → Bool) → ℕ → Bool
closing none opened = opened
closing (some f) opened = update opened f false

pub served : Turn → ℕ → Server → Server
served t i s =
    let sl = s.fds i in
    record s {
      fds = if leaves t sl then update s.fds i (without_client sl) else s.fds;
      opened = if leaves t sl then closing sl.fd s.opened else s.opened;
      trace = s.trace ++ reply t sl;
    }

-- No `read` fails but by a reset of the connection.
abbrev pub ReadsWell : Turn → Type 0
ReadsWell t = (f e : ℕ) → t.reads f ≡ failed e → e ≡ econnreset

quiet : (s : Server) → ok s ≡ ok (record s { trace = s.trace ++ [] })
quiet s = rw (append-nil s.trace)

answer_lem :
    (i f : ℕ) (a : Answer) (s : Server)
    → ((e : ℕ) → a ≡ failed e → e ≡ econnreset)
    → let sl = s.fds i in
      answer i f a s
      ≡ ok (record s {
        fds = if is_end a then update s.fds i (without_client sl) else s.fds;
        opened = if is_end a then update s.opened f false else s.opened;
        trace = s.trace ++ echoed f a;
      })
unfolding answer drop_client
answer_lem i f (failed e) s well =
    rw ((==_iff e econnreset).1 (well e refl)) (quiet (drop_client i f s))
answer_lem i f (got []) s well = quiet (drop_client i f s)
answer_lem i f (got (b ∷ bs)) s well = refl

called :
    (t : Turn) (i f : ℕ) (s : Server)
    → (s.fds i).fd ≡ some f
    → (s.fds i).revents ≡ some true
    → serve_slot t i s ≡ answer i f (t.reads f) s
unfolding serve_slot
called t i f s e q = rw (e, q, serve_slot)

pub serve_slot_lem :
    (t : Turn) (i : ℕ) (s : Server)
    → ReadsWell t
    → ((s.fds i).fd ≢ none → (s.fds i).revents ≢ none)
    → serve_slot t i s ≡ ok (served t i s)
unfolding serve_slot served answer drop_client
serve_slot_lem t i s well marked = elim (Option-cases (s.fds i).fd) [
  | inl e ↦ rw (e, serve_slot) (quiet s)
  | inr (f, e) ↦ elim (Option-cases (s.fds i).revents) [
    | inl q ↦ absurd (marked (λ z. cc (z, e)) q)
    | inr (false, q) ↦ rw (e, q, serve_slot) (quiet s)
    | inr (true, q) ↦ called t i f s e q ∙ answer_lem i f (t.reads f) s (well f) ∙ rw (e, q)
  ]
]

unfoldable pub serve_all : Turn → ℕ → ℕ → Server → Server
serve_all t zero i s = s
serve_all t (suc n) i s = serve_all t n (i + 1) (served t i s)

-- Every slot with a descriptor in the range was seen by `poll`.
abbrev pub Seen : ℕ → ℕ → (ℕ → Slot) → Type 0
Seen n i fds = (j : ℕ) → i ≤ j → j < i + n → (fds j).fd ≢ none → (fds j).revents ≢ none

pub served_other : (t : Turn) (i j : ℕ) (s : Server) → i ≢ j → (served t i s).fds j ≡ s.fds j
unfolding served
served_other t i j s h = elim (Bool-cases (leaves t (s.fds i))) [
  | inl e ↦ rw e (update_ne s.fds i j (without_client (s.fds i)) h)
  | inr e ↦ rw e
]

abbrev pub settled : Turn → Slot → Slot
settled t sl = if leaves t sl then without_client sl else sl

pub served_self : (t : Turn) (i : ℕ) (s : Server) → (served t i s).fds i ≡ settled t (s.fds i)
unfolding served
served_self t i s = elim (Bool-cases (leaves t (s.fds i))) [
  | inl e ↦ rw e (update_self s.fds i (without_client (s.fds i)))
  | inr e ↦ rw e
]

pub Seen-served :
    (t : Turn) (n i : ℕ) (s : Server) → Seen (suc n) i s.fds → Seen n (i + 1) (served t i s).fds
Seen-served t n i s seen j low high =
    rw (served_other t i j s (ground arith)) (seen j (omega arith) (omega arith))

pub serve_slots_lem :
    (t : Turn) (n i : ℕ) (s : Server)
    → ReadsWell t
    → Seen n i s.fds
    → serve_slots t n i s ≡ ok (serve_all t n i s)
unfolding serve_slots serve_all
serve_slots_lem t zero i s well seen = refl
serve_slots_lem t (suc n) i s well seen =
    rw (serve_slot_lem t i s well (seen i (omega arith) (omega arith)))
      (serve_slots_lem t n (i + 1) (served t i s) well (Seen-served t n i s seen))

pub opened-served :
    (t : Turn) (i : ℕ) (s : Server)
    → (served t i s).opened
      ≡ (if leaves t (s.fds i) then closing (s.fds i).fd s.opened else s.opened)
unfolding served
opened-served t i s = refl

-- What the slots in the range are answered, in their order.
pub replies : Turn → ℕ → ℕ → (ℕ → Slot) → List Io
replies t zero i fds = []
replies t (suc n) i fds = reply t (fds i) ++ replies t n (i + 1) fds

replies_same :
    (t : Turn) (n i : ℕ) (f g : ℕ → Slot)
    → ((j : ℕ) → i ≤ j → f j ≡ g j)
    → replies t n i f ≡ replies t n i g
unfolding replies
replies_same t zero i f g h = refl
replies_same t (suc n) i f g h =
    ap₂ (λ sl rest. reply t sl ++ rest) (h i (omega arith))
      (replies_same t n (i + 1) f g (λ j q. h j (omega arith)))

trace-served : (t : Turn) (i : ℕ) (s : Server) → (served t i s).trace ≡ s.trace ++ reply t (s.fds i)
unfolding served
trace-served t i s = refl

pub trace-serve_all :
    (t : Turn) (n i : ℕ) (s : Server) → (serve_all t n i s).trace ≡ s.trace ++ replies t n i s.fds
unfolding serve_all replies
trace-serve_all t zero i s = sym (append-nil s.trace)
trace-serve_all t (suc n) i s =
    trace-serve_all t n (i + 1) (served t i s)
    ∙ ap₂ (λ a b. a ++ b) (trace-served t i s)
        (replies_same t n (i + 1) (served t i s).fds s.fds
          (λ j q. served_other t i j s (ground arith)))
    ∙ append_assoc s.trace (reply t (s.fds i)) (replies t n (i + 1) s.fds)

pub slot_outside-serve_all :
    (t : Turn) (n i j : ℕ) (s : Server) → j < i ⊎ i + n ≤ j → (serve_all t n i s).fds j ≡ s.fds j
unfolding serve_all
slot_outside-serve_all t zero i j s h = refl
slot_outside-serve_all t (suc n) i j s h =
    slot_outside-serve_all t n (i + 1) j (served t i s) (ground arith)
    ∙ served_other t i j s (ground arith)

pub slot_inside-serve_all :
    (t : Turn) (n i j : ℕ) (s : Server)
    → i ≤ j
    → j < i + n
    → (serve_all t n i s).fds j ≡ settled t (s.fds j)
unfolding serve_all
slot_inside-serve_all t zero i j s low high = absurd (omega arith)
slot_inside-serve_all t (suc n) i j s low high = elim (Bool-cases (i == j)) [
  | inl e ↦
      let same = (==_iff i j).0 e in
      slot_outside-serve_all t n (i + 1) j (served t i s) (ground (arith, same))
      ∙ subst (λ k. (served t i s).fds k ≡ settled t (s.fds k)) same (served_self t i s)
  | inr e ↦
      let apart : i ≢ j = λ q. absurd (ground (arith, e, q)) in
      slot_inside-serve_all t n (i + 1) j (served t i s) (omega (arith, apart)) (omega arith)
      ∙ ap (settled t) (served_other t i j s apart)
]

pub maxfd-served : (t : Turn) (i : ℕ) (s : Server) → (served t i s).maxfd ≡ s.maxfd
unfolding served
maxfd-served t i s = refl

pub maxfd-serve_all : (t : Turn) (n i : ℕ) (s : Server) → (serve_all t n i s).maxfd ≡ s.maxfd
unfolding serve_all
maxfd-serve_all t zero i s = refl
maxfd-serve_all t (suc n) i s = maxfd-serve_all t n (i + 1) (served t i s) ∙ maxfd-served t i s
