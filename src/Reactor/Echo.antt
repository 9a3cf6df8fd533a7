-- ===== src/Reactor/Echo.antt =====
-- What a client gets back: the bytes it sent, as far as one `send` takes them.
use network.Prelude.{
  ℕ, zero, suc, ◌<◌, ◌≡◌, refl, sym, ◌∙◌, ap, ap₂, Option, some, List, [], ◌∷◌, ◌++◌, append_assoc,
  arith,
}
use network.Prelude.Lists.{length, take, drop, set, take-append}
use network.Posix.{got, sent}
use network.Reactor.{
  Event, Callback, senddata, Reactor, came, went, buflen, eventset, terminate, receive, on_recvdata,
  on_senddata,
}
use network.Reactor.Callbacks.{on_recvdata_within}
use network.Reactor.Table.{IsActive, loaded, receive_lem, on_senddata_lem}

take-set : (k v : ℕ) (xs : List ℕ) → take k (set xs k v) ≡ take k xs
take-set zero v xs = refl
take-set (suc k) v [] = refl
take-set (suc k) v (x ∷ xs) = ap (λ l. x ∷ l) (take-set k v xs)

terminate_buf : (k : ℕ) (ev : Event) → take k (terminate k ev).buf ≡ take k ev.buf
unfolding terminate
terminate_buf k ev = take-set k 0 ev.buf

terminate_len : (k : ℕ) (ev : Event) → (terminate k ev).len ≡ k
unfolding terminate
terminate_len k ev = refl

eventset_keeps :
    (ev : Event) (fd : ℕ) (cb : Callback) (arg : Option ℕ) (now : ℕ)
    → 0 < ev.len
    → ((eventset ev fd cb arg now).len ≡ ev.len) × ((eventset ev fd cb arg now).buf ≡ ev.buf)
unfolding eventset
eventset_keeps ev fd cb arg now h = ground arith

-- The bytes that `senddata` hands to `send` are those that `recvdata` got.
loaded_bytes :
    (ev : Event) (i now b : ℕ) (bs : List ℕ)
    → let e = loaded ev i (b ∷ bs) now in take e.len e.buf ≡ b ∷ bs
unfolding loaded
loaded_bytes ev i now b bs =
    let k = length (b ∷ bs) in
    let full = record ev { buf = (b ∷ bs) ++ drop k ev.buf; status = 0 } in
    let len = terminate_len k full in
    let (keep_len, keep_buf) =
      eventset_keeps (terminate k full) ev.fd senddata (some i) now (rw len (omega arith)) in
    ap₂ (λ n l. take n l) (keep_len ∙ len) keep_buf
    ∙ terminate_buf k full
    ∙ take-append (b ∷ bs) (drop k ev.buf)

loaded_fd :
    (ev : Event) (i now : ℕ) (bs : List ℕ)
    → ((loaded ev i bs now).fd ≡ ev.fd) × ((loaded ev i bs now).status ≡ 1)
unfolding loaded eventset
loaded_fd ev i now bs = (refl, refl)

-- Data of 1 to 4095 bytes that comes on an active slot is taken without a write behind the buffer,
-- and recvdata and the send that follows put the same bytes, from the first to as many as send
-- took, on the same descriptor.
pub echo :
    (r : Reactor) (i now later b n : ℕ) (bs : List ℕ)
    → IsActive r i
    → length (b ∷ bs) < buflen
    → let fd = (r.slots i).fd in
      (r1 : Reactor) × (on_recvdata fd i (got (b ∷ bs)) now r ≡ some r1)
      × ((on_senddata fd i (sent (suc n)) later r1).trace
          ≡ r.trace ++ (came fd (b ∷ bs) ∷ went fd (take (suc n) (b ∷ bs)) ∷ []))
echo r i now later b n bs a fits =
    let fd = (r.slots i).fd in
    let r1 = receive fd i (got (b ∷ bs)) now r in
    let (t, tr) = receive_lem r i now b bs a in
    let (same, used) = loaded_fd (r.slots i) i now (b ∷ bs) in
    let fd_same : (r1.slots i).fd ≡ fd = ap (λ e. Event.fd e) t.slot_at ∙ same in
    let active : IsActive r1 i = record {
      used = ap (λ e. Event.status e) t.slot_at ∙ used;
      is_open = t.opened_same (r1.slots i).fd ∙ ap r.opened fd_same ∙ a.is_open;
    } in
    let bytes : take (r1.slots i).len (r1.slots i).buf ≡ b ∷ bs =
      ap (λ e. take (Event.len e) (Event.buf e)) t.slot_at ∙ loaded_bytes (r.slots i) i now b bs in
    (
      r1,
      on_recvdata_within fd i (got (b ∷ bs)) now r fits,
      ap (λ f. Reactor.trace (on_senddata f i (sent (suc n)) later r1)) (sym fd_same)
          ∙ (on_senddata_lem r1 i later n active).1
          ∙ ap₂ (λ f l. r1.trace ++ (went f (take (suc n) l) ∷ [])) fd_same bytes
          ∙ ap (λ tr'. tr' ++ (went fd (take (suc n) (b ∷ bs)) ∷ [])) tr
          ∙ append_assoc r.trace (came fd (b ∷ bs) ∷ []) (went fd (take (suc n) (b ∷ bs)) ∷ []),
    )
