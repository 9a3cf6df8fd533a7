-- ===== src/Posix/Pipe.antt =====
-- A socket that works: it moves at most `suc piece` bytes in a call, and nothing fails. Its state is
-- the bytes to come and the bytes sent.
use network.Prelude.{ℕ, suc, ◌<◌, ◌≡◌, ◌≢◌, refl, sym, ◌∙◌, ap, List, [], ◌∷◌, ◌++◌, min, arith}
use network.Prelude.Lists.{
  drop-nil, length, take, drop, take-append-drop, length-take, nil_of_length,
}
use network.Posix.{
  got, sent, Socket, IsSink, IsSource, NoFailure, OnlySignals, TakesAll, IsDuplex, FailsEmpty,
  Answer, failed, eagain,
}

abbrev pub pipe : ℕ → Socket
pipe piece = record {
  World = List ℕ × List ℕ;
  send = λ buf w.
      (sent (min (suc piece) (length buf)), (w.0, w.1 ++ take (min (suc piece) (length buf)) buf));
  recv = λ n w. (got (take (min (suc piece) n) w.0), (drop (min (suc piece) n) w.0, w.1));
  close = λ w. w;
}

abbrev pub to_come : (piece : ℕ) → Socket.World (pipe piece) → List ℕ
to_come piece w = w.0

abbrev pub sent_off : (piece : ℕ) → Socket.World (pipe piece) → List ℕ
sent_off piece w = w.1

sent_inj : {m n : ℕ} → sent m ≡ sent n → m ≡ n
sent_inj e = cc

got_inj : {xs ys : List ℕ} → got xs ≡ got ys → xs ≡ ys
got_inj e = cc

length_pos : (xs : List ℕ) → xs ≢ [] → 0 < length xs
length_pos [] h = absurd (h refl)
length_pos (x ∷ xs) h = omega arith

-- A piece of a list, if it may hold anything, is empty only where the list is.
take_nil : (m n : ℕ) (xs : List ℕ) → 0 < n → take (min (suc m) n) xs ≡ [] → xs ≡ []
take_nil m n xs h e =
    nil_of_length xs (omega (arith, length-take (min (suc m) n) xs, ap (λ l. length l) e))

pub pipe-IsSink : (piece : ℕ) → IsSink (pipe piece) (sent_off piece)
pipe-IsSink piece = record {
  takes = λ buf w n e.
      let q = sent_inj e in
      (
        omega (arith, q),
        (λ ne. omega (arith, q, length_pos buf ne)),
        ap (λ j. w.1 ++ take j buf) q,
      );
  loses = λ buf w er e. absurd (cc e);
}

pub pipe-IsSource : (piece : ℕ) → IsSource (pipe piece) (to_come piece)
pipe-IsSource piece = record {
  delivers = λ n w bs h e.
      let q = got_inj e in
      (
        omega (arith, ap (λ l. length l) q, length-take (min (suc piece) n) w.0),
        sym (take-append-drop (min (suc piece) n) w.0)
            ∙ ap (λ l. l ++ drop (min (suc piece) n) w.0) q,
        λ z. take_nil piece n w.0 h (q ∙ z),
      );
  keeps = λ n w er e. cc;
}

pub pipe-NoFailure : (piece : ℕ) → NoFailure (pipe piece)
pipe-NoFailure piece = record { sends = λ buf w e q. cc; receives = λ n w e q. cc }

pub pipe-OnlySignals : (piece : ℕ) → OnlySignals (pipe piece) (λ w. 0)
pipe-OnlySignals piece = record {
  send_signal = λ buf w e q. absurd (cc q);
  send_other = λ buf w. omega arith;
  recv_signal = λ n w e q. absurd (cc q);
  recv_other = λ n w. omega arith;
}

-- The same with a `send` that takes everything.
abbrev pub hose : ℕ → Socket
hose piece = record (pipe piece) { send = λ buf w. (sent (length buf), (w.0, w.1 ++ buf)) }

abbrev pub hose_to_come : (piece : ℕ) → Socket.World (hose piece) → List ℕ
hose_to_come piece w = w.0

abbrev pub hose_sent : (piece : ℕ) → Socket.World (hose piece) → List ℕ
hose_sent piece w = w.1

pub hose-TakesAll : (piece : ℕ) → TakesAll (hose piece) (hose_sent piece)
hose-TakesAll piece = record { whole = λ buf w. (refl, refl) }

pub hose-IsDuplex : (piece : ℕ) → IsDuplex (hose piece) (hose_sent piece) (hose_to_come piece)
hose-IsDuplex piece = record {
  send_keeps = λ buf w. refl;
  recv_keeps = λ n w. refl;
  close_keeps = λ w. (refl, refl);
}

pub hose-IsSource : (piece : ℕ) → IsSource (hose piece) (hose_to_come piece)
hose-IsSource piece = record {
  delivers = (pipe-IsSource piece).delivers;
  keeps = (pipe-IsSource piece).keeps;
}

pub hose-NoFailure : (piece : ℕ) → NoFailure (hose piece)
hose-NoFailure piece = record { sends = λ buf w e q. cc; receives = λ n w e q. cc }

-- A non-blocking socket: `recv` fails with EAGAIN where nothing is there.
abbrev pub read_now : ℕ → ℕ → List ℕ → Answer
read_now piece n [] = failed eagain
read_now piece n (b ∷ bs) = got (take (min (suc piece) n) (b ∷ bs))

abbrev pub nonblocking : ℕ → Socket
nonblocking piece = record (pipe piece) {
  recv = λ n w. (read_now piece n w.0, (drop (min (suc piece) n) w.0, w.1));
}

abbrev pub nonblocking_to_come : (piece : ℕ) → Socket.World (nonblocking piece) → List ℕ
nonblocking_to_come piece w = w.0

read_now_failed : (piece n e : ℕ) (l : List ℕ) → read_now piece n l ≡ failed e → l ≡ []
read_now_failed piece n e [] h = refl
read_now_failed piece n e (b ∷ bs) h = absurd (cc h)

read_now_got :
    (piece n : ℕ) (l bs : List ℕ) → read_now piece n l ≡ got bs → take (min (suc piece) n) l ≡ bs
read_now_got piece n [] bs h = absurd (cc h)
read_now_got piece n (b ∷ l) bs h = got_inj h

pub nonblocking-FailsEmpty :
    (piece : ℕ) → FailsEmpty (nonblocking piece) (nonblocking_to_come piece)
nonblocking-FailsEmpty piece = record { empty = λ n w e h. read_now_failed piece n e w.0 h }

pub nonblocking-IsSource : (piece : ℕ) → IsSource (nonblocking piece) (nonblocking_to_come piece)
nonblocking-IsSource piece = record {
  delivers = λ n w bs h e.
      (pipe-IsSource piece).delivers n w bs h (ap got (read_now_got piece n w.0 bs e));
  keeps = λ n w er e.
      let z = read_now_failed piece n er w.0 e in
      ap (drop (min (suc piece) n)) z ∙ drop-nil (min (suc piece) n) ∙ sym z;
}
