-- ===== src/Nonblock/Tests.antt =====
-- A round of `str_cli`, and its theorem at the state behind it.
use network.Prelude.{ℕ, ◌≤◌, ◌≡◌, refl, ap, min, true, false, ◌&&◌, List, [], ◌∷◌, ◌++◌, arith}
use network.Prelude.Tests.{ltb, if◌then◌else◌}
use network.Prelude.Lists.{length, take, length-take}
use network.Posix.{got, failed, sent, eagain}
use network.Nonblock.{
  Client, start, Turn, goes_on, read_stdin, read_socket, write_stdout, write_socket, half_close,
  round, rest, reset, fill, advance, is_empty, room, maxline,
}
use network.Nonblock.Copies.{IsFitting, here, next, client_copies}

abbrev abc : List ℕ
abc = 97 ∷ 98 ∷ 99 ∷ []

-- "abc" is typed, and the socket takes two bytes of it.
abbrev types : Turn
types = record {
  stdin_ready = true;
  socket_ready = false;
  stdout_free = true;
  socket_free = true;
  input = λ n. got (take n abc);
  reply = λ n. failed eagain;
  shows = λ n. sent n;
  sends = λ n. sent (min 2 n);
}

abbrev half_sent : Client
half_sent = record start {
  to = record { text = 97 ∷ 98 ∷ 99 ∷ []; optr = 2 };
  typed = 97 ∷ 98 ∷ 99 ∷ [];
  sent_on = 97 ∷ 98 ∷ [];
}

first_round : round types start ≡ goes_on half_sent
unfolding round start read_stdin read_socket write_stdout write_socket half_close reset fill advance
    is_empty room rest
first_round = refl

-- The rest goes out in the next round, and the buffer starts again.
second_round :
    round (record types { stdin_ready = false }) half_sent
    ≡ goes_on (record half_sent { to = reset; sent_on = 97 ∷ 98 ∷ 99 ∷ [] })
unfolding round start read_stdin read_socket write_stdout write_socket half_close reset fill advance
    is_empty room rest
second_round = refl

got_same : {a b : List ℕ} → got a ≡ got b → a ≡ b
got_same e = cc

sent_same : {a b : ℕ} → sent a ≡ sent b → a ≡ b
sent_same e = cc

types-IsFitting : IsFitting types
types-IsFitting = record {
  input_fits = λ n bs e. omega (arith, length-take n abc, ap (λ l. length l) (got_same e));
  reply_fits = λ n bs e. absurd (cc e);
  shows_fits = λ n k e. omega (arith, sent_same e);
  sends_fits = λ n k e. omega (arith, sent_same e);
}

client_copies_example :
    (half_sent.typed ≡ half_sent.sent_on ++ rest half_sent.to)
    × (half_sent.received ≡ half_sent.shown ++ rest half_sent.fr)
    × (half_sent.shutdowns ≡ (if half_sent.stdineof && is_empty half_sent.to then 1 else 0))
    × (length half_sent.to.text ≤ maxline)
    × (length half_sent.fr.text ≤ maxline)
    × (ltb (length half_sent.fr.text) maxline ≡ false → is_empty half_sent.fr ≡ false)
client_copies_example = client_copies half_sent (next types here types-IsFitting first_round)
