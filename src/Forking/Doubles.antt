-- ===== src/Forking/Doubles.antt =====
-- How many processes client.c becomes.
use network.Prelude.{
  ℕ, zero, suc, ◌+◌, ◌-◌, ◌^◌, ◌≤◌, ◌≡◌, refl, sym, ap, subst, ◌∙◌, true, List, [], ◌∷◌, ◌++◌,
  arith,
}
use native.Mathlib.Nat.{pow-suc}
use network.Prelude.Lists.{length}
use network.Prelude.Tests.{if◌then◌else◌}
use network.Outcome.{ok}
use network.Forking.{
  at_fork, at_stdin, at_socket, to_socket, to_stdout, Process, Traffic, Client, Turn, Effect, quiet,
  at, start, goes_on, fork, turn, turn_at, joined, step,
}
use network.Forking.Reach.{Reach, begins, goes, came, at_places, read_came}

-- With k calls of `fork` for each process altogether, what comes of one of them, and of all.
pub weight : ℕ → Process → ℕ
weight k p = 2 ^ (k - p.forks)

unfoldable pub total : ℕ → List Process → ℕ
total k [] = 0
total k (p ∷ ps) = weight k p + total k ps

total-append : (k : ℕ) (ps qs : List Process) → total k (ps ++ qs) ≡ total k ps + total k qs
unfolding total
total-append k [] qs = omega arith
total-append k (p ∷ ps) qs = omega (arith, total-append k ps qs)

-- No process has forked more than k times.
unfoldable pub AtMost : ℕ → List Process → Type 0
AtMost k [] = Unit
AtMost k (p ∷ ps) = (p.forks ≤ k) × AtMost k ps

AtMost-front : (k : ℕ) (ps qs : List Process) → AtMost k (ps ++ qs) → AtMost k ps
unfolding AtMost
AtMost-front k [] qs v = tt
AtMost-front k (p ∷ ps) qs v = (v.0, AtMost-front k ps qs v.1)

power : (k n : ℕ) → n + 1 ≤ k → 2 ^ (k - n) ≡ 2 ^ (k - (n + 1)) + 2 ^ (k - (n + 1))
power k n h =
    let e : k - n ≡ suc (k - (n + 1)) = omega arith in
    ap (λ m. 2 ^ m) e ∙ omega (arith, pow-suc 2 (k - (n + 1)))

-- With `fork` that makes a child, a statement keeps the weight.
Shares : ℕ → Process → Effect → Type 0
Shares k p e =
    e.process.forks ≤ k → (p.forks ≤ k) × (weight k p ≡ weight k e.process + total k e.children)

fork-Shares : (k : ℕ) (t : Turn) (p : Process) → t.forked ≡ true → Shares k p (fork t p)
unfolding fork Shares total weight
fork-Shares k t p f h = rw f (omega (arith, h), omega (arith, power k p.forks h))

goes_on-Shares :
    (k : ℕ) (p : Process) (e : Effect) → e.process.forks ≡ p.forks → e.children ≡ [] → Shares k p e
unfolding Shares total weight
goes_on-Shares k p e f c h = rw (f, c) (omega (arith, f, h), omega arith)

turn-Shares :
    (k : ℕ) (t : Turn)
    → t.forked ≡ true
    → (p : Process) (e : Effect) → turn t p ≡ ok e
    → Shares k p e
unfolding turn
turn-Shares k t f p e =
    at_places (λ p. turn t p ≡ ok e → Shares k p e) p
      (λ run.
        let same : fork t (at p at_fork) ≡ e = cc run in
        subst (Shares k (at p at_fork)) same (fork-Shares k t (at p at_fork) f))
      (λ run.
        let (bs, same) = read_came t.answer _ e run in
        subst (Shares k (at p at_stdin)) same (goes_on-Shares k (at p at_stdin) _ refl refl))
      (λ run.
        let (bs, same) = read_came t.answer _ e run in
        subst (Shares k (at p at_socket)) same (goes_on-Shares k (at p at_socket) _ refl refl))
      (λ bs run.
        let same : goes_on p (record quiet { sent = if t.wrote then bs ∷ [] else [] }) ≡ e =
          cc run in
        subst (Shares k (at p (to_socket bs))) same
          (goes_on-Shares k (at p (to_socket bs)) _ refl refl))
      (λ bs run.
        let same : goes_on p (record quiet { printed = if t.wrote then bs ∷ [] else [] }) ≡ e =
          cc run in
        subst (Shares k (at p (to_stdout bs))) same
          (goes_on-Shares k (at p (to_stdout bs)) _ refl refl))

turn_at-Shares :
    (k i : ℕ) (t : Turn) (ps : List Process) (r : Traffic × List Process)
    → t.forked ≡ true
    → turn_at i t ps ≡ ok r
    → AtMost k r.1
    → AtMost k ps × (total k ps ≡ total k r.1)
unfolding turn_at total AtMost Shares
turn_at-Shares k i t [] r f run =
    let same : (quiet, []) ≡ r = cc run in
    subst (λ x. AtMost k x.1 → AtMost k [] × (total k [] ≡ total k x.1)) same (λ v. (tt, refl))
turn_at-Shares k zero t (p ∷ ps) r f run =
    let (e, one, same) = came (turn t p) (λ e. (e.through, e.process ∷ (ps ++ e.children))) r run in
    subst (λ x. AtMost k x.1 → AtMost k (p ∷ ps) × (total k (p ∷ ps) ≡ total k x.1)) same
      (λ v.
        let (low, shared) = turn-Shares k t f p e one v.0 in
        (
          (low, AtMost-front k ps e.children v.1),
          omega (arith, shared, total-append k ps e.children),
        ))
turn_at-Shares k (suc i) t (p ∷ ps) r f run =
    let (r', others, same) = came (turn_at i t ps) (λ r. (r.0, p ∷ r.1)) r run in
    subst (λ x. AtMost k x.1 → AtMost k (p ∷ ps) × (total k (p ∷ ps) ≡ total k x.1)) same
      (λ v.
        let (low, shared) = turn_at-Shares k i t ps r' f others v.1 in
        ((v.0, low), ap (λ n. weight k p + n) shared))

reach_total :
    (k : ℕ) (s : Client)
    → Reach (λ t. t.forked ≡ true) s
    → AtMost k s.processes
    → total k s.processes ≡ 2 ^ k
unfolding start step total AtMost weight
reach_total k s begins v =
    let all_left : k - 0 ≡ k = omega arith in
    let whole : 2 ^ (k - 0) ≡ 2 ^ k = ap (λ m. 2 ^ m) all_left in omega (arith, whole)
reach_total k s' (goes {s} i t f path run) v =
    let (r, turned, same) =
      came (turn_at i t s.processes)
        (λ r. record { traffic = joined s.traffic r.0; processes = r.1 }) s' run in
    let ps : r.1 ≡ s'.processes = ap (λ x. x.processes) same in
    let (low, shared) = turn_at-Shares k i t s.processes r f turned (subst (AtMost k) (sym ps) v) in
    ap (total k) (sym ps) ∙ sym shared ∙ reach_total k s path low

-- Every process has forked n times.
unfoldable pub Each : ℕ → List Process → Type 0
Each n [] = Unit
Each n (p ∷ ps) = (p.forks ≡ n) × Each n ps

Each-total : (n : ℕ) (ps : List Process) → Each n ps → AtMost n ps × (total n ps ≡ length ps)
unfolding Each AtMost total weight
Each-total n [] v = (tt, refl)
Each-total n (p ∷ ps) v =
    let (low, sum) = Each-total n ps v.1 in
    let none_left : n - p.forks ≡ 0 = omega (arith, v.0) in
    let one : 2 ^ (n - p.forks) ≡ 1 = ap (λ m. 2 ^ m) none_left in
    ((omega (arith, v.0), low), omega (arith, one, sum))

-- In every order of the statements of the processes of Linux高性能服务器/client.c, if every fork makes a
-- child, there are 2 ^ n processes whenever each has forked n times.
pub forks_double :
    (n : ℕ) (s : Client)
    → Reach (λ t. t.forked ≡ true) s
    → Each n s.processes
    → length s.processes ≡ 2 ^ n
forks_double n s path each =
    let (low, sum) = Each-total n s.processes each in sym sum ∙ reach_total n s path low
