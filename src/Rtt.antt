-- ===== src/Rtt.antt =====
-- unpv13e/lib/rtt.c: the timeout for a packet, from the times that the answers took. Its floating-point
-- numbers are an interface: the arithmetic of the machine with its rounding.
pub mod Packet
pub mod Clamped
use network.Prelude.{ℕ, zero, suc, ◌+◌, ◌-◌, ◌*◌, ◌/◌, ◌%◌, ◌^◌, ◌≡◌, Bool, true, false}
use network.Prelude.Tests.{ltb, if◌then◌else◌}
use network.Prelude.Int.{ℤ}

-- `float` and `double`: `of_ms n` is n/1000.0, `to_float` what is left of a `double` in a `float`, `to_int` the
-- conversion to `int`.
pub record Floats : Type 1 where
  pub F : Type 0
  pub of_ms : ℕ → F
  pub to_float : F → F
  pub add : F → F → F
  pub sub : F → F → F
  pub mul : F → F → F
  pub div : F → F → F
  pub neg : F → F
  pub lt : F → F → Bool
  pub to_int : F → ℤ

-- No number is on both sides of another, and 2 is less than 60.
pub record IsOrdered (fl : Floats) : Type 0 where
  pub asym : (a b : Floats.F fl) → Floats.lt fl a b ≡ true → Floats.lt fl b a ≡ false
  pub min_max : Floats.lt fl (Floats.of_ms fl 2000) (Floats.of_ms fl 60000) ≡ true

-- What `gettimeofday` tells.
pub record Time : Type 0 where
  pub tv_sec : ℕ
  pub tv_usec : ℕ

abbrev pub rtt_maxnrexmt : ℕ
rtt_maxnrexmt = 3

module _ (fl : Floats) where
  open fl use {F, of_ms, to_float, add, sub, mul, div, neg, lt, to_int}

  abbrev pub rtt_rxtmin : F
  rtt_rxtmin = of_ms 2000

  abbrev pub rtt_rxtmax : F
  rtt_rxtmax = of_ms 60000

  pub record RttInfo : Type 0 where
    pub rtt_rtt : F
    pub rtt_srtt : F
    pub rtt_rttvar : F
    pub rtt_rto : F
    pub rtt_nrexmt : ℕ
    pub rtt_base : ℕ

  pub rtt_rtocalc : RttInfo → F
  rtt_rtocalc r = add r.rtt_srtt (mul (of_ms 4000) r.rtt_rttvar)

  pub rtt_minmax : F → F
  rtt_minmax rto =
      if lt rto rtt_rxtmin then rtt_rxtmin else (if lt rtt_rxtmax rto then rtt_rxtmax else rto)

  pub rtt_init : Time → RttInfo → RttInfo
  rtt_init now r =
      let r' = record r {
        rtt_base = now.tv_sec % 2 ^ 32;
        rtt_rtt = of_ms 0;
        rtt_srtt = of_ms 0;
        rtt_rttvar = of_ms 750;
      } in
      record r' { rtt_rto = rtt_minmax (to_float (rtt_rtocalc r')) }

  -- In 32 bits, also where the clock is behind `rtt_base`.
  pub rtt_ts : Time → RttInfo → ℕ
  rtt_ts now r = ((now.tv_sec + (2 ^ 32 - r.rtt_base)) * 1000 + now.tv_usec / 1000) % 2 ^ 32

  pub rtt_newpack : RttInfo → RttInfo
  rtt_newpack r = record r { rtt_nrexmt = 0 }

  pub rtt_start : RttInfo → ℤ
  rtt_start r = to_int (add r.rtt_rto (of_ms 500))

  pub rtt_stop : ℕ → RttInfo → RttInfo
  rtt_stop ms r =
      let rtt = to_float (of_ms ms) in
      let delta = sub rtt r.rtt_srtt in
      let size = if lt delta (of_ms 0) then neg delta else delta in
      let r' = record r {
        rtt_rtt = rtt;
        rtt_srtt = to_float (add r.rtt_srtt (div delta (of_ms 8000)));
        rtt_rttvar = to_float (add r.rtt_rttvar (div (sub size r.rtt_rttvar) (of_ms 4000)));
      } in
      record r' { rtt_rto = rtt_minmax (to_float (rtt_rtocalc r')) }

  -- The first part of `rtt_timeout`, and its result: whether to give up.
  pub rtt_timeout : RttInfo → RttInfo × Bool
  rtt_timeout r =
      let r' = record r {
        rtt_rto = to_float (mul r.rtt_rto (of_ms 2000));
        rtt_nrexmt = r.rtt_nrexmt + 1;
      } in
      (r', ltb rtt_maxnrexmt r'.rtt_nrexmt)
