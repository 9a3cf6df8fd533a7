-- ===== src/Rtt/Clamped.antt =====
-- The timeout of rtt.c between its two limits.
use network.Prelude.{ℕ, ◌≡◌, inl, inr, false}
use network.Prelude.Tests.{Bool-cases}
use network.Rtt.{
  Floats, IsOrdered, Time, RttInfo, rtt_rxtmin, rtt_rxtmax, rtt_minmax, rtt_init, rtt_stop,
}

-- Not below 2 seconds and not above 60.
abbrev pub Clamped : (fl : Floats) → Floats.F fl → Type 0
Clamped fl x = (Floats.lt fl x (rtt_rxtmin fl) ≡ false) × (Floats.lt fl (rtt_rxtmax fl) x ≡ false)

module _ (fl : Floats) (o : IsOrdered fl) where
  open fl use {F, of_ms, lt}

  irreflexive : (x : F) → lt x x ≡ false
  irreflexive x = elim (Bool-cases (lt x x)) [ inl e ↦ o.asym x x e | inr e ↦ e ]

  rtt_minmax-Clamped : (x : F) → Clamped fl (rtt_minmax fl x)
  unfolding rtt_minmax
  rtt_minmax-Clamped x = elim (Bool-cases (lt x (of_ms 2000))) [
    | inl e ↦ rw e (irreflexive (of_ms 2000), o.asym (of_ms 2000) (of_ms 60000) o.min_max)
    | inr e ↦ elim (Bool-cases (lt (of_ms 60000) x)) [
      | inl d ↦ rw (e, d) (o.asym (of_ms 2000) (of_ms 60000) o.min_max, irreflexive (of_ms 60000))
      | inr d ↦ rw (e, d) (e, d)
    ]
  ]

  pub rtt_stop-Clamped : (ms : ℕ) (r : RttInfo fl) → Clamped fl (rtt_stop fl ms r).rtt_rto
  unfolding rtt_stop
  rtt_stop-Clamped ms r = rtt_minmax-Clamped _

  pub rtt_init-Clamped : (now : Time) (r : RttInfo fl) → Clamped fl (rtt_init fl now r).rtt_rto
  unfolding rtt_init
  rtt_init-Clamped now r = rtt_minmax-Clamped _
