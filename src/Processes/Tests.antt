-- ===== src/Processes/Tests.antt =====
-- Clients of server2.c, and its theorems at concrete runs.
use network.Prelude.{ℕ, ◌≡◌, refl, Bool, true, false, some, [], ◌∷◌, subst}
use mathlib.Core.Option
use network.Prelude.Tests.{ltb}
use network.Outcome.{ok, exited}
use network.Processes.{Family, Turn, start, be_parent, round, rounds, child_ends}
use network.Processes.Descriptors.{Inv, IsFresh, forked, family_descriptors}
use network.Processes.Signals.{first_leaver_ends_server}

abbrev at_start : ℕ → Bool
at_start f = ltb f 4

abbrev connects : Turn
connects = record { accepted = some 4; forked = true; installed = true }

abbrev after_two : Family
after_two = forked 3 4 (forked 3 4 (start at_start))

two_rounds : rounds 3 (connects ∷ connects ∷ []) (start at_start) ≡ ok after_two
unfolding rounds round be_parent
two_rounds = refl

connects-IsFresh : IsFresh at_start connects
connects-IsFresh cfd e = subst (λ f. ltb f 4 ≡ false) (Option.some-injective 4 cfd e) refl

family_descriptors_example : Inv 3 at_start after_two
family_descriptors_example =
    family_descriptors 3 at_start (connects ∷ connects ∷ []) after_two
      (connects-IsFresh, (connects-IsFresh, tt)) two_rounds

first_leaver_ends_server_example : child_ends 3 1 connects after_two ≡ exited
first_leaver_ends_server_example =
    first_leaver_ends_server 3 1 at_start connects (connects ∷ []) connects after_two two_rounds
