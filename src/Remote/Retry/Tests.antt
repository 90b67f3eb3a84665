-- ===== src/Remote/Retry/Tests.antt =====
-- core/internal/remote/retry.go: a connector that answers at the third attempt.
use agentbell.Common.{ℕ, zero, suc, ◌<◌, false, [], ◌∷◌, none, some, ◌≡◌, refl, arith}
use agentbell.Common.Int.{pos}
use agentbell.Remote.Retry.{ConnectorError, Pulled, Waited, attempts_of, run}
use agentbell.Remote.Retry.Bounds.{IsBounded, run-IsBounded}
use agentbell.Remote.Retry.Success.{IsTransient, Succeeds, run-Succeeds}

abbrev pull : ℕ → Pulled
pull zero = record { count = 1; error = some ConnectorError.other; context_done = false }
pull (suc zero) = record { count = 0; error = some ConnectorError.other; context_done = false }
pull (suc (suc i)) = record { count = 4; error = none; context_done = false }

abbrev wait : ℕ → Waited
wait i = Waited.in_time

third :
    run pull wait (7 ∷ []) (pos 5)
    ≡ record { total = 5; error = none; pulls = 3; delays = 7 ∷ 7 ∷ [] }
unfolding run
third = refl

run-IsBounded_example :
    IsBounded pull (7 ∷ []) 0 (attempts_of (7 ∷ []) 5) 0 (run pull wait (7 ∷ []) (pos 5))
run-IsBounded_example = run-IsBounded pull wait (7 ∷ []) 5 refl

transient : (j : ℕ) → j < 2 → IsTransient pull wait j
transient zero l = record {
  cause = ConnectorError.other;
  failed = refl;
  passing = refl;
  running = refl;
  waited = refl;
}
transient (suc zero) l = record {
  cause = ConnectorError.other;
  failed = refl;
  passing = refl;
  running = refl;
  waited = refl;
}
transient (suc (suc j)) l = absurd (omega (arith, l))

run-Succeeds_example : Succeeds pull wait 2 (run pull wait (7 ∷ []) (pos 5))
run-Succeeds_example = run-Succeeds pull wait (7 ∷ []) 5 2 refl (omega arith) transient refl
