-- ===== src/Remote/Retry/Success.antt =====
-- core/internal/remote/retry.go: a pull that succeeds ends the run.
use agentbell.Common.{ℕ, zero, suc, ◌+◌, ◌<◌, false, List, none, some, leb, ◌≡◌, ap, subst, arith}
use agentbell.Common.Int.{pos}
use agentbell.Remote.Retry.{
  ConnectorError, permanent_connector_error, Pulled, Waited, Ran, has_zero, attempts_from,
  backoff_or_default, attempts_of, run,
}

module _ (pull : ℕ → Pulled) (wait : ℕ → Waited) where
  -- An attempt that fails for a while, and is waited for.
  pub record IsTransient (i : ℕ) : Type 0 where
    pub cause : ConnectorError
    pub failed : (pull i).error ≡ some cause
    pub passing : permanent_connector_error cause ≡ false
    pub running : (pull i).context_done ≡ false
    pub waited : wait i ≡ Waited.in_time

  abbrev pub Succeeds : ℕ → Ran → Type 0
  Succeeds i r = (r.error ≡ none) × (r.pulls ≡ suc i)

  module _ (backoff : List ℕ) (attempts : ℕ) where
    attempts_from-Succeeds :
        (i left attempt total : ℕ)
        → attempt + left ≡ attempts
        → i < left
        → ((j : ℕ) → j < i → IsTransient (attempt + j))
        → (pull (attempt + i)).error ≡ none
        → Succeeds i (attempts_from pull wait backoff attempts left attempt total)
    unfolding attempts_from
    attempts_from-Succeeds zero zero attempt total sum below earlier ends =
        absurd (omega (arith, below))
    attempts_from-Succeeds (suc i) zero attempt total sum below earlier ends =
        absurd (omega (arith, below))
    attempts_from-Succeeds zero (suc left) attempt total sum below earlier ends =
        let here : (pull attempt).error ≡ none =
          subst (λ a. (pull a).error ≡ none) (omega arith) ends in
        (rw here, rw here)
    attempts_from-Succeeds (suc i) (suc left) attempt total sum below earlier ends =
        let t : IsTransient attempt = subst IsTransient (omega arith) (earlier 0 (omega arith)) in
        let more : leb attempts (suc attempt) ≡ false = ground (arith, sum, below) in
        let (e, n) =
          attempts_from-Succeeds i left (suc attempt) (total + (pull attempt).count)
            (omega (arith, sum)) (omega (arith, below))
            (λ j l. subst IsTransient (omega arith) (earlier (suc j) (omega (arith, l))))
            (subst (λ a. (pull a).error ≡ none) (omega arith) ends) in
        (
          rw (t.failed, t.running, t.passing, more, t.waited) e,
          rw (t.failed, t.running, t.passing, more, t.waited) (ap suc n),
        )

-- Where some pull within the attempts succeeds, and those before it fail with an error that is not
-- permanent and are waited for, `Run` ends without an error, just behind that pull.
pub run-Succeeds :
    (pull : ℕ → Pulled) (wait : ℕ → Waited) (backoff : List ℕ) (n i : ℕ)
    → has_zero (backoff_or_default backoff) ≡ false
    → i < attempts_of (backoff_or_default backoff) n
    → ((j : ℕ) → j < i → IsTransient pull wait j)
    → (pull i).error ≡ none
    → Succeeds pull wait i (run pull wait backoff (pos n))
unfolding run
run-Succeeds pull wait backoff n i valid below earlier ends = rw valid (
    attempts_from-Succeeds pull wait (backoff_or_default backoff)
      (attempts_of (backoff_or_default backoff) n) i (attempts_of (backoff_or_default backoff) n) 0
      0 (omega arith) below (λ j l. subst (IsTransient pull wait) (omega arith) (earlier j l))
      (subst (λ a. (pull a).error ≡ none) (omega arith) ends))
