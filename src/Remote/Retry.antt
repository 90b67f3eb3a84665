-- ===== src/Remote/Retry.antt =====
-- core/internal/remote/retry.go: `Run`, which pulls from a connector until it succeeds, with waits in
-- between. What each pull and each wait comes to, by the number of the attempt, is a parameter. The
-- waits and the pulls made are returned besides the results of the code. A duration is not negative,
-- and the context is not nil.
pub mod Bounds
pub mod Success
mod Tests
use agentbell.Common.{
  ℕ, zero, suc, ◌+◌, ◌-◌, ◌*◌, ◌^◌, Bool, true, false, List, [], ◌∷◌, Option, none, some, length,
  leb, ◌==◌, ◌||◌, if◌then◌else◌,
}
use agentbell.Common.Int.{ℤ, pos, negsuc}

-- The errors of a pull, by what `permanentConnectorError` tells apart.
pub data ConnectorError : Type 0 where
  invalid_remote_config not_pull_connector vendor_cloud_unsupported invalid_puller other :
      ConnectorError

abbrev pub permanent_connector_error : ConnectorError → Bool
permanent_connector_error ConnectorError.other = false
permanent_connector_error _ = true

-- A pull: what it has drained, its error, and whether the context is done behind it.
pub record Pulled : Type 0 where
  pub count : ℕ
  pub error : Option ConnectorError
  pub context_done : Bool

-- A wait: it ends in time, or with an error and a context that is done, with an error that is one of
-- a context, or with any other.
pub data Waited : Type 0 where
  in_time context_done context_error failed : Waited

pub data Error : Type 0 where
  invalid_retry_policy connector_retries_exhausted context : Error
  permanent : ConnectorError → Error

pub record Ran : Type 0 where
  pub total : ℕ
  pub error : Option Error
  pub pulls : ℕ
  pub delays : List ℕ

abbrev second : ℕ
second = 10 ^ 9

abbrev pub default_connector_backoff : List ℕ
default_connector_backoff = 1 * second ∷ 5 * second ∷ 30 * second ∷ 120 * second ∷ 600 * second ∷ []

abbrev pub has_zero : List ℕ → Bool
has_zero [] = false
has_zero (d ∷ ds) = d == 0 || has_zero ds

-- An index out of range is not reached, for the list is not empty.
abbrev pub at : List ℕ → ℕ → ℕ
at [] i = 0
at (d ∷ ds) zero = d
at (d ∷ ds) (suc i) = at ds i

-- The last delay stands for all later ones.
abbrev pub delay_at : List ℕ → ℕ → ℕ
delay_at backoff attempt =
    if leb (length backoff) attempt then at backoff (length backoff - 1) else at backoff attempt

abbrev pub stop : ℕ → Option Error → Ran
stop total e = record { total = total; error = e; pulls = 1; delays = [] }

abbrev pub after_pull : Ran → Ran
after_pull r = record r { pulls = suc r.pulls }

abbrev pub delayed : ℕ → Ran → Ran
delayed d r = record r { delays = d ∷ r.delays }

abbrev pub refused : Ran
refused = record { total = 0; error = some Error.invalid_retry_policy; pulls = 0; delays = [] }

abbrev pub backoff_or_default : List ℕ → List ℕ
backoff_or_default [] = default_connector_backoff
backoff_or_default (d ∷ ds) = d ∷ ds

abbrev pub attempts_of : List ℕ → ℕ → ℕ
attempts_of backoff zero = length backoff + 1
attempts_of backoff (suc n) = suc n

module _ (pull : ℕ → Pulled) (wait : ℕ → Waited) where
  -- What a wait leads to.
  abbrev pub after_wait : ℕ → Ran → Waited → Ran
  after_wait total rest Waited.in_time = after_pull rest
  after_wait total rest Waited.context_done = stop total (some Error.context)
  after_wait total rest Waited.context_error = stop total (some Error.context)
  after_wait total rest Waited.failed = stop total (some Error.connector_retries_exhausted)

  -- A pull that failed.
  abbrev pub after_failure : List ℕ → ℕ → ℕ → ℕ → Ran → Bool → ConnectorError → Ran
  after_failure backoff attempts attempt total rest done e =
      if done
      then stop total (some Error.context)
      else if permanent_connector_error e
      then stop total (some (Error.permanent e))
      else if leb attempts (suc attempt)
      then stop total (some Error.connector_retries_exhausted)
      else delayed (delay_at backoff attempt) (after_wait total rest (wait attempt))

  abbrev pub after_result : List ℕ → ℕ → ℕ → ℕ → Ran → Bool → Option ConnectorError → Ran
  after_result backoff attempts attempt total rest done none = stop total none
  after_result backoff attempts attempt total rest done (some e) =
      after_failure backoff attempts attempt total rest done e

  -- The loop, with the attempts that are left, the number of this one, and the total so far.
  unfoldable pub attempts_from : List ℕ → ℕ → ℕ → ℕ → ℕ → Ran
  attempts_from backoff attempts zero attempt total = record {
    total = total;
    error = some Error.connector_retries_exhausted;
    pulls = 0;
    delays = [];
  }
  attempts_from backoff attempts (suc left) attempt total =
      let p = pull attempt in
      let rest = attempts_from backoff attempts left (suc attempt) (total + p.count) in
      after_result backoff attempts attempt (total + p.count) rest p.context_done p.error

  unfoldable pub run : List ℕ → ℤ → Ran
  unfolding attempts_from
  run backoff (negsuc n) = refused
  run backoff (pos n) =
      if has_zero (backoff_or_default backoff)
      then refused
      else attempts_from (backoff_or_default backoff) (attempts_of (backoff_or_default backoff) n)
          (attempts_of (backoff_or_default backoff) n) 0 0
