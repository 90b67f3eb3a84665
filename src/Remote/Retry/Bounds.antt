-- ===== src/Remote/Retry/Bounds.antt =====
-- core/internal/remote/retry.go: how often `Run` pulls, how long it waits, and what it adds up.
use agentbell.Common.{
  ℕ, zero, suc, ◌+◌, ◌-◌, ◌≤◌, Bool, true, false, List, [], ◌∷◌, Option, none, some, length, leb,
  if◌then◌else◌, ◌≡◌, refl, ap, ◌∙◌, arith,
}
use agentbell.Common.Int.{pos}
use agentbell.Remote.Retry.{
  ConnectorError, permanent_connector_error, Pulled, Waited, Error, Ran, has_zero, delay_at, stop,
  delayed, after_wait, after_result, attempts_from, backoff_or_default, attempts_of, run,
}

-- The delay behind an attempt: the delays in their order, and then the last one for ever.
abbrev pub planned : List ℕ → ℕ → ℕ
planned [] k = 0
planned (d ∷ []) k = d
planned (d ∷ e ∷ ds) zero = d
planned (d ∷ e ∷ ds) (suc k) = planned (e ∷ ds) k

delay_at-planned : (backoff : List ℕ) (k : ℕ) → delay_at backoff k ≡ planned backoff k
delay_at-planned [] zero = refl
delay_at-planned [] (suc k) = ground arith
delay_at-planned (d ∷ []) zero = refl
delay_at-planned (d ∷ []) (suc k) = ground arith
delay_at-planned (d ∷ e ∷ ds) zero = ground arith
delay_at-planned (d ∷ e ∷ ds) (suc k) = ground (arith, delay_at-planned (e ∷ ds) k)

-- The delays of successive attempts.
abbrev pub schedule : List ℕ → ℕ → ℕ → List ℕ
schedule backoff attempt zero = []
schedule backoff attempt (suc n) = planned backoff attempt ∷ schedule backoff (suc attempt) n

-- What successive pulls have drained.
abbrev pub drained : (ℕ → Pulled) → ℕ → ℕ → ℕ
drained pull attempt zero = 0
drained pull attempt (suc n) = (pull attempt).count + drained pull (suc attempt) n

-- A run that starts at an attempt and has some attempts left.
pub record IsBounded (pull : ℕ → Pulled) (backoff : List ℕ) (attempt left total : ℕ) (r : Ran)
    : Type 0 where
  pub pulls : r.pulls ≤ left
  pub waits : length r.delays ≤ left - 1
  pub delays : r.delays ≡ schedule backoff attempt (length r.delays)
  pub total_of : r.total ≡ total + drained pull attempt r.pulls

module _ (pull : ℕ → Pulled) (wait : ℕ → Waited) (backoff : List ℕ) (attempts : ℕ) where
  stop-IsBounded :
      (attempt left total : ℕ) (e : Option Error)
      → IsBounded pull backoff attempt (suc left) total (stop (total + (pull attempt).count) e)
  stop-IsBounded attempt left total e = record {
    pulls = omega arith;
    waits = omega arith;
    delays = refl;
    total_of = omega arith;
  }

  module _ (attempt left total : ℕ) (rest : Ran)
      (h : IsBounded pull backoff
        (suc attempt)
        (suc left)
        (total + (pull attempt).count)
        rest) where
    after_wait-IsBounded :
        (w : Waited)
        → IsBounded pull backoff attempt (suc (suc left)) total (
            delayed
              (delay_at backoff attempt)
              (after_wait pull wait (total + (pull attempt).count) rest w))
    after_wait-IsBounded Waited.in_time = record {
      pulls = omega (arith, h.pulls);
      waits = omega (arith, h.waits);
      delays =
          ap (λ ds. delay_at backoff attempt ∷ ds) h.delays
          ∙ ap (λ d. d ∷ schedule backoff (suc attempt) (length rest.delays))
              (delay_at-planned backoff attempt);
      total_of = omega (arith, h.total_of);
    }
    after_wait-IsBounded Waited.context_done = record {
      pulls = omega arith;
      waits = omega arith;
      delays = ap (λ d. d ∷ []) (delay_at-planned backoff attempt);
      total_of = omega arith;
    }
    after_wait-IsBounded Waited.context_error = record {
      pulls = omega arith;
      waits = omega arith;
      delays = ap (λ d. d ∷ []) (delay_at-planned backoff attempt);
      total_of = omega arith;
    }
    after_wait-IsBounded Waited.failed = record {
      pulls = omega arith;
      waits = omega arith;
      delays = ap (λ d. d ∷ []) (delay_at-planned backoff attempt);
      total_of = omega arith;
    }

  -- What follows a pull, with what the later attempts come to.
  after_result-IsBounded :
      (attempt left total : ℕ) (rest : Ran)
      → attempt + suc left ≡ attempts
      → IsBounded pull backoff (suc attempt) left (total + (pull attempt).count) rest
      → (done : Bool) (e : Option ConnectorError)
      → IsBounded pull backoff attempt (suc left) total (
          after_result pull wait backoff attempts attempt
            (total + (pull attempt).count)
            rest
            done
            e)
  after_result-IsBounded attempt left total rest sum h done none =
      stop-IsBounded attempt left total none
  after_result-IsBounded attempt left total rest sum h true (some e) =
      stop-IsBounded attempt left total (some Error.context)
  after_result-IsBounded attempt left total rest sum h false (some e) =
      go left sum h (permanent_connector_error e) (leb attempts (suc attempt)) refl
    where
      go :
          (l : ℕ)
          → attempt + suc l ≡ attempts
          → IsBounded pull backoff (suc attempt) l (total + (pull attempt).count) rest
          → (p b : Bool) → leb attempts (suc attempt) ≡ b
          → IsBounded pull backoff attempt (suc l) total (
              if p
              then stop (total + (pull attempt).count) (some (Error.permanent e))
              else if b
              then stop (total + (pull attempt).count) (some Error.connector_retries_exhausted)
              else delayed
                  (delay_at backoff attempt)
                  (after_wait pull wait (total + (pull attempt).count) rest (wait attempt)))
      go l sum h true b last = stop-IsBounded attempt l total _
      go l sum h false true last = stop-IsBounded attempt l total _
      go zero sum h false false last = absurd (ground (arith, sum, last))
      go (suc l) sum h false false last = after_wait-IsBounded attempt l total rest h (wait attempt)

  attempts_from-IsBounded :
      (left attempt total : ℕ)
      → attempt + left ≡ attempts
      → IsBounded pull backoff attempt left total
          (attempts_from pull wait backoff attempts left attempt total)
  unfolding attempts_from
  attempts_from-IsBounded zero attempt total sum = record {
    pulls = omega arith;
    waits = omega arith;
    delays = refl;
    total_of = omega arith;
  }
  attempts_from-IsBounded (suc left) attempt total sum =
      after_result-IsBounded attempt left total _ sum
        (attempts_from-IsBounded left (suc attempt) (total + (pull attempt).count)
          (omega (arith, sum)))
        (pull attempt).context_done (pull attempt).error

-- With a backoff without zeros and a number of attempts that is not negative, `Run` pulls at most that
-- often, or once more than there are delays where the number is 0; it waits fewer times than that,
-- for the delays of the backoff in their order, the last of which stands for all later ones; and it
-- returns the sum of what its pulls have drained.
pub run-IsBounded :
    (pull : ℕ → Pulled) (wait : ℕ → Waited) (backoff : List ℕ) (n : ℕ)
    → has_zero (backoff_or_default backoff) ≡ false
    → IsBounded pull
        (backoff_or_default backoff)
        0
        (attempts_of (backoff_or_default backoff) n)
        0
        (run pull wait backoff (pos n))
unfolding run
run-IsBounded pull wait backoff n valid = rw valid (
    attempts_from-IsBounded pull wait (backoff_or_default backoff)
      (attempts_of (backoff_or_default backoff) n) (attempts_of (backoff_or_default backoff) n) 0 0
      (omega arith))
