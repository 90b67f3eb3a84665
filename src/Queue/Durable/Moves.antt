-- ===== src/Queue/Durable/Moves.antt =====
-- core/internal/queue: `Ack`, `Nack`, `Defer` and the loop of `Claim` on a sound name. `CleanupHistory`
-- and `CleanupDead`, which remove items on purpose, are not among the operations that keep one.
use agentbell.Common.{
  ℕ, Bool, true, not, List, [], ◌∷◌, Str, Option, none, some, All, Result, ok, err, ◌≡◌, refl,
  if◌then◌else◌, length, reject,
}
use agentbell.Common.Int.{increment, at_least}
use agentbell.Queue.Types.{Envelope, Item, Error}
use agentbell.Queue.Ledger.{validate_delivery_envelope, validate_inflight_item}
use agentbell.Queue.Settle.{ack_ledger, defer_ledger}
use agentbell.Queue.Disk.{File, Directory, Fs, file_at, pure, raise, lift, ◌>>=◌, is_exist, is_some}
use agentbell.Queue.Listing.{healthy}
use agentbell.Queue.Items.{
  is_after, claimed, finish_claim, claim_first, succeeded, ack, dead_now, pending_after,
  backoff_after, nack, deferred, defer, recovered, retried, is_nil,
}
use agentbell.Queue.Triple.{
  Post, Triple, Triple-pure, Triple-raise, Triple-lift, Triple-bind, Triple-if, Triple-weaken,
  Triple-ignore, Triple-unless_missing, Triple-try,
}
use agentbell.Queue.Durable.{IsSound, KeepsSound}
use agentbell.Queue.Durable.Calls.{write_new_lem, remove_lem, transition-KeepsSound}
use agentbell.Queue.Durable.Lists.{IsHealthy}

pub some_of_is_some : {A : Type 0} (o : Option A) → is_some o ≡ true → (a : A) × (o ≡ some a)
some_of_is_some none h = cc
some_of_is_some (some a) h = (a, refl)

-- What the operations write differs from the item in fields that `listUnlocked` does not ask about.
claimed-IsHealthy :
    (now lease : ℕ) (item : Item) → IsHealthy item → IsHealthy (claimed now lease item)
unfolding healthy validate_delivery_envelope
claimed-IsHealthy now lease item h = h

succeeded-healthy : (now : ℕ) (e : Envelope) → healthy e ≡ true → healthy (succeeded now e) ≡ true
unfolding healthy validate_delivery_envelope
succeeded-healthy now e h = h

dead_now-healthy :
    (c : Option Str) (now : ℕ) (e : Envelope) → healthy e ≡ true → healthy (dead_now c now e) ≡ true
unfolding healthy validate_delivery_envelope
dead_now-healthy c now e h = h

pending_after-healthy :
    (c : Option Str) (now delay : ℕ) (e : Envelope)
    → healthy e ≡ true
    → healthy (pending_after c now delay e) ≡ true
unfolding healthy validate_delivery_envelope
pending_after-healthy c now delay e h = h

deferred-healthy :
    (now next : ℕ) (e : Envelope) → healthy e ≡ true → healthy (deferred now next e) ≡ true
unfolding healthy validate_delivery_envelope
deferred-healthy now next e h = h

pub recovered-healthy :
    (now : ℕ) (e : Envelope) → healthy e ≡ true → healthy (recovered now e) ≡ true
unfolding healthy validate_delivery_envelope
recovered-healthy now e h = h

pub retried-healthy : (now : ℕ) (e : Envelope) → healthy e ≡ true → healthy (retried now e) ≡ true
unfolding healthy validate_delivery_envelope
retried-healthy now e h = h

module _ (name : Str) where
  lift-KeepsSound : {A : Type 0} (r : Result Error A) → KeepsSound name (lift r)
  lift-KeepsSound (ok a) = Triple-lift (ok a) (λ k s. s)
  lift-KeepsSound (err e) = Triple-lift (err e) (λ k s. s)

  pure-KeepsSound : {A : Type 0} (a : A) → KeepsSound name (pure a)
  pure-KeepsSound a = Triple-pure a (λ k s. s)

  raise-KeepsSound : {A : Type 0} (e : Error) → KeepsSound name (raise {A = A} e)
  raise-KeepsSound e = Triple-raise e (λ k s. s)

  bind-KeepsSound :
      {A B : Type 0} (m : Fs A) (f : A → Fs B)
      → KeepsSound name m
      → ((a : A) → KeepsSound name (f a))
      → KeepsSound name (m >>= f)
  bind-KeepsSound m f t u = Triple-bind m f t u

  if-KeepsSound :
      {A : Type 0} (b : Bool) (m n : Fs A)
      → KeepsSound name m
      → KeepsSound name n
      → KeepsSound name (if b then m else n)
  if-KeepsSound b m n t u = Triple-if b m n (λ _. t) (λ _. u)

  -- Publishing a claim: whatever the write of the inflight file answers.
  finish_claim-KeepsSound :
      (item : Item) (rest : Fs (Option Item)) (r : Result Error (Unit {0}))
      → KeepsSound name rest
      → Triple
          (λ k.
            Post
              (λ _ k.
                IsSound name k
                × (file_at k Directory.inflight item.file_name
                    ≡ some (File.envelope item.envelope)))
              (λ e k.
                IsSound name k
                × (is_exist e ≡ true
                    → is_some (file_at k Directory.inflight item.file_name) ≡ true))
              r
              k)
          (finish_claim item rest r)
          (λ _. IsSound name)
          (λ _. IsSound name)
  finish_claim-KeepsSound item rest (ok _) t =
      Triple-bind _ _
        (Triple-unless_missing _ (
          Triple-weaken _ (remove_lem name Directory.pending item.file_name)
            (λ k q. (q.0, (Directory.inflight, File.envelope item.envelope, refl, q.1)))
            (λ _ k q. q) (λ e k q. q)))
        (λ _. pure-KeepsSound (some item))
  finish_claim-KeepsSound item rest (err e) t =
      Triple-if (is_exist e) _ _
        (λ clash.
          Triple-bind _ _
            (Triple-ignore _ (
              Triple-weaken _ (remove_lem name Directory.pending item.file_name)
                (λ k q.
                  let (f, at) =
                    some_of_is_some (file_at k Directory.inflight item.file_name) (q.1 clash) in
                  (q.0, (Directory.inflight, f, refl, at)))
                (λ _ k q. q) (λ e k q. q)))
            (λ _. t))
        (λ _. Triple-raise e (λ k q. q.0))

  pub claim_first-KeepsSound :
      (now lease : ℕ) (items : List Item)
      → All IsHealthy items
      → KeepsSound name (claim_first now lease items)
  unfolding claim_first
  claim_first-KeepsSound now lease [] a = pure-KeepsSound none
  claim_first-KeepsSound now lease (item ∷ items) a =
      let t = claim_first-KeepsSound now lease items a.1 in
      Triple-if (is_after item.next_attempt_at now) _ _ (λ _. t)
        (λ _.
          Triple-bind _ _
            (Triple-try _ (
              write_new_lem name Directory.inflight item.file_name (claimed now lease item).envelope
                (claimed-IsHealthy now lease item a.0)))
            (λ r.
              finish_claim-KeepsSound (claimed now lease item) (claim_first now lease items) r t))

  pub ack-KeepsSound : (item : Item) (now : ℕ) → IsHealthy item → KeepsSound name (ack item now)
  unfolding ack
  ack-KeepsSound item now h =
      bind-KeepsSound _ _ (lift-KeepsSound (validate_inflight_item item)) (λ _.
        bind-KeepsSound _ _ (lift-KeepsSound (ack_ledger item.envelope item.ledger)) (λ _.
          bind-KeepsSound _ _
            (transition-KeepsSound name Directory.inflight Directory.history item.file_name
              (succeeded now item.envelope) refl (succeeded-healthy now item.envelope h))
            (λ _. pure-KeepsSound _)))

  pub nack-KeepsSound :
      (item : Item) (cause : Option Str) (now : ℕ) (backoff : List ℕ)
      → IsHealthy item
      → KeepsSound name (nack item cause now backoff)
  unfolding nack
  nack-KeepsSound item cause now backoff h =
      bind-KeepsSound _ _ (lift-KeepsSound (validate_inflight_item item)) (λ _.
        bind-KeepsSound _ _
          (lift-KeepsSound (reject (not (is_nil item.ledger)) Error.targets_resolved))
          (λ _.
            if-KeepsSound (at_least (increment item.attempts) (length backoff)) _ _
              (bind-KeepsSound _ _
                (transition-KeepsSound name Directory.inflight Directory.dead item.file_name
                  (dead_now cause now item.envelope) refl
                  (dead_now-healthy cause now item.envelope h))
                (λ _. pure-KeepsSound _))
              (bind-KeepsSound _ _
                (lift-KeepsSound (backoff_after backoff (increment item.attempts)))
                (λ delay.
                  bind-KeepsSound _ _
                    (transition-KeepsSound name Directory.inflight Directory.pending item.file_name
                      (pending_after cause now delay item.envelope) refl
                      (pending_after-healthy cause now delay item.envelope h))
                    (λ _. pure-KeepsSound _)))))

  pub defer-KeepsSound :
      (item : Item) (now next : ℕ) → IsHealthy item → KeepsSound name (defer item now next)
  unfolding defer
  defer-KeepsSound item now next h =
      bind-KeepsSound _ _ (lift-KeepsSound (validate_inflight_item item)) (λ _.
        bind-KeepsSound _ _ (lift-KeepsSound (defer_ledger item.envelope now next item.ledger))
          (λ _.
            bind-KeepsSound _ _
              (transition-KeepsSound name Directory.inflight Directory.pending item.file_name
                (deferred now next item.envelope) refl (deferred-healthy now next item.envelope h))
              (λ _. pure-KeepsSound _)))
