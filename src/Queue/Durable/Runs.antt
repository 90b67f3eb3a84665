-- ===== src/Queue/Durable/Runs.antt =====
-- core/internal/queue: any sequence of operations on a sound name.
use agentbell.Common.{
  ℕ, true, List, [], ◌∷◌, Str, codes, has_suffix, Option, none, some, All, Result, ok, err, ◌≡◌,
  refl, arith,
}
use agentbell.Queue.Types.{Envelope, Item, Error, DeliveryTarget, DeliveryLedgerEntry}
use agentbell.Queue.Ledger.{validate_inflight_item, validate_delivery_envelope, new_delivery_ledger}
use agentbell.Queue.Settle.{updated_envelope, ack_entry, nack_entry, dead_entry}
use agentbell.Queue.Ledger.Outcome.{updated_envelope-kept}
use agentbell.Queue.Disk.{Directory, Disk, World, Fs, lift, ◌>>=◌}
use agentbell.Queue.Listing.{healthy}
use agentbell.Queue.Items.{claim, ack, nack, defer, recover_expired, retry}
use agentbell.Queue.Targets.{
  with_ledger, resolve_ledger, resolve_targets, update_target, ack_target, nack_target, dead_target,
}
use agentbell.Queue.Triple.{Post, Triple-pure, Triple-raise, Triple-bind}
use agentbell.Queue.Durable.{IsSound, KeepsSound}
use agentbell.Queue.Durable.Calls.{replace-KeepsSound}
use agentbell.Queue.Durable.Lists.{IsHealthy}
use agentbell.Queue.Durable.Moves.{ack-KeepsSound, nack-KeepsSound, defer-KeepsSound}
use agentbell.Queue.Durable.Recovery.{
  claim-KeepsSound, recover_expired-KeepsSound, retry-KeepsSound,
}

healthy_of_valid :
    (e e' : Envelope)
    → healthy e ≡ true
    → validate_delivery_envelope e' ≡ ok tt
    → e'.queue_version ≡ e.queue_version
    → e'.id ≡ e.id
    → healthy e' ≡ true
unfolding healthy
healthy_of_valid e e' h v q i = rw (v, q, i) (ground arith)

module _ (name : Str) where
  -- A pure check before the rest, which may use that it passed.
  lift_then :
      {A B : Type 0} (r : Result Error A) (f : A → Fs B)
      → ((a : A) → r ≡ ok a → KeepsSound name (f a))
      → KeepsSound name (lift r >>= f)
  unfolding ◌>>=◌
  lift_then (ok a) f t = record { at = (t a refl).at }
  lift_then (err e) f t = record { at = λ w s. s }

  resolve_ledger-KeepsSound :
      (item : Item) (targets : List DeliveryTarget) (now : ℕ)
      (ledger : Option (List DeliveryLedgerEntry))
      → IsHealthy item
      → KeepsSound name (resolve_ledger item targets now ledger)
  resolve_ledger-KeepsSound item targets now none h =
      lift_then (new_delivery_ledger targets) _ (λ ledger _.
        lift_then (validate_delivery_envelope (with_ledger now ledger item.envelope)) _ (λ u v.
          Triple-bind _ _
            (replace-KeepsSound name Directory.inflight item.file_name
              (with_ledger now ledger item.envelope)
              (healthy_of_valid item.envelope (with_ledger now ledger item.envelope) h v refl refl))
            (λ _. Triple-pure _ (λ k s. s))))
  resolve_ledger-KeepsSound item targets now (some ledger) h =
      lift_then (validate_delivery_envelope item.envelope) _ (λ _ _. Triple-pure _ (λ k s. s))

  resolve_targets-KeepsSound :
      (item : Item) (targets : List DeliveryTarget) (now : ℕ)
      → IsHealthy item
      → KeepsSound name (resolve_targets item targets now)
  unfolding resolve_targets
  resolve_targets-KeepsSound item targets now h =
      lift_then (validate_inflight_item item) _
        (λ _ _. resolve_ledger-KeepsSound item targets now item.ledger h)

  update_target-KeepsSound :
      (item : Item) (t : DeliveryTarget)
      (update : DeliveryLedgerEntry → Result Error DeliveryLedgerEntry) (now : ℕ)
      → IsHealthy item
      → KeepsSound name (update_target item t update now)
  unfolding update_target
  update_target-KeepsSound item t update now h =
      lift_then (updated_envelope item t update now) _ (λ e u.
        let (v, q, i) = updated_envelope-kept item t update now e u in
        Triple-bind _ _
          (replace-KeepsSound name Directory.inflight item.file_name e
            (healthy_of_valid item.envelope e h v q i))
          (λ _. Triple-pure _ (λ k s. s)))

-- The operations of the queue that move or change items.
pub data QueueCall : Type 0 where
  claims : ℕ → ℕ → QueueCall
  acks : Item → ℕ → QueueCall
  nacks : Item → Option Str → ℕ → List ℕ → QueueCall
  defers : Item → ℕ → ℕ → QueueCall
  recovers : ℕ → QueueCall
  retries : Str → ℕ → QueueCall
  resolves : Item → List DeliveryTarget → ℕ → QueueCall
  acks_target : Item → DeliveryTarget → Str → ℕ → QueueCall
  nacks_target : Item → DeliveryTarget → Option Str → ℕ → ℕ → QueueCall
  deads_target : Item → DeliveryTarget → Option Str → ℕ → QueueCall

unfoldable pub perform : QueueCall → World → World
unfolding claim ack nack defer recover_expired retry resolve_targets ack_target nack_target
    dead_target
perform (claims now lease) w = (claim now lease w).1
perform (acks item now) w = (ack item now w).1
perform (nacks item cause now backoff) w = (nack item cause now backoff w).1
perform (defers item now next) w = (defer item now next w).1
perform (recovers now) w = (recover_expired now w).1
perform (retries id now) w = (retry id now w).1
perform (resolves item targets now) w = (resolve_targets item targets now w).1
perform (acks_target item t m now) w = (ack_target item t m now w).1
perform (nacks_target item t c next now) w = (nack_target item t c next now w).1
perform (deads_target item t c now) w = (dead_target item t c now w).1

unfoldable pub run : World → List QueueCall → World
unfolding perform
run w [] = w
run w (c ∷ cs) = run (perform c w) cs

-- The item that a call is given is one that `listUnlocked` accepts.
abbrev pub IsHealthyCall : QueueCall → Type 0
IsHealthyCall (claims now lease) = Unit
IsHealthyCall (acks item now) = IsHealthy item
IsHealthyCall (nacks item cause now backoff) = IsHealthy item
IsHealthyCall (defers item now next) = IsHealthy item
IsHealthyCall (recovers now) = Unit
IsHealthyCall (retries id now) = Unit
IsHealthyCall (resolves item targets now) = IsHealthy item
IsHealthyCall (acks_target item t m now) = IsHealthy item
IsHealthyCall (nacks_target item t c next now) = IsHealthy item
IsHealthyCall (deads_target item t c now) = IsHealthy item

kept :
    {A : Type 0} {name : Str} (m : Fs A)
    → KeepsSound name m
    → (w : World) → IsSound name w.disk
    → IsSound name (m w).1.disk
kept {A = A} {name = name} m t w s = either (m w).0 (m w).1.disk (t.at w s)
  where
    either :
        (r : Result Error A) (k : Disk)
        → Post (λ _. IsSound name) (λ _. IsSound name) r k
        → IsSound name k
    either (ok a) k p = p
    either (err e) k p = p

module _ (name : Str) (json : has_suffix name (codes ".json") ≡ true) where
  perform-IsSound :
      (c : QueueCall) (w : World)
      → IsHealthyCall c
      → IsSound name w.disk
      → IsSound name (perform c w).disk
  unfolding perform
  perform-IsSound (claims now lease) w h s = kept _ (claim-KeepsSound name now lease json) w s
  perform-IsSound (acks item now) w h s = kept _ (ack-KeepsSound name item now h) w s
  perform-IsSound (nacks item c now b) w h s = kept _ (nack-KeepsSound name item c now b h) w s
  perform-IsSound (defers item now next) w h s = kept _ (defer-KeepsSound name item now next h) w s
  perform-IsSound (recovers now) w h s = kept _ (recover_expired-KeepsSound name now json) w s
  perform-IsSound (retries id now) w h s = kept _ (retry-KeepsSound name id now json) w s
  perform-IsSound (resolves item targets now) w h s =
      kept _ (resolve_targets-KeepsSound name item targets now h) w s
  perform-IsSound (acks_target item t m now) w h s =
      kept _ (unfold ack_target in update_target-KeepsSound name item t (ack_entry m) now h) w s
  perform-IsSound (nacks_target item t none next now) w h s =
      kept {A = Item} _ (unfold nack_target in Triple-raise Error.cause_required (λ k s. s)) w s
  perform-IsSound (nacks_target item t (some c) next now) w h s =
      kept _
        (unfold nack_target in
          update_target-KeepsSound name item t (nack_entry (some c) next) now h)
        w s
  perform-IsSound (deads_target item t none now) w h s =
      kept {A = Item} _ (unfold dead_target in Triple-raise Error.cause_required (λ k s. s)) w s
  perform-IsSound (deads_target item t (some c) now) w h s =
      kept _
        (unfold dead_target in update_target-KeepsSound name item t (dead_entry (some c)) now h) w s

  -- Whatever sequence of queue operations runs on items that the queue accepts, and whichever of
  -- their system calls fail, a sound name that ends in `.json` stays sound: some directory has a
  -- file of that name, and every such file, in whichever directory, is an envelope that the queue
  -- accepts.
  pub run-IsSound :
      (calls : List QueueCall) (w : World)
      → All IsHealthyCall calls
      → IsSound name w.disk
      → IsSound name (run w calls).disk
  unfolding run
  run-IsSound [] w h s = s
  run-IsSound (c ∷ cs) w h s = run-IsSound cs (perform c w) h.1 (perform-IsSound c w h.0 s)
