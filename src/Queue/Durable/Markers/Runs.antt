-- ===== src/Queue/Durable/Markers/Runs.antt =====
-- core/internal/queue: the operations on items do not touch the markers of idempotency keys.
use agentbell.Common.{
  ℕ, suc, true, false, not, List, [], ◌∷◌, Str, codes, Option, none, some, Result, ok, err, length,
  has_suffix, str_eq, reject,
}
use agentbell.Common.Int.{increment, at_least}
use agentbell.Queue.Types.{State, Item, Error, DeliveryTarget, DeliveryLedgerEntry}
use agentbell.Queue.Ledger.{validate_inflight_item, validate_delivery_envelope, new_delivery_ledger}
use agentbell.Queue.Settle.{
  ack_ledger, defer_ledger, updated_envelope, ack_entry, nack_entry, dead_entry,
}
use agentbell.Queue.Disk.{File, Directory, Disk, World, Fs, files, is_exist, raise}
use agentbell.Queue.Listing.{
  healthy, admit, list_names, list_directory, list_unlocked, state_directory, sort_items, names_of,
}
use agentbell.Queue.Items.{
  is_after, claimed, finish_claim, claim_first, claim, succeeded, ack, dead_now, pending_after,
  backoff_after, nack, deferred, defer, exists, completed_transition, recovered, recover_items,
  recover_expired, retried, retry_first, retry, is_nil,
}
use agentbell.Queue.Targets.{
  with_ledger, resolve_ledger, resolve_targets, update_target, ack_target, nack_target, dead_target,
}
use agentbell.Queue.Triple.{Post, Triple-unless_missing}
use agentbell.Queue.Durable.Runs.{QueueCall, perform, run}
use agentbell.Queue.Durable.Markers.{
  Marked, KeepsMarks, keeps_pure, keeps_raise, keeps_lift, keeps_bind, keeps_if, keeps_inspect,
  keeps_try, keeps_after_call, keeps_stat, keeps_read, keeps_remove, keeps_write_new, keeps_replace,
  keeps_quarantine, keeps_transition, keeps_ignore,
}

module _ {keys : List (Str × Str)} where
  keeps_admit :
      (d : Directory) (n : Str) (f : File) {rest : Fs (List Item)}
      → KeepsMarks keys rest
      → KeepsMarks keys (admit d n f rest)
  keeps_admit d n File.garbage t = keeps_bind (keeps_quarantine d n) (λ _. t)
  keeps_admit d n (File.envelope e) t =
      keeps_if (healthy e) (keeps_bind t (λ items. keeps_pure _))
        (keeps_bind (keeps_quarantine d n) (λ _. t))

  keeps_list_names : (d : Directory) (names : List Str) → KeepsMarks keys (list_names d names)
  unfolding list_names
  keeps_list_names d [] = keeps_pure []
  keeps_list_names d (n ∷ names) =
      let t = keeps_list_names d names in
      keeps_if (has_suffix n (codes ".json"))
        (keeps_bind (keeps_read d n) (λ f. keeps_admit d n f t)) t

  keeps_list : (s : State) → KeepsMarks keys (list_unlocked s)
  unfolding list_unlocked list_directory
  keeps_list s = of_directory (state_directory s)
    where
      of_directory :
          (o : Option Directory)
          → KeepsMarks {A = List Item} keys
              (elim o [ none ↦ raise Error.unsupported_state | some d ↦ list_directory d ])
      of_directory none = keeps_raise Error.unsupported_state
      of_directory (some d) = keeps_after_call (
          keeps_bind (keeps_inspect (λ k. names_of (files k d))) (λ names.
            keeps_bind (keeps_list_names d names) (λ items. keeps_pure (sort_items items))))

  keeps_finish_claim :
      (item : Item) {rest : Fs (Option Item)} (r : Result Error (Unit {0}))
      → KeepsMarks keys rest
      → KeepsMarks keys (finish_claim item rest r)
  keeps_finish_claim item (ok _) t =
      keeps_bind (Triple-unless_missing _ (keeps_remove Directory.pending item.file_name))
        (λ _. keeps_pure (some item))
  keeps_finish_claim item (err e) t =
      keeps_if (is_exist e)
        (keeps_bind (keeps_ignore (keeps_remove Directory.pending item.file_name)) (λ _. t))
        (keeps_raise e)

  keeps_claim_first :
      (now lease : ℕ) (items : List Item) → KeepsMarks keys (claim_first now lease items)
  unfolding claim_first
  keeps_claim_first now lease [] = keeps_pure none
  keeps_claim_first now lease (item ∷ items) =
      let t = keeps_claim_first now lease items in
      keeps_if (is_after item.next_attempt_at now) t (
        keeps_bind
          (keeps_try
            (keeps_write_new Directory.inflight item.file_name (claimed now lease item).envelope))
          (λ r. keeps_finish_claim (claimed now lease item) r t))

  keeps_ack : (item : Item) (now : ℕ) → KeepsMarks keys (ack item now)
  unfolding ack
  keeps_ack item now = keeps_bind (keeps_lift (validate_inflight_item item)) (λ _.
      keeps_bind (keeps_lift (ack_ledger item.envelope item.ledger)) (λ _.
        keeps_bind
          (keeps_transition Directory.inflight Directory.history item.file_name
            (succeeded now item.envelope))
          (λ _. keeps_pure _)))

  keeps_nack :
      (item : Item) (c : Option Str) (now : ℕ) (b : List ℕ) → KeepsMarks keys (nack item c now b)
  unfolding nack
  keeps_nack item c now b = keeps_bind (keeps_lift (validate_inflight_item item)) (λ _.
      keeps_bind (keeps_lift (reject (not (is_nil item.ledger)) Error.targets_resolved)) (λ _.
        keeps_if (at_least (increment item.attempts) (length b))
          (keeps_bind
            (keeps_transition Directory.inflight Directory.dead item.file_name
              (dead_now c now item.envelope))
            (λ _. keeps_pure _))
          (keeps_bind (keeps_lift (backoff_after b (increment item.attempts))) (λ delay.
            keeps_bind
              (keeps_transition Directory.inflight Directory.pending item.file_name
                (pending_after c now delay item.envelope))
              (λ _. keeps_pure _)))))

  keeps_defer : (item : Item) (now next : ℕ) → KeepsMarks keys (defer item now next)
  unfolding defer
  keeps_defer item now next = keeps_bind (keeps_lift (validate_inflight_item item)) (λ _.
      keeps_bind (keeps_lift (defer_ledger item.envelope now next item.ledger)) (λ _.
        keeps_bind
          (keeps_transition Directory.inflight Directory.pending item.file_name
            (deferred now next item.envelope))
          (λ _. keeps_pure _)))

  keeps_exists : (d : Directory) (n : Str) → KeepsMarks keys (exists d n)
  unfolding exists
  keeps_exists d n =
      keeps_bind (keeps_try (keeps_stat d n))
        (λ r. keeps_pure (elim r [ ok present ↦ present | err e ↦ false ]))

  keeps_completed : (n : Str) → KeepsMarks keys (completed_transition n)
  unfolding completed_transition
  keeps_completed n = keeps_bind (keeps_exists Directory.pending n) (λ p.
      keeps_if p (keeps_pure true) (
        keeps_bind (keeps_exists Directory.history n)
          (λ h. keeps_if h (keeps_pure true) (keeps_exists Directory.dead n))))

  keeps_recover_items : (now : ℕ) (items : List Item) → KeepsMarks keys (recover_items now items)
  unfolding recover_items
  keeps_recover_items now [] = keeps_pure 0
  keeps_recover_items now (item ∷ items) =
      let t = keeps_recover_items now items in
      keeps_bind (keeps_completed item.file_name) (λ completed.
        keeps_if completed
          (keeps_bind (keeps_ignore (keeps_remove Directory.inflight item.file_name)) (λ _. t))
          (keeps_if (is_after item.lease_until now) t (
            keeps_bind
              (keeps_transition Directory.inflight Directory.pending item.file_name
                (recovered now item.envelope))
              (λ _. keeps_bind t (λ n. keeps_pure (suc n))))))

  keeps_retry_first :
      (id : Str) (now : ℕ) (items : List Item) → KeepsMarks keys (retry_first id now items)
  unfolding retry_first
  keeps_retry_first id now [] = keeps_raise Error.dead_event_not_found
  keeps_retry_first id now (item ∷ items) =
      keeps_if (str_eq item.id id)
        (keeps_transition Directory.dead Directory.pending item.file_name
          (retried now item.envelope))
        (keeps_retry_first id now items)

  keeps_resolve :
      (item : Item) (ts : List DeliveryTarget) (now : ℕ) (l : Option (List DeliveryLedgerEntry))
      → KeepsMarks keys (resolve_ledger item ts now l)
  keeps_resolve item ts now none = keeps_bind (keeps_lift (new_delivery_ledger ts)) (λ l.
      keeps_bind (keeps_lift (validate_delivery_envelope (with_ledger now l item.envelope))) (λ _.
        keeps_bind
          (keeps_replace Directory.inflight item.file_name (with_ledger now l item.envelope))
          (λ _. keeps_pure _)))
  keeps_resolve item ts now (some l) =
      keeps_bind (keeps_lift (validate_delivery_envelope item.envelope)) (λ _. keeps_pure _)

  keeps_update :
      (item : Item) (t : DeliveryTarget)
      (u : DeliveryLedgerEntry → Result Error DeliveryLedgerEntry) (now : ℕ)
      → KeepsMarks keys (update_target item t u now)
  unfolding update_target
  keeps_update item t u now =
      keeps_bind (keeps_lift (updated_envelope item t u now))
        (λ e. keeps_bind (keeps_replace Directory.inflight item.file_name e) (λ _. keeps_pure _))

  kept :
      {A : Type 0} {m : Fs A}
      → KeepsMarks keys m
      → (w : World) → Marked keys w.disk
      → Marked keys (m w).1.disk
  kept {A = A} {m = m} t w p = either (m w).0 (m w).1.disk (t.at w p)
    where
      either :
          (r : Result Error A) (k : Disk)
          → Post (λ _. Marked keys) (λ _. Marked keys) r k
          → Marked keys k
      either (ok a) k p = p
      either (err e) k p = p

  perform-keys : (c : QueueCall) (w : World) → Marked keys w.disk → Marked keys (perform c w).disk
  unfolding perform claim recover_expired retry resolve_targets ack_target nack_target dead_target
  perform-keys (QueueCall.claims now lease) w p =
      kept (keeps_bind (keeps_list State.pending) (keeps_claim_first now lease)) w p
  perform-keys (QueueCall.acks item now) w p = kept (keeps_ack item now) w p
  perform-keys (QueueCall.nacks item c now b) w p = kept (keeps_nack item c now b) w p
  perform-keys (QueueCall.defers item now next) w p = kept (keeps_defer item now next) w p
  perform-keys (QueueCall.recovers now) w p =
      kept (keeps_bind (keeps_list State.inflight) (keeps_recover_items now)) w p
  perform-keys (QueueCall.retries id now) w p =
      kept (keeps_bind (keeps_list State.dead) (keeps_retry_first id now)) w p
  perform-keys (QueueCall.resolves item ts now) w p =
      kept
        (keeps_bind (keeps_lift (validate_inflight_item item))
          (λ _. keeps_resolve item ts now item.ledger))
        w p
  perform-keys (QueueCall.acks_target item t m now) w p =
      kept (keeps_update item t (ack_entry m) now) w p
  perform-keys (QueueCall.nacks_target item t none next now) w p = p
  perform-keys (QueueCall.nacks_target item t (some c) next now) w p =
      kept (keeps_update item t (nack_entry (some c) next) now) w p
  perform-keys (QueueCall.deads_target item t none now) w p = p
  perform-keys (QueueCall.deads_target item t (some c) now) w p =
      kept (keeps_update item t (dead_entry (some c)) now) w p

  -- No run of operations on items changes a marker.
  pub run-keys :
      (calls : List QueueCall) (w : World) → Marked keys w.disk → Marked keys (run w calls).disk
  unfolding run
  run-keys [] w p = p
  run-keys (c ∷ cs) w p = run-keys cs (perform c w) (perform-keys c w p)
