-- ===== src/Queue/Items.antt =====
-- core/internal/queue/queue.go: `Claim`, `Ack`, `Nack`, `RecoverExpired` and `Retry`, and
-- `Defer` of ledger.go. The mutex makes each of them one action. A method
-- that changes the item it is given returns the changed item; a number returned beside an error is
-- dropped. Durations are not negative.
use agentbell.Common.{
  ℕ, suc, ◌+◌, Bool, true, false, ◌&&◌, not, List, [], ◌∷◌, Option, none, some, Str, str_eq, ltb,
  ◌==◌, length, get_elem?, Result, ok, err, if◌then◌else◌, reject,
}
use agentbell.Common.Int.{ℤ, pos, increment, at_least}
use agentbell.Queue.Types.{State, Envelope, Item, Error}
use agentbell.Queue.Ledger.{validate_inflight_item}
use agentbell.Queue.Settle.{ack_ledger, defer_ledger, truncate_error}
use agentbell.Queue.Disk.{
  try, Directory, Fs, pure, raise, lift, ◌>>=◌, ◌>>◌, ignore, unless_missing, is_exist, stat,
  remove,
}
use agentbell.Queue.Listing.{write_new, transition, list_unlocked}

-- `!next.IsZero() && next.After(now)`.
abbrev pub is_after : ℕ → ℕ → Bool
is_after t now = not (t == 0) && ltb now t

abbrev pub claimed : ℕ → ℕ → Item → Item
claimed now lease item = record item {
  envelope = record item.envelope {
    state = State.inflight;
    updated_at = now;
    lease_until = now + lease;
  };
}

-- The three outcomes of publishing a claim.
abbrev pub finish_claim : Item → Fs (Option Item) → Result Error (Unit {0}) → Fs (Option Item)
finish_claim item rest (err e) =
    if is_exist e then ignore (remove Directory.pending item.file_name) >> rest else raise e
finish_claim item rest (ok _) =
    unless_missing (remove Directory.pending item.file_name) >> pure (some item)

-- The loop of `Claim` over the pending items.
unfoldable pub claim_first : ℕ → ℕ → List Item → Fs (Option Item)
unfolding try write_new remove ignore unless_missing pure raise ◌>>=◌
claim_first now lease [] = pure none
claim_first now lease (item ∷ items) =
    let rest = claim_first now lease items in
    if is_after item.next_attempt_at now then rest else (do
      r ← try (write_new Directory.inflight item.file_name (claimed now lease item).envelope)
      finish_claim (claimed now lease item) rest r)

unfoldable pub claim : ℕ → ℕ → Fs (Option Item)
unfolding list_unlocked claim_first ◌>>=◌
claim now lease = do items ← list_unlocked State.pending; claim_first now lease items

abbrev pub is_nil {ℓ} : {A : Type ℓ} → Option A → Bool
is_nil none = true
is_nil (some a) = false

-- The envelope that `Ack` stores.
abbrev pub succeeded : ℕ → Envelope → Envelope
succeeded now e = record e {
  state = State.succeeded;
  updated_at = now;
  lease_until = 0;
  next_attempt_at = 0;
  last_error = [];
}

unfoldable pub ack : Item → ℕ → Fs Item
unfolding transition validate_inflight_item ack_ledger ◌>>=◌
ack item now = do
  lift (validate_inflight_item item)
  lift (ack_ledger item.envelope item.ledger)
  transition Directory.inflight Directory.history item.file_name (succeeded now item.envelope)
  pure (record item { envelope = succeeded now item.envelope })

-- The fields that `Nack` writes on both of its branches.
abbrev pub failed_once : Option Str → ℕ → Envelope → Envelope
failed_once cause now e = record e {
  attempts = increment e.attempts;
  updated_at = now;
  lease_until = 0;
  last_error = truncate_error cause;
}

abbrev pub dead_now : Option Str → ℕ → Envelope → Envelope
dead_now cause now e = record (failed_once cause now e) { state = State.dead; next_attempt_at = 0 }

abbrev pub pending_after : Option Str → ℕ → ℕ → Envelope → Envelope
pending_after cause now delay e = record (failed_once cause now e) {
  state = State.pending;
  next_attempt_at = now + delay;
}

-- `backoff[attempts-1]`; an index out of range is a panic.
unfoldable pub backoff_after : List ℕ → ℤ → Result Error ℕ
backoff_after backoff (pos (suc n)) = elim (get_elem? backoff n) [
  | none ↦ err Error.panic
  | some delay ↦ ok delay
]
backoff_after backoff _ = err Error.panic

unfoldable pub nack : Item → Option Str → ℕ → List ℕ → Fs (State × Item)
unfolding transition validate_inflight_item backoff_after ◌>>=◌
nack item cause now backoff = do
  lift (validate_inflight_item item)
  lift (reject (not (is_nil item.ledger)) Error.targets_resolved)
  if at_least (increment item.attempts) (length backoff)
      then (do
        transition Directory.inflight Directory.dead item.file_name
            (dead_now cause now item.envelope)
        pure (State.dead, record item { envelope = dead_now cause now item.envelope }))
      else (do
        delay ← lift (backoff_after backoff (increment item.attempts))
        transition Directory.inflight Directory.pending item.file_name
            (pending_after cause now delay item.envelope)
        pure
            (State.pending, record item { envelope = pending_after cause now delay item.envelope }))

abbrev pub deferred : ℕ → ℕ → Envelope → Envelope
deferred now next e = record e {
  state = State.pending;
  updated_at = now;
  lease_until = 0;
  next_attempt_at = next;
}

unfoldable pub defer : Item → ℕ → ℕ → Fs Item
unfolding transition validate_inflight_item defer_ledger ◌>>=◌
defer item now next = do
  lift (validate_inflight_item item)
  lift (defer_ledger item.envelope now next item.ledger)
  transition Directory.inflight Directory.pending item.file_name (deferred now next item.envelope)
  pure (record item { envelope = deferred now next item.envelope })

-- `_, statErr := os.Stat(path); statErr == nil`.
unfoldable pub exists : Directory → Str → Fs Bool
unfolding stat try ◌>>=◌ pure
exists d name = do r ← try (stat d name); pure (elim r [ ok present ↦ present | err e ↦ false ])

-- The loop over the three directories, with its `break`.
unfoldable pub completed_transition : Str → Fs Bool
unfolding exists ◌>>=◌ pure
completed_transition name = do
  in_pending ← exists Directory.pending name
  if in_pending then pure true else (do
    in_history ← exists Directory.history name
    if in_history then pure true else exists Directory.dead name)

abbrev pub recovered : ℕ → Envelope → Envelope
recovered now e = record e { state = State.pending; updated_at = now; lease_until = 0 }

-- The loop of `RecoverExpired` over the inflight items.
unfoldable pub recover_items : ℕ → List Item → Fs ℕ
unfolding completed_transition ignore remove transition ◌>>=◌ pure
recover_items now [] = pure 0
recover_items now (item ∷ items) =
    let rest = recover_items now items in
    do
      completed ← completed_transition item.file_name
      if completed
          then ignore (remove Directory.inflight item.file_name) >> rest
          else if is_after item.lease_until now
          then rest
          else (do
            transition Directory.inflight Directory.pending item.file_name
                (recovered now item.envelope)
            n ← rest
            pure (suc n))

unfoldable pub recover_expired : ℕ → Fs ℕ
unfolding list_unlocked recover_items ◌>>=◌
recover_expired now = do items ← list_unlocked State.inflight; recover_items now items

abbrev pub retried : ℕ → Envelope → Envelope
retried now e = record e {
  state = State.pending;
  attempts = pos 0;
  last_error = [];
  next_attempt_at = 0;
  manual_retries = increment e.manual_retries;
  last_retried_at = now;
  updated_at = now;
}

-- The loop of `Retry` over the dead items.
unfoldable pub retry_first : Str → ℕ → List Item → Fs (Unit {0})
unfolding transition raise
retry_first id now [] = raise Error.dead_event_not_found
retry_first id now (item ∷ items) =
    let rest = retry_first id now items in
    if str_eq item.id id
    then transition Directory.dead Directory.pending item.file_name (retried now item.envelope)
    else rest

unfoldable pub retry : Str → ℕ → Fs (Unit {0})
unfolding list_unlocked retry_first ◌>>=◌
retry id now = do items ← list_unlocked State.dead; retry_first id now items
