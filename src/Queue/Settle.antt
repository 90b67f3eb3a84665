-- ===== src/Queue/Settle.antt =====
-- core/internal/queue/ledger.go: how a target of an item is settled, and what `Ack` and `Defer` ask of
-- a ledger. These are the functions on values; those that write the item back are in Queue.Targets.
use agentbell.Common.{
  ℕ, ◌||◌, not, List, [], Option, none, some, Str, length, take, get_elem?, set, ltb, ◌==◌, Result,
  ok, err, ◌>>=◌, ◌>>◌, require, reject, if◌then◌else◌,
}
use agentbell.Common.Int.{increment}
use agentbell.Queue.Types.{
  DeliveryState, DeliveryTarget, DeliveryLedgerEntry, Envelope, Item, Error, is_pending,
}
use agentbell.Queue.Ledger.{
  validate_inflight_item, disposition_for, validate_delivery_envelope, delivery_ledger_terminal,
  delivery_target_index,
}

-- `nil` is `none`; the text of an error is cut to 512 bytes.
unfoldable pub truncate_error : Option Str → Str
truncate_error none = []
truncate_error (some text) = if ltb 512 (length text) then take 512 text else text

-- The fields that `AckTarget`, `NackTarget` and `DeadTarget` write to a pending entry.
abbrev pub acknowledged : Str → DeliveryLedgerEntry → DeliveryLedgerEntry
acknowledged message_id e = record e {
  state = DeliveryState.succeeded;
  attempts = increment e.attempts;
  next_attempt_at = 0;
  last_error = [];
  message_id = message_id;
}

abbrev pub postponed : Option Str → ℕ → DeliveryLedgerEntry → DeliveryLedgerEntry
postponed cause next_attempt_at e = record e {
  attempts = increment e.attempts;
  next_attempt_at = next_attempt_at;
  last_error = truncate_error cause;
  message_id = [];
}

abbrev pub dead_lettered : Option Str → DeliveryLedgerEntry → DeliveryLedgerEntry
dead_lettered cause e = record e {
  state = DeliveryState.dead;
  attempts = increment e.attempts;
  next_attempt_at = 0;
  last_error = truncate_error cause;
  message_id = [];
}

-- The update of one entry in `AckTarget`.
unfoldable pub ack_entry : Str → DeliveryLedgerEntry → Result Error DeliveryLedgerEntry
ack_entry message_id e = elim e.state [
  | DeliveryState.succeeded ↦ ok e
  | DeliveryState.pending ↦ ok (acknowledged message_id e)
  | _ ↦ err Error.cannot_acknowledge
]

-- The update of one entry in `NackTarget`.
unfoldable pub nack_entry : Option Str → ℕ → DeliveryLedgerEntry → Result Error DeliveryLedgerEntry
nack_entry cause next_attempt_at e =
    if is_pending e.state then ok (postponed cause next_attempt_at e) else err Error.cannot_nack

-- The update of one entry in `DeadTarget`.
unfoldable pub dead_entry : Option Str → DeliveryLedgerEntry → Result Error DeliveryLedgerEntry
dead_entry cause e = elim e.state [
  | DeliveryState.dead ↦ ok e
  | DeliveryState.pending ↦ ok (dead_lettered cause e)
  | _ ↦ err Error.cannot_dead_letter
]

-- The fields that `updateTarget` writes, with the entry at an index replaced.
abbrev pub with_entry : Envelope → List DeliveryLedgerEntry → ℕ → DeliveryLedgerEntry → ℕ → Envelope
with_entry env ledger i e now = record env {
  ledger = some (set ledger i e);
  disposition = disposition_for (set ledger i e);
  updated_at = now;
}

-- `updateTarget` from the lookup of the target to the second validation.
abbrev pub update_at :
    Envelope
    → List DeliveryLedgerEntry
    → (DeliveryLedgerEntry → Result Error DeliveryLedgerEntry)
    → ℕ
    → Option ℕ
    → Option DeliveryLedgerEntry
    → Result Error Envelope
update_at env ledger update now none entry = err Error.target_not_found
update_at env ledger update now (some i) none = err Error.panic
update_at env ledger update now (some i) (some e) = do
  e' ← update e
  validate_delivery_envelope (with_entry env ledger i e' now)
  ok (with_entry env ledger i e' now)

abbrev pub lookup_and_update :
    Envelope
    → DeliveryTarget
    → (DeliveryLedgerEntry → Result Error DeliveryLedgerEntry)
    → ℕ
    → Option (List DeliveryLedgerEntry)
    → Result Error Envelope
lookup_and_update env target update now none = err Error.targets_unresolved
lookup_and_update env target update now (some ledger) = do
  validate_delivery_envelope env
  let index = delivery_target_index ledger target
  update_at env ledger update now index (elim index [ none ↦ none | some i ↦ get_elem? ledger i ])

-- `updateTarget` without the write: the envelope that it stores.
unfoldable pub updated_envelope :
    Item
    → DeliveryTarget
    → (DeliveryLedgerEntry → Result Error DeliveryLedgerEntry)
    → ℕ
    → Result Error Envelope
updated_envelope item target update now = do
  validate_inflight_item item
  lookup_and_update item.envelope target update now item.ledger

-- The guards of `Ack` on a ledger.
unfoldable pub ack_ledger : Envelope → Option (List DeliveryLedgerEntry) → Result Error (Unit {0})
ack_ledger env none = ok tt
ack_ledger env (some ledger) = do
  validate_delivery_envelope env
  require (delivery_ledger_terminal ledger) Error.not_terminal

-- The guards of `Defer` behind the check of the item.
unfoldable pub defer_ledger :
    Envelope → ℕ → ℕ → Option (List DeliveryLedgerEntry) → Result Error (Unit {0})
defer_ledger env now next none = err Error.defer_unresolved
defer_ledger env now next (some ledger) = do
  reject (next == 0 || not (ltb now next)) Error.defer_not_after_now
  validate_delivery_envelope env
  reject (delivery_ledger_terminal ledger) Error.defer_terminal
