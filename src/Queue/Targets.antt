-- ===== src/Queue/Targets.antt =====
-- core/internal/queue/ledger.go: `ResolveTargets`, `AckTarget`, `NackTarget` and `DeadTarget`. A method that changes the item it is given returns the changed item.
use agentbell.Common.{ℕ, List, Option, none, some, Str, Result}
use agentbell.Queue.Types.{Envelope, Item, Error, DeliveryTarget, DeliveryLedgerEntry}
use agentbell.Queue.Ledger.{
  new_delivery_ledger, disposition_for, validate_delivery_envelope, validate_inflight_item,
  ready_targets,
}
use agentbell.Queue.Settle.{updated_envelope, ack_entry, nack_entry, dead_entry}
use agentbell.Queue.Disk.{Directory, Fs, pure, raise, lift, ◌>>=◌, ◌>>◌}
use agentbell.Queue.Listing.{replace}

-- The fields that `ResolveTargets` writes.
abbrev pub with_ledger : ℕ → List DeliveryLedgerEntry → Envelope → Envelope
with_ledger now ledger e = record e {
  ledger = some ledger;
  disposition = disposition_for ledger;
  updated_at = now;
}

-- `ResolveTargets` behind the check of the item: a ledger is made once, and later only read.
abbrev pub resolve_ledger :
    Item
    → List DeliveryTarget
    → ℕ
    → Option (List DeliveryLedgerEntry)
    → Fs (Item × List DeliveryTarget)
resolve_ledger item targets now none = do
  ledger ← lift (new_delivery_ledger targets)
  lift (validate_delivery_envelope (with_ledger now ledger item.envelope))
  replace Directory.inflight item.file_name (with_ledger now ledger item.envelope)
  pure (record item { envelope = with_ledger now ledger item.envelope }, ready_targets ledger now)
resolve_ledger item targets now (some ledger) = do
  lift (validate_delivery_envelope item.envelope)
  pure (item, ready_targets ledger now)

unfoldable pub resolve_targets : Item → List DeliveryTarget → ℕ → Fs (Item × List DeliveryTarget)
unfolding replace pure ◌>>=◌
resolve_targets item targets now = do
  lift (validate_inflight_item item)
  resolve_ledger item targets now item.ledger

-- `updateTarget`: the changed envelope replaces the inflight file.
unfoldable pub update_target :
    Item → DeliveryTarget → (DeliveryLedgerEntry → Result Error DeliveryLedgerEntry) → ℕ → Fs Item
unfolding replace pure ◌>>=◌
update_target item target update now = do
  updated ← lift (updated_envelope item target update now)
  replace Directory.inflight item.file_name updated
  pure (record item { envelope = updated })

unfoldable pub ack_target : Item → DeliveryTarget → Str → ℕ → Fs Item
unfolding update_target
ack_target item target message_id now = update_target item target (ack_entry message_id) now

unfoldable pub nack_target : Item → DeliveryTarget → Option Str → ℕ → ℕ → Fs Item
unfolding update_target raise
nack_target item target none next now = raise Error.cause_required
nack_target item target (some cause) next now =
    update_target item target (nack_entry (some cause) next) now

unfoldable pub dead_target : Item → DeliveryTarget → Option Str → ℕ → Fs Item
unfolding update_target raise
dead_target item target none now = raise Error.cause_required
dead_target item target (some cause) now = update_target item target (dead_entry (some cause)) now
