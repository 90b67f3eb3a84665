-- ===== src/Queue/Ledger.antt =====
-- core/internal/queue/ledger.go: the delivery ledger of an item, with an entry for each target.
-- These are the functions on values; Queue.Settle builds on them.
mod Entries
pub mod Fresh
pub mod Update
pub mod Stored
pub mod Outcome
pub mod Summary
mod Tests
use agentbell.Common.{
  ℕ, zero, suc, Bool, true, false, ◌&&◌, ◌||◌, not, List, [], ◌∷◌, ◌++◌, Option, none, some, Str,
  str_eq, is_empty, contains, length, take, get_elem?, set, ltb, leb, ◌==◌, Result, ok, err, ◌>>=◌,
  ◌>>◌, require, reject, if◌then◌else◌,
}
use agentbell.Common.Int.{ℤ, pos, increment, is_nonneg, is_positive, is_zero}
use agentbell.Queue.Types
use agentbell.Queue.Types.{
  DeliveryState, Disposition, DeliveryTarget, DeliveryLedgerEntry, Envelope, Item, Error,
  is_inflight, is_pending, disposition_eq,
}

abbrev pub maximum_delivery_identifier_length : ℕ
maximum_delivery_identifier_length = 256

unfoldable pub delivery_target_key : Str → Str → Str
delivery_target_key channel_id template_id = channel_id ++ (0 ∷ template_id)

abbrev pub target_of : DeliveryLedgerEntry → DeliveryTarget
target_of e = record { channel_id = e.channel_id; template_id = e.template_id }

abbrev pub key_of : DeliveryLedgerEntry → Str
key_of e = delivery_target_key e.channel_id e.template_id

unfoldable pub validate_delivery_target : DeliveryTarget → Result Error (Unit {0})
validate_delivery_target t = do
  reject (is_empty t.channel_id || is_empty t.template_id) Error.target_required
  reject
      (ltb maximum_delivery_identifier_length (length t.channel_id)
        || ltb maximum_delivery_identifier_length (length t.template_id))
      Error.target_too_long

unfoldable pub validate_inflight_item : Item → Result Error (Unit {0})
validate_inflight_item item = do
  require (is_inflight item.state) Error.not_inflight
  reject (is_empty item.file_name) Error.no_file_name

unfoldable pub count_succeeded : List DeliveryLedgerEntry → ℕ
count_succeeded [] = 0
count_succeeded (e ∷ es) = elim e.state [
  | DeliveryState.succeeded ↦ suc (count_succeeded es)
  | _ ↦ count_succeeded es
]

unfoldable pub count_dead : List DeliveryLedgerEntry → ℕ
count_dead [] = 0
count_dead (e ∷ es) = elim e.state [ DeliveryState.dead ↦ suc (count_dead es) | _ ↦ count_dead es ]

-- The two counters of the loop, and the switch behind it.
unfoldable pub disposition_for : List DeliveryLedgerEntry → Disposition
disposition_for ledger =
    if count_succeeded ledger == length ledger
    then Disposition.succeeded
    else if count_dead ledger == length ledger
    then Disposition.dead
    else if ltb 0 (count_succeeded ledger)
    then Disposition.partial
    else Disposition.pending

-- The switch on the state of one entry in `validateDeliveryEnvelope`.
unfoldable pub validate_state : DeliveryState → DeliveryLedgerEntry → Result Error (Unit {0})
validate_state DeliveryState.pending e = do
  require (is_empty e.message_id) Error.pending_with_message
  reject (is_zero e.attempts && not (is_empty e.last_error)) Error.unattempted_with_error
validate_state DeliveryState.succeeded e = do
  require (is_positive e.attempts) Error.succeeded_without_attempt
  reject (not (e.next_attempt_at == 0) || not (is_empty e.last_error))
      Error.succeeded_with_retry_state
validate_state DeliveryState.dead e = do
  reject (not (is_positive e.attempts) || is_empty e.last_error) Error.dead_without_failure
  reject (not (e.next_attempt_at == 0) || not (is_empty e.message_id)) Error.dead_not_terminal
validate_state (DeliveryState.other s) e = err Error.invalid_state

unfoldable pub validate_entry : DeliveryLedgerEntry → Result Error (Unit {0})
unfolding validate_state
validate_entry e = do
  require (is_nonneg e.attempts) Error.negative_attempts
  validate_state e.state e

-- The loop of `validateDeliveryEnvelope`, with the keys that it has seen.
unfoldable pub validate_entries : List Str → List DeliveryLedgerEntry → Result Error (Unit {0})
validate_entries seen [] = ok tt
validate_entries seen (e ∷ es) = do
  validate_delivery_target (target_of e)
  reject (contains seen (key_of e)) Error.duplicate_target
  validate_entry e
  validate_entries (key_of e ∷ seen) es

unfoldable pub validate_ledger :
    Option (List DeliveryLedgerEntry) → Disposition → Result Error (Unit {0})
validate_ledger none d =
    require (disposition_eq d Disposition.unset) Error.disposition_without_ledger
validate_ledger (some []) d = err Error.empty_ledger
validate_ledger (some (e ∷ es)) d = do
  validate_entries [] (e ∷ es)
  require (disposition_eq d (disposition_for (e ∷ es))) Error.disposition_mismatch

unfoldable pub validate_delivery_envelope : Envelope → Result Error (Unit {0})
unfolding validate_ledger
validate_delivery_envelope e = validate_ledger e.ledger e.disposition

abbrev pub fresh_entry : DeliveryTarget → DeliveryLedgerEntry
fresh_entry t = record {
  channel_id = t.channel_id;
  template_id = t.template_id;
  state = DeliveryState.pending;
  attempts = pos 0;
  next_attempt_at = 0;
  last_error = [];
  message_id = [];
}

-- The loop of `newDeliveryLedger`, with the keys that it has seen.
unfoldable pub fresh_entries :
    List Str → List DeliveryTarget → Result Error (List DeliveryLedgerEntry)
fresh_entries seen [] = ok []
fresh_entries seen (t ∷ ts) = do
  validate_delivery_target t
  reject (contains seen (delivery_target_key t.channel_id t.template_id)) Error.duplicate_target
  rest ← fresh_entries (delivery_target_key t.channel_id t.template_id ∷ seen) ts
  ok (fresh_entry t ∷ rest)

unfoldable pub new_delivery_ledger : List DeliveryTarget → Result Error (List DeliveryLedgerEntry)
new_delivery_ledger [] = err Error.no_targets
new_delivery_ledger (t ∷ ts) = fresh_entries [] (t ∷ ts)

unfoldable pub delivery_ledger_terminal : List DeliveryLedgerEntry → Bool
delivery_ledger_terminal [] = true
delivery_ledger_terminal (e ∷ es) = not (is_pending e.state) && delivery_ledger_terminal es

-- Whether the loop of `readyTargets` keeps an entry.
unfoldable pub is_ready : ℕ → DeliveryLedgerEntry → Bool
is_ready now e = is_pending e.state && (e.next_attempt_at == 0 || not (ltb now e.next_attempt_at))

unfoldable pub ready_targets : List DeliveryLedgerEntry → ℕ → List DeliveryTarget
ready_targets [] now = []
ready_targets (e ∷ es) now =
    if is_ready now e then target_of e ∷ ready_targets es now else ready_targets es now

unfoldable pub same_target : DeliveryLedgerEntry → DeliveryTarget → Bool
same_target e t = str_eq e.channel_id t.channel_id && str_eq e.template_id t.template_id

-- -1 is `none`.
unfoldable pub delivery_target_index : List DeliveryLedgerEntry → DeliveryTarget → Option ℕ
delivery_target_index [] t = none
delivery_target_index (e ∷ es) t =
    if same_target e t
    then some 0
    else elim (delivery_target_index es t) [ none ↦ none | some i ↦ some (suc i) ]
