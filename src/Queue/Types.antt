-- ===== src/Queue/Types.antt =====
-- core/internal/queue/queue.go and ledger.go: the data that the queue keeps on disk, and its errors.
-- Go's string types with constants are data types with a constructor `other` for any other text.
-- An instant is a number of nanoseconds since Go's zero time, which is 0; an `int` is an integer.
use agentbell.Common.{ℕ, Bool, true, false, List, Option, Str, str_eq}
use agentbell.Common.Int.{ℤ}
use agentbell.Event.{Notification, Invalid}

pub data State : Type 0 where
  pending inflight succeeded dead : State
  other : Str → State

pub data DeliveryState : Type 0 where
  pending succeeded dead : DeliveryState
  other : Str → DeliveryState

-- `unset` is the empty string.
pub data Disposition : Type 0 where
  unset pending partial succeeded dead : Disposition
  other : Str → Disposition

-- `==` on dispositions.
unfoldable pub disposition_eq : Disposition → Disposition → Bool
disposition_eq Disposition.unset Disposition.unset = true
disposition_eq Disposition.pending Disposition.pending = true
disposition_eq Disposition.partial Disposition.partial = true
disposition_eq Disposition.succeeded Disposition.succeeded = true
disposition_eq Disposition.dead Disposition.dead = true
disposition_eq (Disposition.other s) (Disposition.other t) = str_eq s t
disposition_eq _ _ = false

-- `state == StateInflight`.
abbrev pub is_inflight : State → Bool
is_inflight State.inflight = true
is_inflight _ = false

-- `state == DeliveryPending`.
abbrev pub is_pending : DeliveryState → Bool
is_pending DeliveryState.pending = true
is_pending _ = false

pub record DeliveryTarget : Type 0 where
  pub channel_id : Str
  pub template_id : Str

pub record DeliveryLedgerEntry : Type 0 where
  pub channel_id : Str
  pub template_id : Str
  pub state : DeliveryState
  pub attempts : ℤ
  pub next_attempt_at : ℕ
  pub last_error : Str
  pub message_id : Str

-- A nil ledger is `none`: the item has no resolved targets.
pub record Envelope : Type 0 where
  pub queue_version : ℕ
  pub id : Str
  pub state : State
  pub event : Notification
  pub attempts : ℤ
  pub created_at : ℕ
  pub updated_at : ℕ
  pub next_attempt_at : ℕ
  pub lease_until : ℕ
  pub last_error : Str
  pub manual_retries : ℤ
  pub last_retried_at : ℕ
  pub ledger : Option (List DeliveryLedgerEntry)
  pub disposition : Disposition

pub record Item : Type 0 where
  pub envelope : Envelope
  pub open envelope use *
  pub file_name : Str

-- One constructor to an error that the package returns. `io` is a failure of the file system,
-- `panic` an index out of range.
pub data Error : Type 0 where
  notification : Invalid → Error
  io exist not_exist panic random : Error
  not_inflight no_file_name unsupported_state : Error
  target_required target_too_long no_targets duplicate_target : Error
  disposition_without_ledger empty_ledger negative_attempts : Error
  pending_with_message unattempted_with_error : Error
  succeeded_without_attempt succeeded_with_retry_state : Error
  dead_without_failure dead_not_terminal invalid_state disposition_mismatch : Error
  not_terminal targets_resolved cause_required : Error
  cannot_acknowledge cannot_nack cannot_dead_letter : Error
  targets_unresolved target_not_found : Error
  defer_unresolved defer_not_after_now defer_terminal : Error
  not_durable dead_event_not_found retry_reservation contended : Error
