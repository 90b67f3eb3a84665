-- ===== src/Queue/Ledger/Tests.antt =====
-- core/internal/queue/ledger.go: the ledger on a concrete item with two targets.
use agentbell.Common.{
  ℕ, true, lookup, List, [], ◌∷◌, some, codes, contains, str_eq, ok, ◌≡◌, refl, All, get_elem?, map,
  false,
}
use agentbell.Common.Int.{pos}
use agentbell.Event.{Notification}
use agentbell.Queue.Types.{
  State, DeliveryState, Disposition, DeliveryTarget, DeliveryLedgerEntry, Envelope, Item,
  is_pending, disposition_eq,
}
use agentbell.Queue.Ledger.{
  target_of, delivery_target_key, validate_delivery_target, validate_inflight_item, count_succeeded,
  count_dead, disposition_for, validate_state, validate_entry, validate_entries, validate_ledger,
  validate_delivery_envelope, fresh_entries, new_delivery_ledger, ready_targets, same_target,
  delivery_target_index,
}
use agentbell.Queue.Settle.{acknowledged, ack_entry, with_entry, updated_envelope}
use agentbell.Queue.Ledger.Fresh.{new_delivery_ledger-valid}
use agentbell.Queue.Disk.{File, Directory, Disk, file_at, is_some}
use agentbell.Queue.Targets.{ack_target, nack_target, dead_target}
use agentbell.Queue.Ledger.Stored.{
  Stores, ack_target-Stores, nack_target-Stores, dead_target-Stores,
}
use agentbell.Queue.Ledger.Outcome.{TargetUpdate, entry_update, settled_targets_stay}

abbrev phone : DeliveryTarget
phone = record { channel_id = codes "phone"; template_id = codes "short" }

abbrev desk : DeliveryTarget
desk = record { channel_id = codes "desk"; template_id = codes "long" }

abbrev open_entry : DeliveryTarget → DeliveryLedgerEntry
open_entry t = record {
  channel_id = t.channel_id;
  template_id = t.template_id;
  state = DeliveryState.pending;
  attempts = pos 0;
  next_attempt_at = 0;
  last_error = [];
  message_id = [];
}

abbrev sent_entry : DeliveryTarget → DeliveryLedgerEntry
sent_entry t = record (open_entry t) {
  state = DeliveryState.succeeded;
  attempts = pos 1;
  message_id = codes "m0";
}

abbrev done : Notification
done = record {
  version = codes "1";
  source = codes "codex";
  surface = codes "cli";
  runtime = codes "host";
  event = codes "task.completed";
  status = codes "completed";
  occurred_at = 5;
  session_id = [];
  task_id = [];
  turn_id = [];
  idempotency_key = codes "k";
  priority = codes "normal";
  privacy_level = codes "summary";
  project = [];
  cwd = [];
  summary = [];
}

abbrev half_sent : List DeliveryLedgerEntry
half_sent = sent_entry phone ∷ open_entry desk ∷ []

abbrev half_sent_item : Item
half_sent_item = record {
  envelope = record {
    queue_version = 1;
    id = codes "a";
    state = State.inflight;
    event = done;
    attempts = pos 0;
    created_at = 5;
    updated_at = 6;
    next_attempt_at = 0;
    lease_until = 9;
    last_error = [];
    manual_retries = pos 0;
    last_retried_at = 0;
    ledger = some half_sent;
    disposition = Disposition.partial;
  };
  file_name = codes "5-a.json";
}

new_delivery_ledger_two :
    new_delivery_ledger (phone ∷ desk ∷ []) ≡ ok (open_entry phone ∷ open_entry desk ∷ [])
unfolding new_delivery_ledger fresh_entries validate_delivery_target delivery_target_key contains
    str_eq
new_delivery_ledger_two = refl

new_delivery_ledger-valid_example :
    let es = open_entry phone ∷ open_entry desk ∷ [] in
    (map target_of es ≡ phone ∷ desk ∷ [])
    × (disposition_for es ≡ Disposition.pending)
    × (validate_ledger (some es) (disposition_for es) ≡ ok tt)
    × (ready_targets es 7 ≡ phone ∷ desk ∷ [])
new_delivery_ledger-valid_example =
    new_delivery_ledger-valid (phone ∷ desk ∷ []) (open_entry phone ∷ open_entry desk ∷ []) 7
      new_delivery_ledger_two

half_sent-inflight : validate_inflight_item half_sent_item ≡ ok tt
unfolding validate_inflight_item
half_sent-inflight = refl

half_sent-valid : validate_delivery_envelope half_sent_item.envelope ≡ ok tt
unfolding validate_delivery_envelope validate_ledger validate_entries validate_entry validate_state
    validate_delivery_target delivery_target_key disposition_for count_succeeded count_dead
    disposition_eq contains str_eq
half_sent-valid = refl

abbrev after_ack : Envelope
after_ack =
    with_entry half_sent_item.envelope half_sent 1 (acknowledged (codes "m1") (open_entry desk)) 8

half_sent-acked : updated_envelope half_sent_item desk (ack_entry (codes "m1")) 8 ≡ ok after_ack
unfolding updated_envelope ack_entry validate_inflight_item delivery_target_index same_target
    validate_delivery_envelope validate_ledger validate_entries validate_entry validate_state
    validate_delivery_target delivery_target_key disposition_for count_succeeded count_dead
    disposition_eq contains str_eq
half_sent-acked = refl

-- The directories in which the item is in flight.
abbrev flying : Disk
flying = record {
  pending_files = [];
  inflight_files = (half_sent_item.file_name, File.envelope half_sent_item.envelope) ∷ [];
  history_files = [];
  dead_files = [];
  keys = [];
}

half_sent-present : is_some (file_at flying Directory.inflight half_sent_item.file_name) ≡ true
unfolding lookup str_eq
half_sent-present = refl

phone_is_other : All (λ x. same_target x desk ≡ false) (sent_entry phone ∷ [])
unfolding same_target str_eq
phone_is_other = (refl, tt)

desk_is_desk : same_target (open_entry desk) desk ≡ true
unfolding same_target str_eq
desk_is_desk = refl

ack_target-Stores_example :
    Stores half_sent_item
      (sent_entry phone ∷ [])
      (open_entry desk)
      []
      8
      flying
      0
      (ack_target half_sent_item desk (codes "m1") 8)
      record (sent_entry desk) { message_id = codes "m1" }
ack_target-Stores_example =
    ack_target-Stores half_sent_item (sent_entry phone ∷ []) (open_entry desk) [] 8 flying 0 desk
      half_sent-inflight refl half_sent-valid phone_is_other desk_is_desk half_sent-present
      (codes "m1") refl

nack_target-Stores_example :
    Stores half_sent_item
      (sent_entry phone ∷ [])
      (open_entry desk)
      []
      8
      flying
      0
      (nack_target half_sent_item desk (some (codes "late")) 12 8)
      record (open_entry desk) { attempts = pos 1; next_attempt_at = 12; last_error = codes "late" }
nack_target-Stores_example =
    nack_target-Stores half_sent_item (sent_entry phone ∷ []) (open_entry desk) [] 8 flying 0 desk
      half_sent-inflight refl half_sent-valid phone_is_other desk_is_desk half_sent-present
      (codes "late") 12 refl

dead_target-Stores_example :
    Stores half_sent_item
      (sent_entry phone ∷ [])
      (open_entry desk)
      []
      8
      flying
      0
      (dead_target half_sent_item desk (some (codes "gone")) 8)
      record (open_entry desk) {
        state = DeliveryState.dead;
        attempts = pos 1;
        last_error = codes "gone";
      }
dead_target-Stores_example =
    dead_target-Stores half_sent_item (sent_entry phone ∷ []) (open_entry desk) [] 8 flying 0 desk
      half_sent-inflight refl half_sent-valid phone_is_other desk_is_desk half_sent-present
      (codes "gone") refl refl

settled_targets_stay_example :
    (es' : List DeliveryLedgerEntry) × (after_ack.ledger ≡ some es')
    × (map target_of es' ≡ map target_of half_sent)
    × ((j : ℕ) (e : DeliveryLedgerEntry)
        → get_elem? half_sent j ≡ some e
        → is_pending e.state ≡ false
        → get_elem? es' j ≡ some e)
unfolding entry_update
settled_targets_stay_example =
    settled_targets_stay half_sent_item desk (TargetUpdate.ack (codes "m1")) 8 half_sent after_ack
      refl half_sent-acked
