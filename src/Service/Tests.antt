-- ===== src/Service/Tests.antt =====
-- core/internal/service/processor.go: a decision without policies, an item, and a night of quiet hours.
use agentbell.Common.{
  ℕ, ◌+◌, ◌<◌, Bool, true, false, List, [], ◌∷◌, some, Str, codes, str_eq, contains, length, map,
  All, ok, none, ◌%◌, ◌/◌, ◌*◌, ◌≡◌, refl,
}
use agentbell.Common.Int.{pos}
use agentbell.Event
use agentbell.Event.{Notification}
use agentbell.Settings.{QuietInterval, Settings}
use agentbell.Settings.Validate
use agentbell.Settings.Text.{
  clock_parts, matches_semver, matches_identifier, has_double, is_blank, rune_count,
}
use agentbell.Policy.{
  Defaults, Decision, evaluate, validate_defaults, apply_first, default_decision,
}
use agentbell.Queue.Types.{
  State, DeliveryState, Disposition, DeliveryTarget, DeliveryLedgerEntry, Item,
}
use agentbell.Queue.Items.{defer}
use agentbell.Service.Targets.{Channel, targets_of, resolve_decision_targets}
use agentbell.Service.Targets.Deliverable.{IsDeliverable, resolve_decision_targets-IsDeliverable}
use agentbell.Service.Resolved.{
  Cause, Pace, queue_call, backoff, poll_interval, entries, none_pending, finish_resolved_item,
}
use agentbell.Policy.Quiet
use agentbell.Policy.Quiet.{Day, Location, QuietDecision}
use agentbell.Service.Process.{Config, Environment, Sender, quietly, deliver_all, process_m2}
use agentbell.Actions.Triple.{Keeps, Triple}
use agentbell.Service.Process.Silence.{process_m2-IsSilent}
use agentbell.Service.Process.Calls.{Calls, deliver_all-Calls}
use agentbell.Policy.Template.{TemplateInput}
use agentbell.Service.Resolved.Schedule.{IsEarliest, finish_resolved_item-defers}

abbrev waiting : Notification
waiting = record {
  version = codes "1";
  source = codes "claude";
  surface = codes "tui";
  runtime = codes "host";
  event = codes "agent.waiting";
  status = codes "attention";
  occurred_at = 9;
  session_id = [];
  task_id = [];
  turn_id = [];
  idempotency_key = codes "w";
  priority = codes "normal";
  privacy_level = codes "metadata-only";
  project = [];
  cwd = [];
  summary = [];
}

abbrev plain : Settings
plain = record {
  version = 1;
  min_core_version = codes "1.0.0";
  events =
      (codes "task.completed", true)
      ∷ (codes "task.failed", true)
      ∷ (codes "agent.waiting", true)
      ∷ (codes "approval.required", true)
      ∷ (codes "session.interrupted", true)
      ∷ (codes "subagent.completed", true)
      ∷ (codes "agent.info", true)
      ∷ [];
  default_template = codes "short";
  templates = record { id = codes "short"; body = codes "{{event}}" } ∷ [];
  quiet_hours = record {
    enabled = false;
    timezone = codes "UTC";
    action = codes "defer";
    intervals = [];
    bypass_events = [];
  };
  policies = some [];
}

abbrev to_desk : Defaults
to_desk = record { channel_ids = codes "desk" ∷ []; template_id = codes "short" }

abbrev decided : Decision
decided = record {
  enabled = true;
  channel_ids = codes "desk" ∷ [];
  template_id = codes "short";
  matched = false;
  policy_id = [];
}

abbrev any_zone : Str → Bool
any_zone = λ z. true

decides : evaluate any_zone plain waiting to_desk ≡ ok decided
unfolding evaluate Validate.validate matches_semver contains str_eq matches_identifier has_double
    is_blank rune_count Event.validate Event.leaks_metadata validate_defaults apply_first
    default_decision
decides = refl

abbrev channels : List Channel
channels =
    record {
      id = codes "desk";
      name = codes "Desk";
      kind = codes "lark";
      chat_id = codes "c";
      as_identity = codes "bot";
    }
    ∷ []

resolve_decision_targets-IsDeliverable_example :
    (resolve_decision_targets channels plain decided
      ≡ targets_of channels (codes "short") (codes "desk" ∷ []))
    × ((ts : List DeliveryTarget)
        → resolve_decision_targets channels plain decided ≡ ok ts
        → (map (λ t. t.channel_id) ts ≡ codes "desk" ∷ [])
          × (0 < length ts)
          × All (IsDeliverable channels (codes "short")) ts)
resolve_decision_targets-IsDeliverable_example =
    resolve_decision_targets-IsDeliverable any_zone plain waiting to_desk decided channels decides

abbrev desk : DeliveryTarget
desk = record { channel_id = codes "desk"; template_id = codes "short" }

abbrev entry : DeliveryLedgerEntry
entry = record {
  channel_id = codes "desk";
  template_id = codes "short";
  state = DeliveryState.pending;
  attempts = pos 1;
  next_attempt_at = 90;
  last_error = [];
  message_id = [];
}

abbrev item : Item
item = record {
  envelope = record {
    queue_version = 1;
    id = codes "a";
    state = State.inflight;
    event = waiting;
    attempts = pos 1;
    created_at = 9;
    updated_at = 9;
    next_attempt_at = 0;
    lease_until = 70;
    last_error = [];
    manual_retries = pos 0;
    last_retried_at = 0;
    ledger = some (entry ∷ []);
    disposition = Disposition.unset;
  };
  file_name = codes "1-a.json";
}

abbrev pace : Pace
pace = record { poll_interval = 5; backoff = 3 ∷ 4 ∷ 5 ∷ [] }

abbrev timeout : Cause
timeout = record { text = codes "timeout"; permanent = false }

finish_resolved_item-defers_example :
    (next : ℕ) × (finish_resolved_item pace item 60 ≡ queue_call (defer item 60 next))
    × (60 < next)
    × IsEarliest 60 (poll_interval pace) 0 (entries item.ledger) next
unfolding none_pending
finish_resolved_item-defers_example = finish_resolved_item-defers pace item 60 refl

-- A day has 1440 instants, a minute each, and every day is a Monday.
abbrev day_of : ℕ → Day → ℕ
day_of n Day.before = 0
day_of n Day.same = 1440
day_of n Day.after = 2880

abbrev station : Location
station = record {
  hour = λ t. t % 1440 / 60;
  minute = λ t. t % 60;
  weekday = λ t. 1;
  previous = λ t. t;
  civil_time = λ t d h m. day_of t d + h * 60 + m;
}

abbrev night : QuietInterval
night = record { days = codes "mon" ∷ []; start = codes "22:00"; end = codes "07:00" }

abbrev nightly : Settings
nightly = record plain {
  quiet_hours = record {
    enabled = true;
    timezone = codes "UTC";
    action = codes "defer";
    intervals = night ∷ [];
    bypass_events = [];
  };
}

abbrev config : Config
config = record { default_channel = codes "desk"; channels = channels }

abbrev accept : Sender
accept = λ sent channel text. ok (codes "m")

abbrev here : Environment
here = record {
  zone_exists = any_zone;
  load_location = λ z. some station;
  urgent_bypass = none;
  valid_utf8 = λ s. true;
  print_time = λ t. codes "now";
  source_name = λ n. n.source;
  sender = some accept;
  cause_of = λ f. timeout;
  pace = pace;
}

abbrev deferral : QuietDecision
deferral = record {
  active = true;
  action = codes "defer";
  defer_until = 3300;
  reason = Quiet.Reason.quiet_hours;
}

is_night :
    Quiet.evaluate here.load_location nightly.quiet_hours item.event here.urgent_bypass 2800
    ≡ ok deferral
unfolding Quiet.evaluate Validate.validate_quiet_hours str_eq clock_parts Event.validate
    Event.leaks_metadata
is_night = refl

process_m2-IsSilent_example : Keeps (λ s. s.sent ≡ []) (process_m2 here 2800 config nightly item)
process_m2-IsSilent_example =
    process_m2-IsSilent here 2800 config nightly item deferral is_night refl []

abbrev input : TemplateInput
input = record {
  source_name = codes "claude";
  event = codes "agent.waiting";
  status = codes "attention";
  project = [];
  priority = codes "normal";
  occurred_at = 9;
  runtime = codes "host";
  surface = codes "tui";
}

deliver_all-Calls_example :
    Triple
      (λ s. s.sent ≡ [])
      (deliver_all here 60 accept config plain input (quietly item) (desk ∷ []))
      (λ _ s. Calls here config plain input (desk ∷ []) [] s.sent)
      (λ _ s. Calls here config plain input (desk ∷ []) [] s.sent)
deliver_all-Calls_example =
    deliver_all-Calls here config plain input 60 accept (quietly item) (desk ∷ []) []
