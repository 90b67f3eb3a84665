-- ===== src/Event/Tests.antt =====
-- core/internal/event/event.go: hooks of Codex and Kimi.
use agentbell.Common.{
  ◌++◌, ℕ, ◌<◌, All, [], ◌∷◌, Option, none, some, Str, codes, contains, str_eq, ok, ◌≡◌, refl,
  arith, false,
}
use agentbell.Event.{Notification, validate}
use agentbell.Event.Normalize.{session_of, turn_of, RawEvent, occurrence, normalize, should_notify}
use agentbell.Event.Names.{source_for_adapter, find_source, equal_fold, fold, canonical_event}
use agentbell.Event.Total.{IsHashed, normalize_lem}
use agentbell.Event.Suppress.{should_notify-approval}

abbrev hook : RawEvent
hook = record {
  hook_event_name = codes "Stop";
  event = [];
  kind = [];
  approvals_reviewer = [];
  context_reviewer = [];
  cwd = codes "/home/bell";
  session_id = codes "s1";
  thread_id = [];
  task_id = [];
  turn_id = [];
  prompt_id = [];
  tool_call_id = [];
  tool_use_id = [];
  source_id = [];
  idempotency_key = [];
  notification_type = [];
  occurred_at = [];
  timestamp = [];
}

abbrev approval : RawEvent
approval = record hook { hook_event_name = codes "PermissionRequest" }

abbrev decode : Str → Option RawEvent
decode = λ raw. some approval

abbrev no_time : Str → Option ℕ
no_time = λ s. none

abbrev print_time : ℕ → Str
print_time = λ t. t ∷ []

abbrev short_hash : Str → Str
short_hash = λ s. codes "0123456789abcdef"

codex-source : source_for_adapter (codes "codex") ≡ some (codes "codex")
unfolding source_for_adapter find_source str_eq
codex-source = refl

occurs_now : occurrence decode no_time print_time short_hash approval 7 ≡ ok 7
unfolding occurrence
occurs_now = refl

normalize_lem_example :
    (n : Notification) × (normalize decode no_time print_time short_hash
        (codes "codex")
        (codes "cli")
        (codes "host")
        (codes "{}")
        7
      ≡ ok n)
    × (validate n ≡ ok tt)
    × (n.source ≡ codes "codex")
    × (n.occurred_at ≡ 7)
    × (n.privacy_level ≡ codes "metadata-only")
    × (n.cwd ≡ [])
    × (n.summary ≡ [])
    × IsHashed decode no_time print_time short_hash (session_of approval) n.session_id
    × IsHashed decode no_time print_time short_hash approval.task_id n.task_id
    × IsHashed decode no_time print_time short_hash (turn_of approval) n.turn_id
    × ((text : Str) × (n.idempotency_key ≡ codes "sha256:" ++ short_hash text))
unfolding contains str_eq
normalize_lem_example =
    normalize_lem decode no_time print_time short_hash (codes "codex") (codes "cli") (codes "host")
      (codes "{}") (codes "codex") 7 7 approval refl refl codex-source refl refl occurs_now refl

suppressed :
    should_notify decode no_time print_time short_hash (codes "codex") (codes "{}") ≡ ok false
unfolding should_notify equal_fold fold str_eq
suppressed = refl

name_is_ascii : All (λ c. c < 128) (codes "PermissionRequest")
name_is_ascii = ground arith

should_notify-approval_example :
    (codes "codex" ≡ codes "codex")
    × ((canonical_event (codes "codex") (codes "PermissionRequest") []).0
        ≡ codes "approval.required")
should_notify-approval_example =
    should_notify-approval decode no_time print_time short_hash (codes "codex") (codes "{}")
      approval refl name_is_ascii suppressed
