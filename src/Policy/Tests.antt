-- ===== src/Policy/Tests.antt =====
-- core/internal/policy/policy.go: settings whose second policy matches.
use agentbell.Common.{
  Bool, true, false, List, [], ◌∷◌, ◌++◌, none, some, Str, codes, length, contains, str_eq, ok, ◌≡◌,
  refl, ◌⊎◌, ◌<◌,
}
use agentbell.Event
use agentbell.Event.{Notification}
use agentbell.Settings.{PolicyMatch, Policy, Settings}
use agentbell.Settings.Validate
use agentbell.Settings.Text.{matches_semver, matches_identifier, has_double, is_blank, rune_count}
use agentbell.Policy.Evaluate.{
  Defaults, Decision, matches, validate_defaults, default_decision, apply_policy, apply_first,
  policies_of, evaluate,
}
use agentbell.Policy.Routing.{NoneMatches, evaluate-first_match}
use agentbell.Policy.Routable.{ids_of, evaluate-routable}

abbrev failure : Notification
failure = record {
  version = codes "1";
  source = codes "codex";
  surface = codes "cli";
  runtime = codes "host";
  event = codes "task.failed";
  status = codes "failed";
  occurred_at = 5;
  session_id = [];
  task_id = [];
  turn_id = [];
  idempotency_key = codes "k";
  priority = codes "high";
  privacy_level = codes "summary";
  project = codes "bell";
  cwd = [];
  summary = codes "exit 1";
}

abbrev any : PolicyMatch
any = record {
  events = [];
  sources = [];
  surfaces = [];
  runtimes = [];
  priorities = [];
  projects = [];
}

abbrev quiet_approvals : Policy
quiet_approvals = record {
  id = codes "quiet";
  match = record any { events = codes "approval.required" ∷ [] };
  action = record { enabled = some false; channel_ids = none; template_id = [] };
}

abbrev loud_failures : Policy
loud_failures = record {
  id = codes "loud";
  match = record any { events = codes "task.failed" ∷ []; projects = codes "bell" ∷ [] };
  action = record {
    enabled = some true;
    channel_ids = some (codes "phone" ∷ []);
    template_id = codes "long";
  };
}

abbrev config : Settings
config = record {
  version = 1;
  min_core_version = codes "0.1.0";
  events =
      (codes "task.completed", true)
      ∷ (codes "task.failed", false)
      ∷ (codes "agent.waiting", true)
      ∷ (codes "approval.required", true)
      ∷ (codes "session.interrupted", true)
      ∷ (codes "subagent.completed", false)
      ∷ (codes "agent.info", false)
      ∷ [];
  default_template = codes "short";
  templates =
      record { id = codes "short"; body = codes "{{event}}" }
      ∷ record { id = codes "long"; body = codes "{{sourceName}}: {{event}}" }
      ∷ [];
  quiet_hours = record {
    enabled = false;
    timezone = codes "UTC";
    action = codes "defer";
    intervals = [];
    bypass_events = [];
  };
  policies = some (quiet_approvals ∷ loud_failures ∷ []);
}

abbrev desk : Defaults
desk = record { channel_ids = codes "desk" ∷ []; template_id = codes "short" }

abbrev decided : Decision
decided = record {
  enabled = true;
  channel_ids = codes "phone" ∷ [];
  template_id = codes "long";
  matched = true;
  policy_id = codes "loud";
}

abbrev knows_utc : Str → Bool
knows_utc = λ z. str_eq z (codes "UTC")

evaluate-failure : evaluate knows_utc config failure desk ≡ ok decided
unfolding evaluate Validate.validate matches_semver contains str_eq matches_identifier has_double
    Validate.validate_match Validate.validate_projects Validate.validate_action is_blank rune_count
    Event.validate Event.leaks_metadata validate_defaults apply_first
evaluate-failure = refl

evaluate-first_match_example :
    (NoneMatches failure (policies_of config) × (decided ≡ default_decision config failure desk))
    ⊎ ((before : List Policy) × (p : Policy) × (behind : List Policy) × (policies_of config
          ≡ before ++ (p ∷ behind))
        × NoneMatches failure before
        × (matches p.match failure ≡ true)
        × (decided ≡ apply_policy p (default_decision config failure desk)))
evaluate-first_match_example =
    evaluate-first_match knows_utc config failure desk decided evaluate-failure

evaluate-routable_example :
    (0 < length decided.channel_ids) × (contains (ids_of config) decided.template_id ≡ true)
evaluate-routable_example = evaluate-routable knows_utc config failure desk decided evaluate-failure
