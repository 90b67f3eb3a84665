-- ===== src/Policy/Quiet/Tests.antt =====
-- core/internal/policy/quiet.go: a night, in a location where every day is a Monday.
use agentbell.Common.{
  ℕ, true, false, ◌&&◌, List, [], ◌∷◌, ◌++◌, ◌*◌, ◌+◌, ◌/◌, ◌%◌, ◌≤◌, All, Option, none, some, Str,
  codes, contains, str_eq, ok, ◌≡◌, ◌⊎◌, refl,
}
use agentbell.Event
use agentbell.Event.{Notification}
use agentbell.Settings.{QuietInterval, QuietHours}
use agentbell.Settings.Validate
use agentbell.Settings.Text.{clock_parts}
use agentbell.Policy.Quiet.{Day, Location, Reason, QuietDecision, evaluate, or_true}
use agentbell.Policy.Quiet.Windows.{evaluate-windows}
use agentbell.Policy.Quiet.Latest.{Covers}

abbrev failure : Notification
failure = record {
  version = codes "1";
  source = codes "codex";
  surface = codes "cli";
  runtime = codes "host";
  event = codes "task.failed";
  status = codes "failed";
  occurred_at = 5;
  session_id = [];
  task_id = [];
  turn_id = [];
  idempotency_key = codes "k";
  priority = codes "high";
  privacy_level = codes "summary";
  project = codes "bell";
  cwd = [];
  summary = codes "exit 1";
}

abbrev day_of : ℕ → Day → ℕ
day_of n Day.before = 0
day_of n Day.same = 1440
day_of n Day.after = 2880

-- Instants are minutes, and every day is a Monday.
abbrev station : Location
station = record {
  hour = λ t. t % 1440 / 60;
  minute = λ t. t % 60;
  weekday = λ t. 1;
  previous = λ t. t;
  civil_time = λ t d h m. day_of t d + h * 60 + m;
}

abbrev night : QuietInterval
night = record { days = codes "mon" ∷ []; start = codes "22:00"; end = codes "07:00" }

abbrev quiet : QuietHours
quiet = record {
  enabled = true;
  timezone = codes "UTC";
  action = codes "defer";
  intervals = night ∷ [];
  bypass_events = [];
}

abbrev load : Str → Option Location
load = λ z. some station

abbrev deferral : QuietDecision
deferral = record {
  active = true;
  action = codes "defer";
  defer_until = 3300;
  reason = Reason.quiet_hours;
}

evaluate-night : evaluate load quiet failure none 2800 ≡ ok deferral
unfolding evaluate Validate.validate_quiet_hours str_eq clock_parts Event.validate
    Event.leaks_metadata
evaluate-night = refl

evaluate-windows_example :
    (l : Location) × (latest : ℕ) × (quiet.enabled ≡ true)
    × ((or_true none && str_eq failure.priority (codes "urgent")) ≡ false)
    × (contains quiet.bypass_events failure.event ≡ false)
    × (load quiet.timezone ≡ some l)
    × ((before : List QuietInterval) × (i : QuietInterval) × (behind : List QuietInterval)
        × (quiet.intervals ≡ before ++ (i ∷ behind))
        × Covers l 2800 i latest)
    × All (λ i. (end : ℕ) → Covers l 2800 i end → end ≤ latest) quiet.intervals
    × (((quiet.action ≡ codes "defer")
          × (deferral.action ≡ codes "defer")
          × (deferral.defer_until ≡ latest))
        ⊎ ((quiet.action ≡ codes "drop") × (deferral.action ≡ codes "drop")))
evaluate-windows_example =
    evaluate-windows load quiet failure none 2800 deferral evaluate-night refl
