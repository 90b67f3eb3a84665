-- ===== src/Event.antt =====
-- core/internal/event/event.go: the normalised notification and its validation. A string is a
-- list of bytes; an instant is a number of nanoseconds since Go's zero time, which is 0.
pub mod Names
pub mod Normalize
pub mod Total
pub mod Suppress
mod Tests
use agentbell.Common.{
  ℕ, Bool, ◌&&◌, ◌||◌, not, List, [], ◌∷◌, Str, codes, str_eq, is_empty, contains, length, ltb,
  ◌==◌, Result, ◌>>◌, require, reject,
}

pub record Notification : Type 0 where
  pub version : Str
  pub source : Str
  pub surface : Str
  pub runtime : Str
  pub event : Str
  pub status : Str
  pub occurred_at : ℕ
  pub session_id : Str
  pub task_id : Str
  pub turn_id : Str
  pub idempotency_key : Str
  pub priority : Str
  pub privacy_level : Str
  pub project : Str
  pub cwd : Str
  pub summary : Str

abbrev pub known_events : List Str
known_events =
    codes "task.completed"
    ∷ codes "task.failed"
    ∷ codes "agent.waiting"
    ∷ codes "approval.required"
    ∷ codes "session.interrupted"
    ∷ codes "subagent.completed"
    ∷ codes "agent.info"
    ∷ []

abbrev pub allowed_sources : List Str
allowed_sources =
    codes "codex"
    ∷ codes "claude"
    ∷ codes "opencode"
    ∷ codes "kimi"
    ∷ codes "qoder"
    ∷ codes "qoder-work"
    ∷ codes "zcode"
    ∷ codes "workbuddy"
    ∷ codes "trae"
    ∷ codes "kimi-work"
    ∷ []

abbrev pub allowed_surfaces : List Str
allowed_surfaces =
    codes "cli"
    ∷ codes "tui"
    ∷ codes "ide"
    ∷ codes "desktop"
    ∷ codes "jetbrains"
    ∷ codes "cloud"
    ∷ []

abbrev pub allowed_runtimes : List Str
allowed_runtimes =
    codes "host" ∷ codes "wsl" ∷ codes "container" ∷ codes "ssh" ∷ codes "vendor-cloud" ∷ []

abbrev pub allowed_statuses : List Str
allowed_statuses = codes "completed" ∷ codes "failed" ∷ codes "attention" ∷ codes "info" ∷ []

abbrev pub allowed_priorities : List Str
allowed_priorities = codes "normal" ∷ codes "high" ∷ codes "urgent" ∷ []

abbrev pub allowed_privacy : List Str
allowed_privacy = codes "metadata-only" ∷ codes "summary" ∷ codes "full" ∷ []

-- The messages of `Validate`, one constructor to a return.
pub data Invalid : Type 0 where
  version source surface runtime event status occurred_at idempotency_key priority : Invalid
  privacy_level summary_length metadata_only : Invalid

-- Whether `Validate` finds no fault in the texts that a metadata-only notification must not carry.
unfoldable pub leaks_metadata : Notification → Bool
unfolding str_eq
leaks_metadata n =
    str_eq n.privacy_level (codes "metadata-only")
    && (not (is_empty n.cwd) || not (is_empty n.summary))

unfoldable pub validate : Notification → Result Invalid (Unit {0})
validate n = do
  require (str_eq n.version (codes "1")) Invalid.version
  require (contains allowed_sources n.source) Invalid.source
  require (contains allowed_surfaces n.surface) Invalid.surface
  require (contains allowed_runtimes n.runtime) Invalid.runtime
  require (contains known_events n.event) Invalid.event
  require (contains allowed_statuses n.status) Invalid.status
  reject (n.occurred_at == 0) Invalid.occurred_at
  reject (is_empty n.idempotency_key) Invalid.idempotency_key
  require (contains allowed_priorities n.priority) Invalid.priority
  require (contains allowed_privacy n.privacy_level) Invalid.privacy_level
  reject (ltb 300 (length n.summary)) Invalid.summary_length
  reject (leaks_metadata n) Invalid.metadata_only
