-- ===== src/Event/Normalize.antt =====
-- core/internal/event/event.go: `Normalize` and `ShouldNotify`. A hook's JSON is a parameter that
-- gives the decoded `rawEvent`, less the three texts that no function reads; parsing and printing
-- RFC 3339 and SHA-256 in hexadecimal are parameters as well.
use agentbell.Common.{
  ℕ, Bool, true, false, ◌&&◌, ◌||◌, not, List, [], ◌∷◌, ◌++◌, Option, none, some, Str, codes,
  str_eq, is_empty, take, ◌==◌, if◌then◌else◌, Result, ok, err, ◌>>=◌, ◌>>◌, reject,
}
use agentbell.Event.{Notification, Invalid, validate}
use agentbell.Event.Names.{source_for_adapter, equal_fold, canonical_event}

pub record RawEvent : Type 0 where
  pub hook_event_name : Str
  pub event : Str
  pub kind : Str
  pub approvals_reviewer : Str
  pub context_reviewer : Str
  pub cwd : Str
  pub session_id : Str
  pub thread_id : Str
  pub task_id : Str
  pub turn_id : Str
  pub prompt_id : Str
  pub tool_call_id : Str
  pub tool_use_id : Str
  pub source_id : Str
  pub idempotency_key : Str
  pub notification_type : Str
  pub occurred_at : Str
  pub timestamp : Str

pub data Error : Type 0 where
  empty_input invalid_json unsupported_adapter invalid_timestamp : Error
  notification : Invalid → Error

abbrev pub first_non_empty : Str → Str → Str
first_non_empty a b = if is_empty a then b else a

-- `HookEventName`, else `Event`, else `Type`.
abbrev pub raw_name : RawEvent → Str
raw_name p = first_non_empty (first_non_empty p.hook_event_name p.event) p.kind

-- `strings.ReplaceAll` of backslashes.
unfoldable pub slashes : Str → Str
slashes [] = []
slashes (c ∷ s) = (if c == 92 then b'/' else c) ∷ slashes s

-- One element of a path that `path.Clean` has read: the elements kept so far, the last first.
unfoldable pub clean_element : Bool → Str → List Str → List Str
clean_element rooted part kept =
    if is_empty part || str_eq part (codes ".")
    then kept
    else if not (str_eq part (codes ".."))
    then part ∷ kept
    else elim kept [
      | [] ↦ if rooted then [] else codes ".." ∷ []
      | last ∷ before ↦ if str_eq last (codes "..") then codes ".." ∷ last ∷ before else before
    ]

-- `path.Clean` over the bytes, with the element read so far in reverse.
unfoldable pub clean_elements : Bool → Str → List Str → Str → List Str
unfolding clean_element
clean_elements rooted part kept [] = clean_element rooted part kept
clean_elements rooted part kept (c ∷ s) =
    let next = clean_elements rooted [] (clean_element rooted part kept) s in
    let more = clean_elements rooted (part ++ (c ∷ [])) kept s in if c == b'/' then next else more

abbrev pub is_rooted : Str → Bool
is_rooted [] = false
is_rooted (c ∷ s) = c == b'/'

-- `path.Base(path.Clean(...))`; the results `.` and `/` become the empty project.
unfoldable pub project_of : Str → Str
unfolding clean_elements slashes
project_of cwd = elim (clean_elements (is_rooted (slashes cwd)) [] [] (slashes cwd)) [
  | [] ↦ []
  | last ∷ before ↦ last
]

-- `strings.Join` with a zero byte.
unfoldable pub join_zero : List Str → Str
join_zero [] = []
join_zero (s ∷ []) = s
join_zero (s ∷ t ∷ ss) = s ++ (0 ∷ join_zero (t ∷ ss))

abbrev pub session_of : RawEvent → Str
session_of p = first_non_empty p.session_id p.thread_id

abbrev pub turn_of : RawEvent → Str
turn_of p = first_non_empty p.turn_id p.prompt_id

abbrev pub tool_of : RawEvent → Str
tool_of p = first_non_empty p.tool_call_id p.tool_use_id

-- Whether the task, turn, tool call and source ids are all missing.
abbrev pub is_session_only : RawEvent → Bool
is_session_only p =
    is_empty p.task_id && (is_empty (turn_of p) && (is_empty (tool_of p) && is_empty p.source_id))

abbrev pub to_result : Option RawEvent → Result Error RawEvent
to_result none = err Error.invalid_json
to_result (some p) = ok p

abbrev pub to_source : Option Str → Result Error Str
to_source none = err Error.unsupported_adapter
to_source (some s) = ok s

abbrev pub checked : Notification → Result Invalid (Unit {0}) → Result Error Notification
checked n (ok _) = ok n
checked n (err e) = err (Error.notification e)

-- The gate behind the decoding, for the adapter `codex`.
abbrev pub may_notify : RawEvent → Bool
may_notify p =
    if not (equal_fold (raw_name p) (codes "PermissionRequest"))
      && not (equal_fold (raw_name p) (codes "approval.required"))
    then true
    else equal_fold (first_non_empty p.approvals_reviewer p.context_reviewer) (codes "user")

module _ (decode : Str → Option RawEvent) (parse_time : Str → Option ℕ) (format_time : ℕ → Str)
    (sha256_hex : Str → Str) where
  -- The loop over the two time stamps.
  abbrev pub parse_occurrence : Str → Result Error ℕ
  parse_occurrence text = elim (parse_time text) [
    | none ↦ err Error.invalid_timestamp
    | some t ↦ ok t
  ]

  unfoldable pub occurrence : RawEvent → ℕ → Result Error ℕ
  occurrence p now =
      if not (is_empty p.occurred_at)
      then parse_occurrence p.occurred_at
      else if not (is_empty p.timestamp)
      then parse_occurrence p.timestamp
      else ok now

  -- The text that is hashed to the key of an event.
  unfoldable pub key_material : Str → Str → Str → Str → RawEvent → Str → ℕ → Str
  unfolding join_zero
  key_material source surface runtime canonical p raw occurred_at =
      let joined = join_zero (
        source
        ∷ surface
        ∷ runtime
        ∷ session_of p
        ∷ p.task_id
        ∷ turn_of p
        ∷ tool_of p
        ∷ p.source_id
        ∷ canonical
        ∷ []) in
      if not (is_empty p.idempotency_key)
      then codes "provided" ++ (0 ∷ p.idempotency_key)
      else if is_empty (session_of p) && is_session_only p
      then joined ++ (0 ∷ raw)
      else if is_session_only p
      then joined ++ (0 ∷ codes "occurrence" ++ (0 ∷ format_time occurred_at))
      else joined

  unfoldable pub opaque_identifier : Str → Str
  opaque_identifier value =
      if is_empty value then [] else codes "sha256:" ++ take 16 (sha256_hex value)

  -- The notification that `Normalize` builds from its parts.
  unfoldable pub built : Str → Str → Str → RawEvent → Str → Str × Str → ℕ → Notification
  unfolding key_material opaque_identifier project_of
  built source surface runtime p raw canonical at = record {
    version = codes "1";
    source = source;
    surface = surface;
    runtime = runtime;
    event = canonical.0;
    status = canonical.1;
    occurred_at = at;
    session_id = opaque_identifier (session_of p);
    task_id = opaque_identifier p.task_id;
    turn_id = opaque_identifier (turn_of p);
    idempotency_key =
        codes "sha256:" ++ sha256_hex (key_material source surface runtime canonical.0 p raw at);
    priority = codes "normal";
    privacy_level = codes "metadata-only";
    project = if is_empty p.cwd then [] else project_of p.cwd;
    cwd = [];
    summary = [];
  }

  unfoldable pub normalize : Str → Str → Str → Str → ℕ → Result Error Notification
  unfolding source_for_adapter canonical_event occurrence built
  normalize adapter surface runtime raw now = do
    reject (is_empty raw) Error.empty_input
    p ← to_result (decode raw)
    source ← to_source (source_for_adapter adapter)
    at ← occurrence p now
    let n =
        built source surface runtime p raw
          (canonical_event adapter (raw_name p) p.notification_type) at
    checked n (validate n)

  unfoldable pub should_notify : Str → Str → Result Error Bool
  unfolding equal_fold
  should_notify adapter raw =
      if not (str_eq adapter (codes "codex"))
      then ok true
      else (do p ← to_result (decode raw); ok (may_notify p))
