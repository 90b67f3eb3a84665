-- ===== src/Event/Names.antt =====
-- core/internal/event/event.go: `sourceForAdapter` and `canonicalEvent`, on the bytes of a name.
use agentbell.Common.{
  ℕ, ◌+◌, Bool, true, false, ◌&&◌, ◌||◌, List, [], ◌∷◌, Option, none, some, Str, codes, str_eq,
  contains, leb, ◌==◌, if◌then◌else◌,
}

-- The map of `sourceForAdapter`.
abbrev pub adapter_sources : List (Str × Str)
adapter_sources =
    (codes "codex", codes "codex")
    ∷ (codes "claude", codes "claude")
    ∷ (codes "claude-code", codes "claude")
    ∷ (codes "opencode", codes "opencode")
    ∷ (codes "kimi", codes "kimi")
    ∷ (codes "kimi-code", codes "kimi")
    ∷ (codes "qoder", codes "qoder")
    ∷ (codes "qoder-work", codes "qoder-work")
    ∷ (codes "zcode", codes "zcode")
    ∷ (codes "workbuddy", codes "workbuddy")
    ∷ (codes "trae", codes "trae")
    ∷ (codes "kimi-work", codes "kimi-work")
    ∷ []

unfoldable pub find_source : List (Str × Str) → Str → Option Str
find_source [] id = none
find_source ((k, v) ∷ m) id = let rest = find_source m id in if str_eq k id then some v else rest

unfoldable pub source_for_adapter : Str → Option Str
unfolding find_source
source_for_adapter id = find_source adapter_sources id

-- A letter of ASCII in lower case.
abbrev pub lower : ℕ → ℕ
lower c = if leb b'A' c && leb c b'Z' then c + 32 else c

-- The encodings of U+0130, U+017F and U+212A.
abbrev pub is_dotted_i : ℕ → ℕ → Bool
is_dotted_i a b = a == 196 && b == 176

abbrev pub is_long_s : ℕ → ℕ → Bool
is_long_s a b = a == 197 && b == 191

abbrev pub is_kelvin : ℕ → ℕ → ℕ → Bool
is_kelvin a b c = a == 226 && (b == 132 && c == 170)

-- `strings.ToLower`, up to letters outside ASCII that it leaves outside: of these, only U+0130 and
-- U+212A have an ASCII letter as their lower case.
unfoldable pub to_lower : Str → Str
to_lower [] = []
to_lower (a ∷ []) = lower a ∷ []
to_lower (a ∷ b ∷ []) = elim (is_dotted_i a b) [
  | true ↦ b'i' ∷ []
  | false ↦ lower a ∷ to_lower (b ∷ [])
]
to_lower (a ∷ b ∷ c ∷ s) = elim (is_dotted_i a b) [
  | true ↦ b'i' ∷ to_lower (c ∷ s)
  | false ↦ elim (is_kelvin a b c) [
    | true ↦ b'k' ∷ to_lower s
    | false ↦ lower a ∷ to_lower (b ∷ c ∷ s)
  ]
]

-- A text as `strings.EqualFold` compares it with one of ASCII: U+017F folds to `s`, U+212A to `k`.
unfoldable pub fold : Str → Str
fold [] = []
fold (a ∷ []) = lower a ∷ []
fold (a ∷ b ∷ []) = elim (is_long_s a b) [ true ↦ b's' ∷ [] | false ↦ lower a ∷ fold (b ∷ []) ]
fold (a ∷ b ∷ c ∷ s) = elim (is_long_s a b) [
  | true ↦ b's' ∷ fold (c ∷ s)
  | false ↦ elim (is_kelvin a b c) [ true ↦ b'k' ∷ fold s | false ↦ lower a ∷ fold (b ∷ c ∷ s) ]
]

-- `strings.EqualFold` with a text of ASCII.
unfoldable pub equal_fold : Str → Str → Bool
unfolding fold
equal_fold s t = str_eq (fold s) (fold t)

abbrev pub completions : List Str
completions = codes "stop" ∷ codes "completed" ∷ codes "session.idle" ∷ codes "task.completed" ∷ []

abbrev pub failures : List Str
failures =
    codes "stopfailure"
    ∷ codes "posttoolusefailure"
    ∷ codes "session.error"
    ∷ codes "failure"
    ∷ codes "error"
    ∷ codes "task.failed"
    ∷ []

abbrev pub approvals : List Str
approvals = codes "permissionrequest" ∷ codes "permission.asked" ∷ codes "approval.required" ∷ []

abbrev pub info : Str × Str
info = (codes "agent.info", codes "info")

-- The case `notification` of the switch.
unfoldable pub notification_event : Str → Str → Str × Str
unfolding equal_fold
notification_event adapter kind =
    if str_eq adapter (codes "trae") && equal_fold kind (codes "idle_prompt")
    then (codes "task.completed", codes "completed")
    else if str_eq adapter (codes "trae") && equal_fold kind (codes "permission_prompt")
    then (codes "approval.required", codes "attention")
    else if equal_fold kind (codes "idle_prompt") || equal_fold kind (codes "agent_needs_input")
    then (codes "agent.waiting", codes "attention")
    else info

-- The switch of `canonicalEvent` on the name in lower case.
unfoldable pub canonical_of : Str → Str → Str → Str × Str
unfolding notification_event contains
canonical_of adapter name kind =
    if contains completions name
    then (codes "task.completed", codes "completed")
    else if contains failures name
    then (codes "task.failed", codes "failed")
    else if contains approvals name
    then (codes "approval.required", codes "attention")
    else if contains (codes "interrupt" ∷ codes "session.interrupted" ∷ []) name
    then (codes "session.interrupted", codes "attention")
    else if contains (codes "subagentstop" ∷ codes "subagent.completed" ∷ []) name
    then (codes "subagent.completed", codes "completed")
    else if str_eq name (codes "agent.waiting")
    then (codes "agent.waiting", codes "attention")
    else if str_eq name (codes "notification")
    then notification_event adapter kind
    else info

unfoldable pub canonical_event : Str → Str → Str → Str × Str
unfolding canonical_of to_lower
canonical_event adapter name kind = canonical_of adapter (to_lower name) kind
