-- ===== src/Event/Total.antt =====
-- core/internal/event/event.go: when `Normalize` returns a notification, and what it carries.
use agentbell.Common.{
  ℕ, Bool, true, false, ◌&&◌, ◌||◌, List, [], ◌∷◌, Option, some, Str, codes, str_eq, is_empty, take,
  ◌++◌, ◌⊎◌, contains, ◌==◌, if◌then◌else◌, ok, ◌≡◌, refl, ap, ◌∙◌, subst, All, Bool-cases, arith,
  inl, inr,
}
use agentbell.Event.{
  Notification, validate, leaks_metadata, known_events, allowed_statuses, allowed_sources,
  allowed_surfaces, allowed_runtimes, allowed_priorities, allowed_privacy,
}
use agentbell.Event.Normalize.{
  session_of, turn_of, opaque_identifier, RawEvent, raw_name, occurrence, built, normalize, checked,
}
use agentbell.Event.Names.{
  adapter_sources, find_source, source_for_adapter, canonical_of, canonical_event, equal_fold,
  completions, failures, approvals, to_lower, notification_event,
}

find_source-All :
    (m : List (Str × Str)) (id s : Str)
    → All (λ kv. contains allowed_sources kv.1 ≡ true) m
    → find_source m id ≡ some s
    → contains allowed_sources s ≡ true
unfolding find_source
find_source-All [] id s a h = cc
find_source-All ((k, v) ∷ m) id s a h = elim (Bool-cases (str_eq k id)) [
  | inl e ↦ subst (λ x. contains allowed_sources x ≡ true) (found e) a.0
  | inr e ↦ find_source-All m id s a.1 (later e)
]
  where
    found : str_eq k id ≡ true → v ≡ s
    found e = ground arith

    later : str_eq k id ≡ false → find_source m id ≡ some s
    later e = ground arith

-- Every source of the map is an allowed one.
source-allowed : (id s : Str) → source_for_adapter id ≡ some s → contains allowed_sources s ≡ true
unfolding source_for_adapter contains str_eq
source-allowed id s h =
    find_source-All adapter_sources id s
      (
        refl,
        (refl, (refl, (refl, (refl, (refl, (refl, (refl, (refl, (refl, (refl, (refl, tt))))))))))),
      )
      h

-- A pair of a known event and an allowed status.
record IsKnown (c : Str × Str) : Type 0 where
  event : contains known_events c.0 ≡ true
  status : contains allowed_statuses c.1 ≡ true

known :
    (e s : Str)
    → contains known_events e ≡ true
    → contains allowed_statuses s ≡ true
    → IsKnown (e, s)
known e s p q = record { event = p; status = q }

if-IsKnown : (b : Bool) (x y : Str × Str) → IsKnown x → IsKnown y → IsKnown (if b then x else y)
if-IsKnown true x y p q = p
if-IsKnown false x y p q = q

-- One case of a switch.
case_IsKnown :
    (b : Bool) (e s : Str) (rest : Str × Str)
    → contains known_events e ≡ true
    → contains allowed_statuses s ≡ true
    → IsKnown rest
    → IsKnown (if b then (e, s) else rest)
case_IsKnown true e s rest p q r = known e s p q
case_IsKnown false e s rest p q r = r

notification_event-IsKnown : (adapter kind : Str) → IsKnown (notification_event adapter kind)
unfolding notification_event contains str_eq
notification_event-IsKnown adapter kind =
    case_IsKnown (str_eq adapter (codes "trae") && equal_fold kind (codes "idle_prompt"))
      (codes "task.completed") (codes "completed") _ refl refl
      (case_IsKnown (str_eq adapter (codes "trae") && equal_fold kind (codes "permission_prompt"))
        (codes "approval.required") (codes "attention") _ refl refl
        (case_IsKnown
          (equal_fold kind (codes "idle_prompt") || equal_fold kind (codes "agent_needs_input"))
          (codes "agent.waiting") (codes "attention") _ refl refl
          (known (codes "agent.info") (codes "info") refl refl)))

canonical_of-IsKnown : (adapter name kind : Str) → IsKnown (canonical_of adapter name kind)
unfolding canonical_of contains str_eq
canonical_of-IsKnown adapter name kind =
    case_IsKnown (contains completions name) (codes "task.completed") (codes "completed") _ refl
      refl
      (case_IsKnown (contains failures name) (codes "task.failed") (codes "failed") _ refl refl (
        case_IsKnown (contains approvals name) (codes "approval.required") (codes "attention") _
          refl refl
          (case_IsKnown (contains (codes "interrupt" ∷ codes "session.interrupted" ∷ []) name)
            (codes "session.interrupted") (codes "attention") _ refl refl
            (case_IsKnown (contains (codes "subagentstop" ∷ codes "subagent.completed" ∷ []) name)
              (codes "subagent.completed") (codes "completed") _ refl refl
              (case_IsKnown (str_eq name (codes "agent.waiting")) (codes "agent.waiting")
                (codes "attention") _ refl refl
                (if-IsKnown (str_eq name (codes "notification")) _ _
                  (notification_event-IsKnown adapter kind)
                  (known (codes "agent.info") (codes "info") refl refl)))))))

canonical_event-IsKnown : (adapter name kind : Str) → IsKnown (canonical_event adapter name kind)
unfolding canonical_event
canonical_event-IsKnown adapter name kind = canonical_of-IsKnown adapter (to_lower name) kind

normal_allowed : contains allowed_priorities (codes "normal") ≡ true
unfolding contains str_eq
normal_allowed = refl

metadata_allowed : contains allowed_privacy (codes "metadata-only") ≡ true
unfolding contains str_eq
metadata_allowed = refl

module _ (decode : Str → Option RawEvent) (parse_time : Str → Option ℕ) (format_time : ℕ → Str)
    (sha256_hex : Str → Str) where
  built-valid :
      (source surface runtime raw : Str) (p : RawEvent) (c : Str × Str) (at : ℕ)
      → contains allowed_sources source ≡ true
      → contains allowed_surfaces surface ≡ true
      → contains allowed_runtimes runtime ≡ true
      → IsKnown c
      → (at == 0) ≡ false
      → validate (built decode parse_time format_time sha256_hex source surface runtime p raw c at)
        ≡ ok tt
  unfolding validate built leaks_metadata
  built-valid source surface runtime raw p c at so su ru k t =
      rw (so, su, ru, k.event, k.status, t, normal_allowed, metadata_allowed) refl

  normalize-built :
      (adapter surface runtime raw source : Str) (now at : ℕ) (p : RawEvent)
      → is_empty raw ≡ false
      → decode raw ≡ some p
      → source_for_adapter adapter ≡ some source
      → occurrence decode parse_time format_time sha256_hex p now ≡ ok at
      → let n =
          built decode parse_time format_time sha256_hex source surface runtime p raw
            (canonical_event adapter (raw_name p) p.notification_type)
            at in
        normalize decode parse_time format_time sha256_hex adapter surface runtime raw now
        ≡ checked n (validate n)
  unfolding normalize
  normalize-built adapter surface runtime raw source now at p e d s o = rw (e, d, s, o) refl

  -- What may be told of an id: nothing of a missing one, and otherwise a part of its hash.
  abbrev pub IsHashed : Str → Str → Type 0
  IsHashed value hidden =
      ((value ≡ []) × (hidden ≡ []))
      ⊎ ((is_empty value ≡ false) × (hidden ≡ codes "sha256:" ++ take 16 (sha256_hex value)))

  hashed :
      (value : Str)
      → IsHashed value (opaque_identifier decode parse_time format_time sha256_hex value)
  unfolding opaque_identifier
  hashed [] = inl (refl, refl)
  hashed (c ∷ value) = inr (refl, refl)

  -- A hook's JSON that decodes, from an adapter of the map, on an allowed surface and runtime, with a
  -- time stamp that can be read and is not the zero time, is always normalised: no event is rejected
  -- for its name, whatever that is. The notification passes its own validation, and it carries
  -- metadata only: no working directory, no summary, and the ids of the session, the task and the
  -- turn, as well as the key, only as SHA-256 hashes, of which 16 digits are kept of an id.
  pub normalize_lem :
      (adapter surface runtime raw source : Str) (now at : ℕ) (p : RawEvent)
      → is_empty raw ≡ false
      → decode raw ≡ some p
      → source_for_adapter adapter ≡ some source
      → contains allowed_surfaces surface ≡ true
      → contains allowed_runtimes runtime ≡ true
      → occurrence decode parse_time format_time sha256_hex p now ≡ ok at
      → (at == 0) ≡ false
      → (n : Notification) × (normalize decode parse_time format_time sha256_hex adapter surface
            runtime raw now
          ≡ ok n)
        × (validate n ≡ ok tt)
        × (n.source ≡ source)
        × (n.occurred_at ≡ at)
        × (n.privacy_level ≡ codes "metadata-only")
        × (n.cwd ≡ [])
        × (n.summary ≡ [])
        × IsHashed (session_of p) n.session_id
        × IsHashed p.task_id n.task_id
        × IsHashed (turn_of p) n.turn_id
        × ((text : Str) × (n.idempotency_key ≡ codes "sha256:" ++ sha256_hex text))
  unfolding built
  normalize_lem adapter surface runtime raw source now at p e d s su ru o t =
      let c = canonical_event adapter (raw_name p) p.notification_type in
      let n = built decode parse_time format_time sha256_hex source surface runtime p raw c at in
      let v : validate n ≡ ok tt =
        built-valid source surface runtime raw p c at (source-allowed adapter source s) su ru
          (canonical_event-IsKnown adapter (raw_name p) p.notification_type) t in
      (
        n,
        normalize-built adapter surface runtime raw source now at p e d s o ∙ ap (checked n) v,
        v,
        refl,
        refl,
        refl,
        refl,
        refl,
        hashed (session_of p),
        hashed p.task_id,
        hashed (turn_of p),
        (_, refl),
      )
