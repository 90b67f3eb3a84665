-- ===== src/Policy/Evaluate.antt =====
-- core/internal/policy/policy.go: `Evaluate`, which applies the first policy that matches.
use agentbell.Common.{
  Bool, true, false, ◌&&◌, ◌||◌, List, [], ◌∷◌, map, Option, none, some, Str, is_empty, length,
  contains, str_eq, ltb, ◌==◌, if◌then◌else◌, Result, ok, err, ◌>>◌, require, reject,
}
use agentbell.Event
use agentbell.Event.{Notification}
use agentbell.Settings.{Policy, PolicyMatch, EventSwitches, Settings}
use agentbell.Settings.Validate
use agentbell.Settings.Validate.{or_empty, check_distinct}

pub record Defaults : Type 0 where
  pub channel_ids : List Str
  pub template_id : Str

pub record Decision : Type 0 where
  pub enabled : Bool
  pub channel_ids : List Str
  pub template_id : Str
  pub matched : Bool
  pub policy_id : Str

pub data Error : Type 0 where
  settings : Validate.Invalid → Error
  notification : Event.Invalid → Error
  no_default_channel default_channel_empty duplicate_default_channel : Error
  no_default_template unknown_default_template : Error

-- An empty selector is a wildcard.
unfoldable pub matches_string : List Str → Str → Bool
matches_string candidates value = length candidates == 0 || contains candidates value

unfoldable pub matches : PolicyMatch → Notification → Bool
unfolding matches_string
matches m n =
    matches_string m.events n.event
    && (matches_string m.sources n.source
        && (matches_string m.surfaces n.surface
            && (matches_string m.runtimes n.runtime
                && (matches_string m.priorities n.priority
                    && matches_string m.projects n.project))))

unfoldable pub validate_defaults : Settings → Defaults → Result Error (Unit {0})
validate_defaults s d = do
  reject (length d.channel_ids == 0) Error.no_default_channel
  check_distinct (λ v. reject (is_empty v) Error.default_channel_empty)
      Error.duplicate_default_channel [] d.channel_ids
  reject (is_empty d.template_id) Error.no_default_template
  require (contains (map (λ t. t.id) s.templates) d.template_id) Error.unknown_default_template

-- `settings.Events[name]`: a missing key reads as false.
unfoldable pub switch : EventSwitches → Str → Bool
switch [] name = false
switch ((j, b) ∷ m) name = if str_eq j name then b else switch m name

-- What applies where no policy matches.
unfoldable pub default_decision : Settings → Notification → Defaults → Decision
unfolding switch
default_decision s n d = record {
  enabled = switch s.events n.event;
  channel_ids = d.channel_ids;
  template_id = d.template_id;
  matched = false;
  policy_id = [];
}

abbrev pub or_else {ℓ} : {A : Type ℓ} → Option A → A → A
or_else none a = a
or_else (some b) a = b

-- The assignments of the loop for a policy that matches: an omitted field is inherited.
unfoldable pub apply_policy : Policy → Decision → Decision
apply_policy p d = record {
  matched = true;
  policy_id = p.id;
  enabled = or_else p.action.enabled d.enabled;
  channel_ids =
      if ltb 0 (length (or_empty p.action.channel_ids))
      then or_empty p.action.channel_ids
      else d.channel_ids;
  template_id = if is_empty p.action.template_id then d.template_id else p.action.template_id;
}

-- The loop over the policies, with its `break`.
unfoldable pub apply_first : List Policy → Notification → Decision → Decision
unfolding matches apply_policy
apply_first [] n d = d
apply_first (p ∷ ps) n d =
    let rest = apply_first ps n d in if matches p.match n then apply_policy p d else rest

abbrev pub policies_of : Settings → List Policy
policies_of s = elim s.policies [ none ↦ [] | some ps ↦ ps ]

abbrev pub map_error {ℓ} : {E F : Type 0} {A : Type ℓ} → (E → F) → Result E A → Result F A
map_error f (ok a) = ok a
map_error f (err e) = err (f e)

unfoldable pub evaluate : (Str → Bool) → Settings → Notification → Defaults → Result Error Decision
evaluate zone_exists s n d = do
  map_error Error.settings (Validate.validate zone_exists s)
  map_error Error.notification (Event.validate n)
  validate_defaults s d
  ok (apply_first (policies_of s) n (default_decision s n d))
