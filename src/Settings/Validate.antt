-- ===== src/Settings/Validate.antt =====
-- core/internal/settings/settings.go: `Validate` and the checks that it calls.
use agentbell.Common.{
  ◌*◌, Bool, true, false, ◌&&◌, ◌||◌, not, List, [], ◌∷◌, map, Option, none, some, Str, codes,
  is_empty, length, str_eq, contains, ltb, ◌==◌, if◌then◌else◌, Result, ok, err, ◌>>◌, require,
  reject,
}
use agentbell.Event.{
  known_events, allowed_sources, allowed_surfaces, allowed_runtimes, allowed_priorities,
}
use agentbell.Settings.{
  Template, QuietInterval, QuietHours, PolicyMatch, PolicyAction, Policy, EventSwitches, Settings,
}
use agentbell.Settings.Text.{
  matches_identifier, matches_semver, placeholders, has_double, has_byte, rune_count, is_blank,
  clock_parts,
}

pub data Invalid : Type 0 where
  version min_core_version unknown_event missing_event : Invalid
  template_id template_body template_length placeholder malformed_placeholder : Invalid
  no_templates duplicate_template default_template : Invalid
  timezone action no_intervals no_days day duplicate_day clock equal_clocks : Invalid
  policies_nil too_many_policies policy_id duplicate_policy : Invalid
  selector duplicate_selector projects project_blank project_length duplicate_project : Invalid
  empty_action empty_channels channel_empty channel_length duplicate_channel : Invalid
  policy_template : Invalid

abbrev pub known_days : List Str
known_days =
    codes "mon"
    ∷ codes "tue"
    ∷ codes "wed"
    ∷ codes "thu"
    ∷ codes "fri"
    ∷ codes "sat"
    ∷ codes "sun"
    ∷ []

abbrev pub known_placeholders : List Str
known_placeholders =
    codes "sourceName"
    ∷ codes "event"
    ∷ codes "status"
    ∷ codes "project"
    ∷ codes "priority"
    ∷ codes "occurredAt"
    ∷ codes "runtime"
    ∷ codes "surface"
    ∷ []

-- The loops with a map of what was seen: each value passes a check, and none occurs twice.
unfoldable pub check_distinct {ℓ} :
    {E : Type ℓ} → (Str → Result E (Unit {0})) → E → List Str → List Str → Result E (Unit {0})
check_distinct check duplicate seen [] = ok tt
check_distinct check duplicate seen (v ∷ vs) = do
  check v
  reject (contains seen v) duplicate
  check_distinct check duplicate (v ∷ seen) vs

-- `validateEventList` and `validateSelector`.
unfoldable pub validate_selector : List Str → List Str → Result Invalid (Unit {0})
unfolding check_distinct
validate_selector allowed values =
    check_distinct (λ v. require (contains allowed v) Invalid.selector) Invalid.duplicate_selector
      [] values

unfoldable pub validate_projects : List Str → Result Invalid (Unit {0})
unfolding check_distinct
validate_projects names = do
  reject (ltb 256 (length names)) Invalid.projects
  check_distinct
      (λ v. do
        reject (is_blank v) Invalid.project_blank
        reject (ltb 120 (rune_count v)) Invalid.project_length)
      Invalid.duplicate_project [] names

unfoldable pub validate_clock_time : Str → Result Invalid (Unit {0})
validate_clock_time value = elim (clock_parts value) [
  | none ↦ err Invalid.clock
  | some (hour, minute) ↦ reject (ltb 23 hour || ltb 59 minute) Invalid.clock
]

unfoldable pub validate_interval : QuietInterval → Result Invalid (Unit {0})
unfolding check_distinct validate_clock_time
validate_interval i = do
  reject (length i.days == 0) Invalid.no_days
  check_distinct (λ v. require (contains known_days v) Invalid.day) Invalid.duplicate_day [] i.days
  validate_clock_time i.start
  validate_clock_time i.end
  reject (str_eq i.start i.end) Invalid.equal_clocks

unfoldable pub validate_intervals : List QuietInterval → Result Invalid (Unit {0})
unfolding validate_interval
validate_intervals [] = ok tt
validate_intervals (i ∷ is) = do validate_interval i; validate_intervals is

unfoldable pub has_key : EventSwitches → Str → Bool
has_key [] k = false
has_key ((j, b) ∷ m) k = str_eq j k || has_key m k

unfoldable pub all_known : EventSwitches → Bool
all_known [] = true
all_known ((j, b) ∷ m) = contains known_events j && all_known m

unfoldable pub all_present : List Str → EventSwitches → Bool
unfolding has_key
all_present [] m = true
all_present (k ∷ ks) m = has_key m k && all_present ks m

-- `EventSwitches.Validate`.
unfoldable pub validate_switches : EventSwitches → Result Invalid (Unit {0})
unfolding all_known all_present
validate_switches events = do
  require (all_known events) Invalid.unknown_event
  require (all_present known_events events) Invalid.missing_event

-- Whether the loop over the placeholders of a template meets an unknown one.
unfoldable pub all_placeholders_known : List Str → Bool
all_placeholders_known [] = true
all_placeholders_known (n ∷ ns) = contains known_placeholders n && all_placeholders_known ns

unfoldable pub validate_template : Template → Result Invalid (Unit {0})
unfolding all_placeholders_known placeholders
validate_template t = do
  require (matches_identifier t.id) Invalid.template_id
  reject (is_empty t.body) Invalid.template_body
  reject (ltb (4 * 1024) (length t.body)) Invalid.template_length
  let found = placeholders (length t.body) t.body
  require (all_placeholders_known found.0) Invalid.placeholder
  reject (has_double b'{' found.1 || has_double b'}' found.1) Invalid.malformed_placeholder

-- The loop over the templates, with the ids that were seen.
unfoldable pub validate_templates : List Str → List Template → Result Invalid (Unit {0})
unfolding validate_template
validate_templates seen [] = ok tt
validate_templates seen (t ∷ ts) = do
  validate_template t
  reject (contains seen t.id) Invalid.duplicate_template
  validate_templates (t.id ∷ seen) ts

abbrev pub or_empty : Option (List Str) → List Str
or_empty none = []
or_empty (some xs) = xs

abbrev pub is_none {ℓ} : {A : Type ℓ} → Option A → Bool
is_none none = true
is_none (some a) = false

-- The selectors of `Policy.Validate`.
unfoldable pub validate_match : PolicyMatch → Result Invalid (Unit {0})
validate_match m = do
  validate_selector known_events m.events
  validate_selector allowed_sources m.sources
  validate_selector allowed_surfaces m.surfaces
  validate_selector allowed_runtimes m.runtimes
  validate_selector allowed_priorities m.priorities
  validate_projects m.projects

-- What `Policy.Validate` asks of the action.
unfoldable pub validate_action : List Str → PolicyAction → Result Invalid (Unit {0})
validate_action template_ids a = do
  reject (is_none a.enabled && (length (or_empty a.channel_ids) == 0 && is_empty a.template_id))
      Invalid.empty_action
  reject (not (is_none a.channel_ids) && length (or_empty a.channel_ids) == 0)
      Invalid.empty_channels
  check_distinct
      (λ v. do
        reject (is_empty v) Invalid.channel_empty
        reject (ltb 64 (rune_count v)) Invalid.channel_length)
      Invalid.duplicate_channel [] (or_empty a.channel_ids)
  reject (not (is_empty a.template_id) && not (contains template_ids a.template_id))
      Invalid.policy_template

-- `Policy.Validate`.
unfoldable pub validate_policy : List Str → Policy → Result Invalid (Unit {0})
validate_policy template_ids p = do
  require (matches_identifier p.id) Invalid.policy_id
  validate_match p.match
  validate_action template_ids p.action

-- The loop over the policies, with the ids that were seen.
unfoldable pub validate_policies : List Str → List Str → List Policy → Result Invalid (Unit {0})
unfolding validate_policy
validate_policies template_ids seen [] = ok tt
validate_policies template_ids seen (p ∷ ps) = do
  validate_policy template_ids p
  reject (contains seen p.id) Invalid.duplicate_policy
  validate_policies template_ids (p.id ∷ seen) ps

-- Whether `time.LoadLocation` finds a zone.
module _ (zone_exists : Str → Bool) where
  unfoldable pub validate_timezone : Str → Result Invalid (Unit {0})
  validate_timezone name = do
    reject (is_empty name) Invalid.timezone
    require (str_eq name (codes "UTC") || has_byte b'/' name) Invalid.timezone
    require (zone_exists name) Invalid.timezone

  -- `QuietHours.Validate`.
  unfoldable pub validate_quiet_hours : QuietHours → Result Invalid (Unit {0})
  unfolding validate_timezone validate_selector validate_intervals
  validate_quiet_hours q =
      let known_action = str_eq q.action (codes "defer") || str_eq q.action (codes "drop") in
      if q.enabled
      then (do
        validate_timezone q.timezone
        require known_action Invalid.action
        reject (length q.intervals == 0) Invalid.no_intervals
        validate_intervals q.intervals
        validate_selector known_events q.bypass_events)
      else (do
        if is_empty q.timezone then ok tt else validate_timezone q.timezone
        require (is_empty q.action || known_action) Invalid.action
        validate_selector known_events q.bypass_events
        validate_intervals q.intervals)

  -- The checks of `Settings.Validate` on the policies.
  abbrev pub validate_policy_list : List Template → Option (List Policy) → Result Invalid (Unit {0})
  validate_policy_list templates none = err Invalid.policies_nil
  validate_policy_list templates (some ps) = do
    reject (ltb 256 (length ps)) Invalid.too_many_policies
    validate_policies (map (λ t. t.id) templates) [] ps

  -- `Settings.Validate`.
  unfoldable pub validate : Settings → Result Invalid (Unit {0})
  unfolding validate_switches validate_templates validate_quiet_hours validate_policies
  validate s = do
    require (s.version == 1) Invalid.version
    require (matches_semver s.min_core_version) Invalid.min_core_version
    validate_switches s.events
    reject (length s.templates == 0) Invalid.no_templates
    validate_templates [] s.templates
    require (contains (map (λ t. t.id) s.templates) s.default_template) Invalid.default_template
    validate_quiet_hours s.quiet_hours
    validate_policy_list s.templates s.policies
