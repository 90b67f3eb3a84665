-- ===== src/Policy/Routable.antt =====
-- core/internal/policy/policy.go: the channels and the template of a decision.
use agentbell.Common.{
  Bool, true, false, ◌&&◌, not, List, [], ◌∷◌, ◌++◌, map, Option, none, some, Str, is_empty, length,
  contains, ◌==◌, Result, ok, err, bind-ok, ok-injective, ◌>>◌, ◌≡◌, refl, inl, inr, arith, subst,
  ◌<◌, reject, require,
}
use agentbell.Event
use agentbell.Event.{Notification}
use agentbell.Settings.{Policy, PolicyAction, Settings, Template}
use agentbell.Settings.Validate
use agentbell.Settings.Validate.{
  or_empty, check_distinct, validate_policies, validate_policy, validate_policy_list,
  validate_action,
}
use agentbell.Settings.Text.{matches_semver}
use agentbell.Policy.Routing.{apply_first-cases}
use agentbell.Policy.Evaluate.{
  Defaults, Decision, Error, validate_defaults, default_decision, apply_policy, apply_first,
  policies_of, map_error, evaluate,
}

-- The rest of a block behind a step that passed.
next {ℓ} :
    {E : Type ℓ} {B : Type 0} (m : Result E (Unit {0})) (k : Result E B) {b : B}
    → (m >> k) ≡ ok b
    → k ≡ ok b
next (ok u) k h = h
next (err e) k h = cc

abbrev pub ids_of : Settings → List Str
ids_of s = map (λ t. t.id) s.templates

-- A policy that passes its validation names no template, or one that exists.
validate_policy-template :
    (ids : List Str) (p : Policy)
    → validate_policy ids p ≡ ok tt
    → (not (is_empty p.action.template_id) && not (contains ids p.action.template_id)) ≡ false
unfolding validate_policy validate_action
validate_policy-template ids p h =
    action p.action (next _ (validate_action ids p.action) (next _ _ h))
  where
    action :
        (a : PolicyAction)
        → validate_action ids a ≡ ok tt
        → (not (is_empty a.template_id) && not (contains ids a.template_id)) ≡ false
    action a k = ground arith

validate_policies-template :
    (ids seen : List Str) (before : List Policy) (p : Policy) (behind : List Policy)
    → validate_policies ids seen (before ++ (p ∷ behind)) ≡ ok tt
    → (not (is_empty p.action.template_id) && not (contains ids p.action.template_id)) ≡ false
unfolding validate_policies
validate_policies-template ids seen [] p behind h =
    let (u, v, _) = bind-ok (validate_policy ids p) _ h in validate_policy-template ids p v
validate_policies-template ids seen (q ∷ before) p behind h =
    validate_policies-template ids (q.id ∷ seen) before p behind (next _ _ (next _ _ h))

defaults-known :
    (s : Settings) (d : Defaults)
    → validate_defaults s d ≡ ok tt
    → (0 < length d.channel_ids) × (contains (ids_of s) d.template_id ≡ true)
unfolding validate_defaults
defaults-known s d h = (ground arith, ground arith)

map_error-ok :
    {E F : Type 0} (f : E → F) (m : Result E (Unit {0})) {u : Unit {0}}
    → map_error f m ≡ ok u
    → m ≡ ok tt
map_error-ok f (ok a) h = refl
map_error-ok f (err e) h = cc

apply_policy-routable :
    (ids : List Str) (p : Policy) (d : Decision)
    → (not (is_empty p.action.template_id) && not (contains ids p.action.template_id)) ≡ false
    → 0 < length d.channel_ids
    → contains ids d.template_id ≡ true
    → (0 < length (apply_policy p d).channel_ids)
      × (contains ids (apply_policy p d).template_id ≡ true)
unfolding apply_policy
apply_policy-routable ids p d t c k = (ground arith, ground arith)

module _ (zone_exists : Str → Bool) where
  policy_list-template :
      (ts : List Template) (ps : Option (List Policy)) (before : List Policy) (p : Policy)
      (behind : List Policy)
      → validate_policy_list zone_exists ts ps ≡ ok tt
      → elim ps [ none ↦ [] | some qs ↦ qs ] ≡ before ++ (p ∷ behind)
      → (not (is_empty p.action.template_id)
          && not (contains (map (λ t. t.id) ts) p.action.template_id))
        ≡ false
  policy_list-template ts none before p behind h e = cc
  policy_list-template ts (some qs) before p behind h e =
      validate_policies-template (map (λ t. t.id) ts) [] before p behind (
        subst (λ l. validate_policies (map (λ t. t.id) ts) [] l ≡ ok tt) e
          (next _ (validate_policies (map (λ t. t.id) ts) [] qs) h))

  validate-policies :
      (s : Settings)
      → Validate.validate zone_exists s ≡ ok tt
      → validate_policy_list zone_exists s.templates s.policies ≡ ok tt
  unfolding Validate.validate
  validate-policies s h =
      let k₁ = next (require (s.version == 1) Validate.version) _ h in
      let k₂ = next (require (matches_semver s.min_core_version) Validate.min_core_version) _ k₁ in
      let k₃ = next (Validate.validate_switches s.events) _ k₂ in
      let k₄ = next (reject (length s.templates == 0) Validate.no_templates) _ k₃ in
      let k₅ = next (Validate.validate_templates [] s.templates) _ k₄ in
      let k₆ =
        next (require (contains (ids_of s) s.default_template) Validate.default_template) _ k₅ in
      next (Validate.validate_quiet_hours zone_exists s.quiet_hours) _ k₆

  routable :
      (s : Settings) (n : Notification) (d : Defaults)
      → validate_policy_list zone_exists s.templates s.policies ≡ ok tt
      → 0 < length d.channel_ids
      → contains (ids_of s) d.template_id ≡ true
      → let r = apply_first (policies_of s) n (default_decision s n d) in
        (0 < length r.channel_ids) × (contains (ids_of s) r.template_id ≡ true)
  unfolding default_decision
  routable s n d k c t = elim (apply_first-cases (policies_of s) n (default_decision s n d)) [
    | inl (_, e) ↦ rw e (c, t)
    | inr (before, p, behind, at, _, _, e) ↦ rw e (
        apply_policy-routable (ids_of s) p (default_decision s n d)
          (policy_list-template s.templates s.policies before p behind k at) c t)
  ]

  -- A decision that `Evaluate` returns can be routed: it has a channel, and a template that the
  -- settings have.
  pub evaluate-routable :
      (s : Settings) (n : Notification) (d : Defaults) (r : Decision)
      → evaluate zone_exists s n d ≡ ok r
      → (0 < length r.channel_ids) × (contains (ids_of s) r.template_id ≡ true)
  unfolding evaluate
  evaluate-routable s n d r h =
      let (a, v, h₁) = bind-ok (map_error Error.settings (Validate.validate zone_exists s)) _ h in
      let (b, _, h₂) = bind-ok (map_error Error.notification (Event.validate n)) _ h₁ in
      let (c, w, h₃) = bind-ok (validate_defaults s d) _ h₂ in
      let k =
        validate-policies s (map_error-ok Error.settings (Validate.validate zone_exists s) v) in
      let (some_channel, known) = defaults-known s d w in
      subst (λ x. (0 < length x.channel_ids) × (contains (ids_of s) x.template_id ≡ true))
        (ok-injective h₃) (routable s n d k some_channel known)
