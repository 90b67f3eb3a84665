-- ===== src/Service/Targets/Deliverable.antt =====
-- core/internal/service/processor.go: the targets that a decision of the policies resolves to.
use agentbell.Common.{
  suc, ◌<◌, length, ◌>>=◌, Bool, true, List, [], ◌∷◌, Option, none, some, Str, str_eq, contains,
  map, All, ok, bind-ok, ok-injective, Bool-cases, ◌≡◌, refl, sym, ap, ◌∙◌, subst, inl, inr, arith,
}
use agentbell.Event.{Notification}
use agentbell.Settings.{Settings, Template}
use agentbell.Policy.{Defaults, Decision, evaluate}
use agentbell.Policy.{evaluate-routable}
use agentbell.Queue.Types.{DeliveryTarget}
use agentbell.Service.Targets.{
  Channel, Missing, channel_by_id, template_by_id, found_or, targets_of, resolve_decision_targets,
}

-- A target of a template, whose channel is configured.
pub record IsDeliverable (channels : List Channel) (template : Str) (t : DeliveryTarget)
    : Type 0 where
  pub channel : Channel
  pub configured : channel_by_id channels t.channel_id ≡ some channel
  pub template_of : t.template_id ≡ template

found_or-ok : {A : Type 0} (o : Option A) (e : Missing) (a : A) → found_or o e ≡ ok a → o ≡ some a
found_or-ok none e a h = absurd (cc)
found_or-ok (some b) e a h = cc

targets_of-IsDeliverable :
    (channels : List Channel) (tid : Str) (ids : List Str) (ts : List DeliveryTarget)
    → targets_of channels tid ids ≡ ok ts
    → (map (λ t. t.channel_id) ts ≡ ids) × All (IsDeliverable channels tid) ts
unfolding targets_of
targets_of-IsDeliverable channels tid [] ts h =
    subst (λ ts. (map (λ t. t.channel_id) ts ≡ []) × All (IsDeliverable channels tid) ts)
      (ok-injective h) (refl, tt)
targets_of-IsDeliverable channels tid (id ∷ ids) ts h =
    let (c, found, k) = bind-ok (found_or (channel_by_id channels id) (Missing.channel id)) _ h in
    let (rest, more, k₂) = bind-ok (targets_of channels tid ids) _ k in
    let (names, all) = targets_of-IsDeliverable channels tid ids rest more in
    subst (λ ts. (map (λ t. t.channel_id) ts ≡ id ∷ ids) × All (IsDeliverable channels tid) ts)
      (ok-injective k₂)
      (
        ap (λ l. id ∷ l) names,
        (
          record {
            channel = c;
            configured = found_or-ok (channel_by_id channels id) _ c found;
            template_of = refl;
          },
          all,
        ),
      )

-- The lookup finds a template whose id is in the list of ids.
template_by_id-found :
    (ts : List Template) (id : Str)
    → contains (map (λ t. t.id) ts) id ≡ true
    → (t : Template) × (template_by_id ts id ≡ some t)
unfolding template_by_id contains
template_by_id-found [] id h = absurd (ground (arith, h))
template_by_id-found (t ∷ ts) id h = elim (Bool-cases (str_eq t.id id)) [
  | inl e ↦ (t, rw e)
  | inr e ↦ let (u, f) = template_by_id-found ts id (rw e at h) in (u, rw e f)
]

-- For a decision that `Evaluate` returns, the template is always found; and where the channels are found
-- as well, there is a target to each channel of the decision in their order, at least one, each of
-- the decision's template and of a channel that is configured.
pub resolve_decision_targets-IsDeliverable :
    (zone_exists : Str → Bool) (s : Settings) (n : Notification) (d : Defaults) (r : Decision)
    (channels : List Channel)
    → evaluate zone_exists s n d ≡ ok r
    → (resolve_decision_targets channels s r ≡ targets_of channels r.template_id r.channel_ids)
      × ((ts : List DeliveryTarget)
          → resolve_decision_targets channels s r ≡ ok ts
          → (map (λ t. t.channel_id) ts ≡ r.channel_ids)
            × (0 < length ts)
            × All (IsDeliverable channels r.template_id) ts)
unfolding resolve_decision_targets
resolve_decision_targets-IsDeliverable zone_exists s n d r channels h =
    let (some_channel, known) = evaluate-routable zone_exists s n d r h in
    let (t, found) = template_by_id-found s.templates r.template_id known in
    let same =
      ap
        (λ o. found_or o (Missing.template r.template_id) >>= λ _.
          targets_of channels r.template_id r.channel_ids)
        found in
    (
      same,
      λ ts k.
          let (names, all) =
            targets_of-IsDeliverable channels r.template_id r.channel_ids ts (sym same ∙ k) in
          (names, subst (λ l. 0 < l) (ap length (sym names) ∙ length-map ts) some_channel, all),
    )
  where
    length-map : (ts : List DeliveryTarget) → length (map (λ t. t.channel_id) ts) ≡ length ts
    length-map [] = refl
    length-map (t ∷ ts) = ap suc (length-map ts)
