-- ===== src/Service/Targets.antt =====
-- core/internal/service/processor.go: the targets of a policy's decision, looked up in the configuration
-- (core/internal/config/config.go) and in the settings.
pub mod Deliverable
use agentbell.Common.{
  Bool, true, false, List, [], ◌∷◌, Option, none, some, Str, str_eq, Result, ok, err, ◌>>=◌,
  if◌then◌else◌,
}
use agentbell.Settings.{Settings, Template}
use agentbell.Policy.{Decision}
use agentbell.Queue.Types.{DeliveryTarget}

pub record Channel : Type 0 where
  pub id : Str
  pub name : Str
  pub kind : Str
  pub chat_id : Str
  pub as_identity : Str

pub data Missing : Type 0 where
  template channel : Str → Missing

unfoldable pub channel_by_id : List Channel → Str → Option Channel
unfolding str_eq
channel_by_id [] id = none
channel_by_id (c ∷ cs) id = if str_eq c.id id then some c else channel_by_id cs id

unfoldable pub template_by_id : List Template → Str → Option Template
unfolding str_eq
template_by_id [] id = none
template_by_id (t ∷ ts) id = if str_eq t.id id then some t else template_by_id ts id

abbrev pub found_or {ℓ} : {A : Type ℓ} → Option A → Missing → Result Missing A
found_or none e = err e
found_or (some a) e = ok a

-- The loop over the channels of the decision.
unfoldable pub targets_of : List Channel → Str → List Str → Result Missing (List DeliveryTarget)
unfolding channel_by_id
targets_of channels tid [] = ok []
targets_of channels tid (id ∷ ids) = do
  _ ← found_or (channel_by_id channels id) (Missing.channel id)
  rest ← targets_of channels tid ids
  ok (record { channel_id = id; template_id = tid } ∷ rest)

unfoldable pub resolve_decision_targets :
    List Channel → Settings → Decision → Result Missing (List DeliveryTarget)
unfolding template_by_id targets_of
resolve_decision_targets channels settings d = do
  _ ← found_or (template_by_id settings.templates d.template_id) (Missing.template d.template_id)
  targets_of channels d.template_id d.channel_ids
