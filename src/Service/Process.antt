-- ===== src/Service/Process.antt =====
-- core/internal/service/processor.go: `processM2`, from the policies to the sender. The texts of errors,
-- and which of them are permanent, are a parameter, as are the sender and what the policies take as
-- parameters. The errors that are joined are returned, the last one first. Errors of the queue that are
-- returned alone, and panics, end the action. The calls of the sender are logged by the call itself.
pub mod Silence
pub mod Calls
use agentbell.Common.{
  ℕ, Bool, true, false, ◌&&◌, not, List, [], ◌∷◌, ◌++◌, Option, none, some, Str, codes, str_eq, map,
  Result, ok, err, if◌then◌else◌,
}
use agentbell.Event.{Notification}
use agentbell.Settings.{Settings}
use agentbell.Policy
use agentbell.Policy.{Defaults, Decision}
use agentbell.Policy.Quiet
use agentbell.Policy.Quiet.{Location, QuietDecision}
use agentbell.Policy.Template
use agentbell.Policy.Template.{TemplateInput, RenderError, input_from_notification, render}
use agentbell.Queue.Disk.{Disk}
use agentbell.Queue.Types.{DeliveryTarget, Item}
use agentbell.Queue.Items.{ack, nack, defer}
use agentbell.Queue.Targets.{resolve_targets, ack_target}
use agentbell.Actions.{Action, pure, ◌>>=◌, ◌>>◌, zoom, inspect, modify}
use agentbell.Service.Targets.{
  Channel, Missing, channel_by_id, template_by_id, resolve_decision_targets,
}
use agentbell.Service.Resolved.{
  Failure, Cause, Service, attempt, Pace, queue_call, backoff, entries, is_nil, delivery_terminal,
  fail_target, finish_resolved_item, drop_resolved_or_new_item, fail_resolved_targets,
}

-- What can go wrong with an item or a target.
pub data Fault : Type 0 where
  policy : Policy.Error → Fault
  missing : Missing → Fault
  quiet : Quiet.Error → Fault
  sender_unavailable : Fault
  rendering : RenderError → Fault
  sending : Str → Fault
  service : Failure → Fault

pub record Config : Type 0 where
  pub default_channel : Str
  pub channels : List Channel

abbrev pub Sent : Type 0
Sent = List (Channel × Str)

abbrev pub Sender : Type 0
Sender = Sent → Channel → Str → Result Str Str

-- The sender gives a message id or an error, which may depend on the calls before, and is `none`
-- where none is configured.
pub record Environment : Type 0 where
  pub zone_exists : Str → Bool
  pub load_location : Str → Option Location
  pub urgent_bypass : Option Bool
  pub valid_utf8 : Str → Bool
  pub print_time : ℕ → Str
  pub source_name : Notification → Str
  pub sender : Option Sender
  pub cause_of : Fault → Cause
  pub pace : Pace

pub record Outcome : Type 0 where
  pub item : Item
  pub faults : List Fault

-- The directories of the queue, and the calls of the sender so far, the last one first.
pub record Session : Type 0 where
  pub disk : Disk
  pub sent : Sent

abbrev pub Process : Type 0 → Type 0
Process = Action Session Failure

-- A step that only uses the queue.
unfoldable pub on_queue : {A : Type 0} → Service A → Process A
unfolding zoom
on_queue m = zoom (λ s. s.disk) (λ k s. record s { disk = k }) (λ f. f) m

-- `sendM2`: every call is logged with its arguments.
unfoldable pub call_sender : Sender → Channel → Str → Process (Result Str Str)
unfolding inspect modify pure ◌>>=◌
call_sender send channel text = do
  sent ← inspect (λ s. s.sent)
  modify (λ s. record s { sent = (channel, text) ∷ sent })
  pure (send sent channel text)

abbrev pub quietly : Item → Outcome
quietly item = record { item = item; faults = [] }

-- A step on the item of an outcome: its error is noted.
abbrev pub note : Outcome → Result Failure Item → Outcome
note o (ok item) = record o { item = item }
note o (err f) = record o { faults = Fault.service f ∷ o.faults }

abbrev pub note_all : Outcome → Result Failure (Item × List Failure) → Outcome
note_all o (ok (item, fs)) = record o { item = item; faults = map Fault.service fs ++ o.faults }
note_all o (err f) = record o { faults = Fault.service f ∷ o.faults }

abbrev pub with_fault : Outcome → Fault → Outcome
with_fault o f = record o { faults = f ∷ o.faults }

module _ (v : Environment) (now : ℕ) where
  -- The error of a cause, joined with those of failing all targets.
  unfoldable pub fail_all : Item → Fault → Process Outcome
  unfolding fail_resolved_targets attempt on_queue pure ◌>>=◌
  fail_all item f = do
    r ← on_queue (attempt (fail_resolved_targets v.pace item (v.cause_of f) now))
    pure (note_all (with_fault (quietly item) f) r)

  unfoldable pub nack_item : Item → Fault → Process Outcome
  unfolding queue_call nack attempt on_queue pure ◌>>=◌
  nack_item item f = do
    r ← on_queue (
        attempt (
          queue_call (nack item (some (v.cause_of f).text) now (backoff v.pace)) >>= λ n. pure n.1))
    pure (note (with_fault (quietly item) f) r)

  -- `failItem`.
  unfoldable pub fail_item : Item → Fault → Process Outcome
  unfolding fail_all nack_item
  fail_item item f = elim item.ledger [ none ↦ nack_item item f | some es ↦ fail_all item f ]

  unfoldable pub failing : Outcome → DeliveryTarget → Fault → Process Outcome
  unfolding fail_target attempt on_queue pure ◌>>=◌
  failing o t f = do
    r ← on_queue (attempt (fail_target v.pace o.item t (v.cause_of f) now))
    pure (note (with_fault o f) r)

  -- What follows a call of the sender.
  unfoldable pub after_send : Outcome → DeliveryTarget → Result Str Str → Process Outcome
  unfolding failing queue_call ack_target attempt on_queue pure ◌>>=◌
  after_send o t (err e) = failing o t (Fault.sending e)
  after_send o t (ok message_id) = do
    r ← on_queue (attempt (queue_call (ack_target o.item t message_id now)))
    pure (note o r)

  unfoldable pub send_rendered :
      Sender → Channel → Outcome → DeliveryTarget → Result RenderError Str → Process Outcome
  unfolding failing after_send call_sender ◌>>=◌
  send_rendered send channel o t (err e) = failing o t (Fault.rendering e)
  send_rendered send channel o t (ok text) = call_sender send channel text >>= after_send o t

  -- One round of the loop over the targets that are ready.
  unfoldable pub deliver :
      Sender → Config → Settings → TemplateInput → Outcome → DeliveryTarget → Process Outcome
  unfolding channel_by_id template_by_id failing send_rendered render
  deliver send config settings input o t = elim (channel_by_id config.channels t.channel_id) [
    | none ↦ failing o t (Fault.missing (Missing.channel t.channel_id))
    | some channel ↦ elim (template_by_id settings.templates t.template_id) [
      | none ↦ failing o t (Fault.missing (Missing.template t.template_id))
      | some template ↦
          send_rendered send channel o t (render v.valid_utf8 v.print_time template input)
    ]
  ]

  unfoldable pub deliver_all :
      Sender → Config → Settings → TemplateInput → Outcome → List DeliveryTarget → Process Outcome
  unfolding deliver pure ◌>>=◌
  deliver_all send config settings input o [] = pure o
  deliver_all send config settings input o (t ∷ ts) =
      deliver send config settings input o t >>= λ next.
      deliver_all send config settings input next ts

  unfoldable pub finish : Outcome → Process Outcome
  unfolding finish_resolved_item attempt on_queue pure ◌>>=◌
  finish o = do r ← on_queue (attempt (finish_resolved_item v.pace o.item now)); pure (note o r)

  -- From the sender on.
  unfoldable pub send_ready : Config → Settings → Item → List DeliveryTarget → Process Outcome
  unfolding fail_all input_from_notification deliver_all finish ◌>>=◌
  send_ready config settings item ready = elim v.sender [
    | none ↦ fail_all item Fault.sender_unavailable
    | some send ↦ elim (input_from_notification item.event (v.source_name item.event)) [
      | err e ↦ fail_all item (Fault.rendering e)
      | ok input ↦ deliver_all send config settings input (quietly item) ready >>= finish
    ]
  ]

  abbrev pub is_action : QuietDecision → Str → Bool
  is_action q action = q.active && str_eq q.action action

  unfoldable pub acked : Item → Process Outcome
  unfolding queue_call ack on_queue pure ◌>>=◌
  acked item = on_queue (queue_call (ack item now)) >>= λ done. pure (quietly done)

  unfoldable pub deferred : Item → ℕ → Process Outcome
  unfolding queue_call defer on_queue pure ◌>>=◌
  deferred item next = on_queue (queue_call (defer item now next)) >>= λ done. pure (quietly done)

  unfoldable pub finished : Item → Process Outcome
  unfolding finish_resolved_item on_queue pure ◌>>=◌
  finished item = on_queue (finish_resolved_item v.pace item now) >>= λ done. pure (quietly done)

  unfoldable pub dropped : Item → Process Outcome
  unfolding drop_resolved_or_new_item on_queue pure ◌>>=◌
  dropped item = on_queue (drop_resolved_or_new_item item now) >>= λ done. pure (quietly done)

  -- Behind `ResolveTargets`.
  unfoldable pub after_resolve :
      Config → Settings → QuietDecision → Item × List DeliveryTarget → Process Outcome
  unfolding str_eq acked deferred finished send_ready delivery_terminal
  after_resolve config settings q (item, ready) =
      if is_action q (codes "defer")
      then (if delivery_terminal (entries item.ledger)
          then acked item
          else deferred item q.defer_until)
      else elim ready [ [] ↦ finished item | t ∷ ts ↦ send_ready config settings item (t ∷ ts) ]

  -- Behind the quiet hours.
  unfoldable pub after_quiet :
      Config
      → Settings
      → Item
      → List DeliveryTarget
      → Result Quiet.Error QuietDecision
      → Process Outcome
  unfolding str_eq fail_item dropped on_queue queue_call resolve_targets after_resolve ◌>>=◌
  after_quiet config settings item targets (err e) = fail_item item (Fault.quiet e)
  after_quiet config settings item targets (ok q) =
      if is_action q (codes "drop")
      then dropped item
      else on_queue (queue_call (resolve_targets item targets now))
        >>= after_resolve config settings q

  unfoldable pub process_targets : Config → Settings → Item → List DeliveryTarget → Process Outcome
  unfolding Quiet.evaluate after_quiet
  process_targets config settings item targets =
      after_quiet config settings item targets
        (Quiet.evaluate v.load_location settings.quiet_hours item.event v.urgent_bypass now)

  unfoldable pub after_decision :
      Config → Settings → Item → Result Policy.Error Decision → Process Outcome
  unfolding fail_item acked resolve_decision_targets process_targets
  after_decision config settings item (err e) = fail_item item (Fault.policy e)
  after_decision config settings item (ok d) =
      if not d.enabled
      then acked item
      else elim (resolve_decision_targets config.channels settings d) [
        | err m ↦ fail_item item (Fault.missing m)
        | ok targets ↦ process_targets config settings item targets
      ]

  unfoldable pub process_m2 : Config → Settings → Item → Process Outcome
  unfolding Policy.evaluate after_decision process_targets
  process_m2 config settings item = elim item.ledger [
    | none ↦ after_decision config settings item (
        Policy.evaluate v.zone_exists settings item.event record {
          channel_ids = config.default_channel ∷ [];
          template_id = settings.default_template;
        })
    | some es ↦ process_targets config settings item []
  ]
