-- ===== src/Service/Process/Calls.antt =====
-- core/internal/service/processor.go: which calls of the sender the loop over the ready targets makes.
use agentbell.Common.{
  ℕ, List, [], ◌∷◌, Option, none, some, Str, Result, ok, err, ◌≡◌, ◌⊎◌, refl, ap, sym, subst, inl,
  inr,
}
use agentbell.Settings.{Settings, Template}
use agentbell.Policy.Template.{TemplateInput, RenderError, render}
use agentbell.Queue.Types.{DeliveryTarget}
use agentbell.Queue.Targets.{ack_target}
use agentbell.Actions.{pure, inspect, modify, ◌>>=◌}
use agentbell.Actions.Triple.{Triple, Triple-pure, Triple-bind, Triple-weaken}
use agentbell.Service.Targets.{Channel, Missing, channel_by_id, template_by_id}
use agentbell.Service.Resolved.{attempt, queue_call, fail_target}
use agentbell.Service.Process.{
  Process, Sent, Sender, call_sender, Fault, Config, Environment, Outcome, note, with_fault,
  failing, after_send, send_rendered, deliver, deliver_all,
}
use agentbell.Service.Process.Silence.{IsSilent, then_pure-IsSilent}

module _ (v : Environment) (config : Config) (settings : Settings) (input : TemplateInput) where
  -- What is sent to a target: the text of its template, to its channel, where both are there.
  pub record IsMessage (t : DeliveryTarget) (channel : Channel) (text : Str) : Type 0 where
    pub template : Template
    pub configured : channel_by_id config.channels t.channel_id ≡ some channel
    pub known : template_by_id settings.templates t.template_id ≡ some template
    pub rendered : render v.valid_utf8 v.print_time template input ≡ ok text

  -- The log of calls grows by at most one message for a target, in the order of the targets.
  pub data Calls : List DeliveryTarget → Sent → Sent → Type 0 where
    done : {s : Sent} → Calls [] s s
    skipped :
        {t : DeliveryTarget} {ts : List DeliveryTarget} {s s' : Sent}
        → Calls ts s s'
        → Calls (t ∷ ts) s s'
    called :
        {t : DeliveryTarget} {ts : List DeliveryTarget} {s s' : Sent} {channel : Channel}
        {text : Str}
        → IsMessage t channel text
        → Calls ts ((channel, text) ∷ s) s'
        → Calls (t ∷ ts) s s'

  all_skipped : (ts : List DeliveryTarget) (s : Sent) → Calls ts s s
  all_skipped [] s = Calls.done
  all_skipped (t ∷ ts) s = Calls.skipped (all_skipped ts s)

  -- What a round adds to the log.
  abbrev Round : DeliveryTarget → Sent → Sent → Type 0
  Round t s s' =
      (s' ≡ s)
      ⊎ ((channel : Channel) × (text : Str) × IsMessage t channel text × (s' ≡ (channel, text) ∷ s))

  round-Calls :
      {t : DeliveryTarget} {ts : List DeliveryTarget} {s s' s'' : Sent}
      → Round t s s'
      → Calls ts s' s''
      → Calls (t ∷ ts) s s''
  round-Calls {ts = ts} {s'' = s''} (inl e) c = Calls.skipped (subst (λ s. Calls ts s s'') e c)
  round-Calls {ts = ts} {s'' = s''} (inr (channel, text, m, e)) c =
      Calls.called m (subst (λ s. Calls ts s s'') e c)

  module _ (now : ℕ) where
    -- The log of a process that starts with a log.
    abbrev pub Logs : {A : Type 0} → Process A → (Sent → Sent → Type 0) → Type 0
    Logs m R =
        (log : Sent) → Triple (λ s. s.sent ≡ log) m (λ _ s. R log s.sent) (λ _ s. R log s.sent)

    failing-IsSilent :
        (o : Outcome) (t : DeliveryTarget) (f : Fault) → IsSilent (failing v now o t f)
    unfolding failing
    failing-IsSilent o t f =
        then_pure-IsSilent (attempt (fail_target v.pace o.item t (v.cause_of f) now))
          (note (with_fault o f))

    after_send-IsSilent :
        (o : Outcome) (t : DeliveryTarget) (r : Result Str Str) → IsSilent (after_send v now o t r)
    unfolding after_send
    after_send-IsSilent o t (err e) = failing-IsSilent o t (Fault.sending e)
    after_send-IsSilent o t (ok id) =
        then_pure-IsSilent (attempt (queue_call (ack_target o.item t id now))) (note o)

    module _ (send : Sender) where
      silent-Round : (t : DeliveryTarget) (m : Process Outcome) → IsSilent m → Logs m (Round t)
      silent-Round t m silent log =
          Triple-weaken m (silent log) (λ k p. p) (λ o k e. inl e) (λ e k q. inl q)

      -- The log of a call is that of its arguments.
      call_sender-logs :
          (channel : Channel) (text : Str)
          → Logs (call_sender send channel text) (λ s s'. s' ≡ (channel, text) ∷ s)
      unfolding call_sender inspect modify pure ◌>>=◌
      call_sender-logs channel text log = record { at = λ w p. ap (λ s. (channel, text) ∷ s) p }

      send_rendered-Round :
          (o : Outcome) (t : DeliveryTarget) (channel : Channel) (template : Template)
          (r : Result RenderError Str)
          → channel_by_id config.channels t.channel_id ≡ some channel
          → template_by_id settings.templates t.template_id ≡ some template
          → render v.valid_utf8 v.print_time template input ≡ r
          → Logs (send_rendered v now send channel o t r) (Round t)
      unfolding send_rendered
      send_rendered-Round o t channel template (err e) c k h log =
          silent-Round t _ (failing-IsSilent o t (Fault.rendering e)) log
      send_rendered-Round o t channel template (ok text) c k h log =
          let m : IsMessage t channel text = record {
            template = template;
            configured = c;
            known = k;
            rendered = h;
          } in
          Triple-weaken _
            (Triple-bind (call_sender send channel text) _ (call_sender-logs channel text log)
              (λ r. after_send-IsSilent o t r ((channel, text) ∷ log)))
            (λ k p. p) (λ o' _ e. inr (channel, text, m, e)) (λ f _ e. inr (channel, text, m, e))

      deliver-Round :
          (o : Outcome) (t : DeliveryTarget)
          → Logs (deliver v now send config settings input o t) (Round t)
      unfolding deliver
      deliver-Round o t = by_channel (channel_by_id config.channels t.channel_id) refl
        where
          absent-Round : (m : Missing) → Logs (failing v now o t (Fault.missing m)) (Round t)
          absent-Round m = silent-Round t _ (failing-IsSilent o t (Fault.missing m))

          by_template :
              (channel : Channel) (r : Option Template)
              → channel_by_id config.channels t.channel_id ≡ some channel
              → template_by_id settings.templates t.template_id ≡ r
              → Logs
                  (elim r [
                    | none ↦ failing v now o t (Fault.missing (Missing.template t.template_id))
                    | some template ↦
                        send_rendered v now send channel o t
                          (render v.valid_utf8 v.print_time template input)
                  ])
                  (Round t)
          by_template channel none c k = absent-Round (Missing.template t.template_id)
          by_template channel (some template) c k =
              send_rendered-Round o t channel template _ c k refl

          by_channel :
              (r : Option Channel)
              → channel_by_id config.channels t.channel_id ≡ r
              → Logs
                  (elim r [
                    | none ↦ failing v now o t (Fault.missing (Missing.channel t.channel_id))
                    | some channel ↦ elim (template_by_id settings.templates t.template_id) [
                      | none ↦ failing v now o t (Fault.missing (Missing.template t.template_id))
                      | some template ↦
                          send_rendered v now send channel o t
                            (render v.valid_utf8 v.print_time template input)
                    ]
                  ])
                  (Round t)
          by_channel none c = absent-Round (Missing.channel t.channel_id)
          by_channel (some channel) c =
              by_template channel (template_by_id settings.templates t.template_id) c refl

      -- The loop over the ready targets calls the sender at most once for each of them, in their
      -- order. Each call is made with the target's channel, as it is configured, and the text to
      -- which the target's template renders. This holds whatever the sender answers and whichever
      -- system calls fail, whether the loop ends with a value or an error.
      pub deliver_all-Calls :
          (o : Outcome) (ts : List DeliveryTarget)
          → Logs (deliver_all v now send config settings input o ts) (Calls ts)
      unfolding deliver_all
      deliver_all-Calls o [] log =
          Triple-pure o (λ k p. subst (λ s. Calls [] log s) (sym p) Calls.done)
      deliver_all-Calls o (t ∷ ts) log =
          Triple-bind (deliver v now send config settings input o t) _
            (Triple-weaken _ (deliver-Round o t log) (λ k p. p) (λ o' k r. r)
              (λ e k r. round-Calls r (all_skipped ts _)))
            (λ next. record {
              at = λ w r.
                  (Triple-weaken _ (deliver_all-Calls next ts w.disk.sent) (λ k p. p)
                      (λ o' k c. round-Calls r c) (λ e k c. round-Calls r c)).at
                    w refl;
            })
