-- ===== src/Service/Process/Silence.antt =====
-- core/internal/service/processor.go: nothing is sent while quiet hours are active.
use agentbell.Common.{
  Bool, true, false, if◌then◌else◌, ℕ, not, List, [], ◌∷◌, none, some, Str, codes, str_eq, Result,
  ok, err, ◌≡◌, ◌⊎◌, sym, subst, inl, inr, arith,
}
use agentbell.Settings.{Settings}
use agentbell.Policy
use agentbell.Policy.{Decision}
use agentbell.Policy.Quiet
use agentbell.Policy.Quiet.{QuietDecision}
use agentbell.Policy.Quiet.Windows.{evaluate-windows}
use agentbell.Queue.Types.{DeliveryTarget, Item}
use agentbell.Queue.Items.{ack, defer, nack}
use agentbell.Queue.Targets.{resolve_targets}
use agentbell.Actions.{pure, ◌>>=◌}
use agentbell.Actions.Triple.{Keeps, Triple-pure, Triple-if, Triple-bind, Triple-any, Triple-zoom}
use agentbell.Service.Targets.{resolve_decision_targets}
use agentbell.Service.Resolved.{
  attempt, Service, queue_call, backoff, entries, delivery_terminal, drop_resolved_or_new_item,
  fail_resolved_targets,
}
use agentbell.Service.Process.{
  Process, Sent, on_queue, Fault, Config, Environment, Outcome, quietly, note, note_all, with_fault,
  fail_all, nack_item, fail_item, is_action, acked, deferred, dropped, after_resolve, after_quiet,
  process_targets, after_decision, process_m2,
}

-- The action makes no call of the sender, whether it ends with a value or an error, and whichever
-- system calls fail.
abbrev pub IsSilent : {A : Type 0} → Process A → Type 0
IsSilent m = (log : Sent) → Keeps (λ s. s.sent ≡ log) m

module _ {A : Type 0} where
  pub on_queue-IsSilent : (m : Service A) → IsSilent (on_queue m)
  unfolding on_queue
  on_queue-IsSilent m log =
      Triple-zoom (λ s. s.disk) (λ k s. record s { disk = k }) (λ f. f) m (Triple-any m) (λ s p. tt)
        (λ a k s p q. p) (λ e k s p q. p)

  pub pure-IsSilent : (a : A) → IsSilent (pure a)
  pure-IsSilent a log = Triple-pure a (λ s p. p)

  pub bind-IsSilent :
      {B : Type 0} (m : Process A) (f : A → Process B)
      → IsSilent m
      → ((a : A) → IsSilent (f a))
      → IsSilent (m >>= f)
  bind-IsSilent m f t u log = Triple-bind m f (t log) (λ a. u a log)

  if-IsSilent :
      (b : Bool) (m n : Process A)
      → (b ≡ true → IsSilent m)
      → (b ≡ false → IsSilent n)
      → IsSilent (if b then m else n)
  if-IsSilent b m n t u log = Triple-if b m n (λ h. t h log) (λ h. u h log)

  -- A step of the queue whose result is only looked at.
  pub then_pure-IsSilent :
      {B : Type 0} (m : Service A) (f : A → B) → IsSilent (on_queue m >>= λ a. pure (f a))
  then_pure-IsSilent m f =
      bind-IsSilent (on_queue m) _ (on_queue-IsSilent m) (λ a log. Triple-pure (f a) (λ s p. p))

module _ (v : Environment) (now : ℕ) where
  acked-IsSilent : (item : Item) → IsSilent (acked v now item)
  unfolding acked
  acked-IsSilent item = then_pure-IsSilent (queue_call (ack item now)) quietly

  nack_item-IsSilent : (item : Item) (f : Fault) → IsSilent (nack_item v now item f)
  unfolding nack_item
  nack_item-IsSilent item f =
      then_pure-IsSilent
        (attempt (
          queue_call (nack item (some (v.cause_of f).text) now (backoff v.pace)) >>= λ n. pure n.1))
        (note (with_fault (quietly item) f))

  fail_all-IsSilent : (item : Item) (f : Fault) → IsSilent (fail_all v now item f)
  unfolding fail_all
  fail_all-IsSilent item f =
      then_pure-IsSilent (attempt (fail_resolved_targets v.pace item (v.cause_of f) now))
        (note_all (with_fault (quietly item) f))

  fail_item-IsSilent : (item : Item) (f : Fault) → IsSilent (fail_item v now item f)
  unfolding fail_item
  fail_item-IsSilent item f =
      elim item.ledger
        as (λ l.
          IsSilent {A = Outcome}
            (elim l [ none ↦ nack_item v now item f | some es ↦ fail_all v now item f ])) [
              | none ↦ nack_item-IsSilent item f
              | some es ↦ fail_all-IsSilent item f
            ]

  chosen :
      {Q : Type 0} {configured : Str} (q : QuietDecision)
      → q.active ≡ true
      → ((configured ≡ codes "defer") × (q.action ≡ codes "defer") × Q)
        ⊎ ((configured ≡ codes "drop") × (q.action ≡ codes "drop"))
      → (is_action v now q (codes "drop") ≡ true) ⊎ (is_action v now q (codes "defer") ≡ true)
  unfolding str_eq
  chosen q active (inl (_, a, _)) = inr (rw (active, a))
  chosen q active (inr (_, a)) = inl (rw (active, a))

  module _ (config : Config) (settings : Settings) where
    after_quiet-IsSilent :
        (item : Item) (targets : List DeliveryTarget) (q : QuietDecision)
        → (is_action v now q (codes "drop") ≡ true) ⊎ (is_action v now q (codes "defer") ≡ true)
        → IsSilent (after_quiet v now config settings item targets (ok q))
    unfolding after_quiet after_resolve dropped deferred
    after_quiet-IsSilent item targets q action =
        if-IsSilent (is_action v now q (codes "drop")) _ _
          (λ _. then_pure-IsSilent (drop_resolved_or_new_item item now) quietly)
          (λ kept.
            bind-IsSilent (on_queue (queue_call (resolve_targets item targets now))) _
              (on_queue-IsSilent (queue_call (resolve_targets item targets now)))
              (λ r. go r (defers kept action)))
      where
        defers :
            is_action v now q (codes "drop") ≡ false
            → (is_action v now q (codes "drop") ≡ true) ⊎ (is_action v now q (codes "defer") ≡ true)
            → is_action v now q (codes "defer") ≡ true
        defers kept (inl d) = absurd (ground (arith, kept, d))
        defers kept (inr d) = d

        go :
            (r : Item × List DeliveryTarget)
            → is_action v now q (codes "defer") ≡ true
            → IsSilent (after_resolve v now config settings q r)
        go (item, ready) d =
            if-IsSilent (is_action v now q (codes "defer")) _ _
              (λ _.
                if-IsSilent (delivery_terminal (entries item.ledger)) _ _ (λ _. acked-IsSilent item)
                  (λ _. then_pure-IsSilent (queue_call (defer item now q.defer_until)) quietly))
              (λ n. absurd (ground (arith, n, d)))

    process_targets-IsSilent :
        (item : Item) (targets : List DeliveryTarget) (q : QuietDecision)
        → Quiet.evaluate v.load_location settings.quiet_hours item.event v.urgent_bypass now ≡ ok q
        → q.active ≡ true
        → IsSilent (process_targets v now config settings item targets)
    unfolding process_targets
    process_targets-IsSilent item targets q quiet active =
        let (_, _, _, _, _, _, _, _, action) =
          evaluate-windows v.load_location settings.quiet_hours item.event v.urgent_bypass now q
            quiet active in
        subst (λ r. IsSilent (after_quiet v now config settings item targets r)) (sym quiet)
          (after_quiet-IsSilent item targets q (chosen q active action))

    after_decision-IsSilent :
        (item : Item) (decided : Result Policy.Error Decision)
        → ((ts : List DeliveryTarget) → IsSilent (process_targets v now config settings item ts))
        → IsSilent (after_decision v now config settings item decided)
    unfolding after_decision
    after_decision-IsSilent item (err e) targets = fail_item-IsSilent item (Fault.policy e)
    after_decision-IsSilent item (ok d) targets =
        if-IsSilent (not d.enabled) _ _ (λ _. acked-IsSilent item)
          (λ _.
            elim (resolve_decision_targets config.channels settings d)
              as (λ r. IsSilent {A = Outcome} (elim r [
                | err m ↦ fail_item v now item (Fault.missing m)
                | ok ts ↦ process_targets v now config settings item ts
              ])) [ err m ↦ fail_item-IsSilent item (Fault.missing m) | ok ts ↦ targets ts ])

    -- While quiet hours are active for a notification, its item is processed without a call of the
    -- sender, whether this ends with a value or an error, whatever the policies decide and whichever
    -- system calls fail.
    pub process_m2-IsSilent :
        (item : Item) (q : QuietDecision)
        → Quiet.evaluate v.load_location settings.quiet_hours item.event v.urgent_bypass now ≡ ok q
        → q.active ≡ true
        → IsSilent (process_m2 v now config settings item)
    unfolding process_m2
    process_m2-IsSilent item q quiet active =
        let targets : (ts : List DeliveryTarget)
            → IsSilent (process_targets v now config settings item ts) =
          λ ts. process_targets-IsSilent item ts q quiet active in
        let decided = Policy.evaluate v.zone_exists settings item.event record {
          channel_ids = config.default_channel ∷ [];
          template_id = settings.default_template;
        } in
        elim item.ledger
          as (λ l. IsSilent {A = Outcome} (elim l [
            | none ↦ after_decision v now config settings item decided
            | some es ↦ process_targets v now config settings item []
          ])) [ none ↦ after_decision-IsSilent item decided targets | some es ↦ targets [] ]
