-- ===== src/Service/Resolved.antt =====
-- core/internal/service/processor.go: how an item whose targets are resolved is failed, finished and
-- dropped, over the operations of the queue. A cause is its text and whether it is permanent.
pub mod Schedule
pub mod Failed
use agentbell.Common.{
  ℕ, zero, suc, ◌+◌, ◌*◌, ◌/◌, ◌^◌, Bool, true, false, ◌&&◌, ◌||◌, not, List, [], ◌∷◌, Option, none,
  some, Str, codes, length, get_elem?, leb, ◌==◌, Result, ok, err, if◌then◌else◌,
}
use agentbell.Common.Int.{ℤ, pos, negsuc, at_least, increment}
use agentbell.Queue.Types
use agentbell.Queue.Types.{DeliveryTarget, DeliveryLedgerEntry, Item}
use agentbell.Queue.Disk.{Disk}
use agentbell.Queue.Types.{is_pending}
use agentbell.Queue.Ledger.{same_target}
use agentbell.Queue.Items.{ack, defer}
use agentbell.Queue.Targets.{resolve_targets, nack_target, dead_target}
use agentbell.Actions.{Action, pure, raise, ◌>>=◌, ◌>>◌, try, zoom}

pub data Failure : Type 0 where
  queue : Types.Error → Failure
  absent_target no_pending_target panic : Failure

pub record Cause : Type 0 where
  pub text : Str
  pub permanent : Bool

abbrev pub Service : Type 0 → Type 0
Service = Action Disk Failure

unfoldable pub queue_call : {A : Type 0} → Action Disk Types.Error A → Service A
unfolding zoom
queue_call m = zoom (λ k. k) (λ j k. j) Failure.queue m

abbrev pub is_panic : Failure → Bool
is_panic Failure.panic = true
is_panic (Failure.queue Types.Error.panic) = true
is_panic _ = false

-- The result of an action as a value, unless it panics: the code has no `recover`.
abbrev pub unless_panic : {A : Type 0} → Result Failure A → Service (Result Failure A)
unless_panic (ok a) = pure (ok a)
unless_panic (err f) = if is_panic f then raise f else pure (err f)

unfoldable pub attempt : {A : Type 0} → Service A → Service (Result Failure A)
unfolding try pure raise ◌>>=◌
attempt m = try m >>= unless_panic

-- The fields of the service that pace it.
pub record Pace : Type 0 where
  pub poll_interval : ℕ
  pub backoff : List ℕ

abbrev second : ℕ
second = 10 ^ 9

abbrev pub default_backoff : List ℕ
default_backoff = 1 * second ∷ 5 * second ∷ 30 * second ∷ 120 * second ∷ 600 * second ∷ []

-- 500 milliseconds by default.
abbrev pub poll_interval : Pace → ℕ
poll_interval p = if p.poll_interval == 0 then second / 2 else p.poll_interval

abbrev pub or_default : List ℕ → List ℕ
or_default [] = default_backoff
or_default (d ∷ ds) = d ∷ ds

abbrev pub backoff : Pace → List ℕ
backoff p = or_default p.backoff

abbrev pub entries : Option (List DeliveryLedgerEntry) → List DeliveryLedgerEntry
entries none = []
entries (some es) = es

unfoldable pub ledger_entry : List DeliveryLedgerEntry → DeliveryTarget → Option DeliveryLedgerEntry
unfolding same_target
ledger_entry [] t = none
ledger_entry (e ∷ es) t = if same_target e t then some e else ledger_entry es t

abbrev pub is_nil : List DeliveryLedgerEntry → Bool
is_nil [] = true
is_nil (e ∷ es) = false

unfoldable pub none_pending : List DeliveryLedgerEntry → Bool
none_pending [] = true
none_pending (e ∷ es) = not (is_pending e.state) && none_pending es

unfoldable pub delivery_terminal : List DeliveryLedgerEntry → Bool
unfolding none_pending
delivery_terminal es = none_pending es && not (is_nil es)

-- `backoff[entry.Attempts]`, and a millisecond for no delay.
abbrev pub at_least_a_millisecond : ℕ → ℕ
at_least_a_millisecond d = if d == 0 then 10 ^ 6 else d

abbrev pub delay_of : List ℕ → ℤ → Option ℕ
delay_of ds (pos n) = get_elem? ds n
delay_of ds (negsuc n) = none

abbrev pub nack_after : Item → DeliveryTarget → Cause → ℕ → Option ℕ → Service Item
nack_after item t c now none = raise Failure.panic
nack_after item t c now (some d) =
    queue_call (nack_target item t (some c.text) (now + at_least_a_millisecond d) now)

-- A failed target is dead, or postponed.
abbrev pub fail_entry :
    Pace → Item → DeliveryTarget → Cause → ℕ → Option DeliveryLedgerEntry → Service Item
fail_entry p item t c now none = raise Failure.absent_target
fail_entry p item t c now (some e) =
    if c.permanent || at_least (increment e.attempts) (length (backoff p))
    then queue_call (dead_target item t (some c.text) now)
    else nack_after item t c now (delay_of (backoff p) e.attempts)

unfoldable pub fail_target : Pace → Item → DeliveryTarget → Cause → ℕ → Service Item
unfolding ledger_entry queue_call nack_target dead_target raise
fail_target p item t c now = fail_entry p item t c now (ledger_entry (entries item.ledger) t)

-- When a pending entry wants to be tried.
abbrev pub candidate : ℕ → ℕ → DeliveryLedgerEntry → ℕ
candidate now poll e =
    if e.next_attempt_at == 0 || leb e.next_attempt_at now then now + poll else e.next_attempt_at

abbrev pub sooner : ℕ → ℕ → ℕ
sooner next c = if next == 0 || not (leb next c) then c else next

-- The earliest such instant, from one that was found before: 0 is none.
unfoldable pub earliest : ℕ → ℕ → ℕ → List DeliveryLedgerEntry → ℕ
earliest now poll next [] = next
earliest now poll next (e ∷ es) =
    let rest = earliest now poll (sooner next (candidate now poll e)) es in
    let skipped = earliest now poll next es in if is_pending e.state then rest else skipped

abbrev pub defer_until : Item → ℕ → ℕ → Service Item
defer_until item now next =
    if next == 0 then raise Failure.no_pending_target else queue_call (defer item now next)

unfoldable pub finish_resolved_item : Pace → Item → ℕ → Service Item
unfolding delivery_terminal queue_call ack defer earliest raise
finish_resolved_item p item now =
    if delivery_terminal (entries item.ledger)
    then queue_call (ack item now)
    else defer_until item now (earliest now (poll_interval p) 0 (entries item.ledger))

-- The loop of `dropResolvedOrNewItem` over the entries it started with.
unfoldable pub dead_pending : Item → Str → ℕ → List DeliveryLedgerEntry → Service Item
unfolding queue_call dead_target pure ◌>>=◌
dead_pending item text now [] = pure item
dead_pending item text now (e ∷ es) =
    let skipped = dead_pending item text now es in
    if is_pending e.state
    then (do
      changed ← queue_call (
          dead_target item record { channel_id = e.channel_id; template_id = e.template_id }
            (some text) now)
      dead_pending changed text now es)
    else skipped

abbrev pub quiet_drop : Str
quiet_drop = codes "delivery suppressed by quiet-hours drop"

unfoldable pub drop_resolved_or_new_item : Item → ℕ → Service Item
unfolding queue_call ack dead_pending pure ◌>>=◌
drop_resolved_or_new_item item now = elim item.ledger [
  | none ↦ queue_call (ack item now)
  | some es ↦ dead_pending item quiet_drop now es >>= λ changed. queue_call (ack changed now)
]

-- The item behind a step, which an error leaves as it was, and the failures so far.
abbrev pub noted : Item → List Failure → Result Failure Item → Item × List Failure
noted item fs (ok changed) = (changed, fs)
noted item fs (err f) = (item, f ∷ fs)

unfoldable pub fail_targets :
    Pace → Item → Cause → ℕ → List DeliveryTarget → List Failure → Service (Item × List Failure)
unfolding fail_target attempt pure ◌>>=◌
fail_targets p item c now [] fs = pure (item, fs)
fail_targets p item c now (t ∷ ts) fs = do
  r ← attempt (fail_target p item t c now)
  fail_targets p (noted item fs r).0 c now ts (noted item fs r).1

-- The failures that are joined, the last one first.
unfoldable pub fail_resolved_targets : Pace → Item → Cause → ℕ → Service (Item × List Failure)
unfolding queue_call resolve_targets fail_targets finish_resolved_item attempt pure ◌>>=◌
fail_resolved_targets p item c now = do
  resolved ← queue_call (resolve_targets item [] now)
  failed ← fail_targets p resolved.0 c now resolved.1 []
  r ← attempt (finish_resolved_item p failed.0 now)
  pure (noted failed.0 failed.1 r)
