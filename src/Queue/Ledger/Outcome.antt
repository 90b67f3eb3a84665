-- ===== src/Queue/Ledger/Outcome.antt =====
-- core/internal/queue/ledger.go: what `updateTarget` keeps.
use agentbell.Common.{
  ℕ, zero, suc, ◌≡◌, refl, sym, ◌∙◌, ap, false, List, [], ◌∷◌, map, Option, none, some, Str, ok,
  arith, Result, bind-ok, ok-injective, subst, get_elem?, set,
}
use agentbell.Queue.Types.{DeliveryLedgerEntry, DeliveryTarget, Envelope, Item, Error, is_pending}
use agentbell.Queue.Ledger.{
  target_of, validate_delivery_envelope, validate_inflight_item, delivery_target_index,
}
use agentbell.Queue.Settle.{
  with_entry, lookup_and_update, update_at, ack_entry, nack_entry, dead_entry, updated_envelope,
}

-- The three updates of a target.
pub data TargetUpdate : Type 0 where
  ack : Str → TargetUpdate
  nack : Option Str → ℕ → TargetUpdate
  dead : Option Str → TargetUpdate

unfoldable pub entry_update : TargetUpdate → DeliveryLedgerEntry → Result Error DeliveryLedgerEntry
entry_update (TargetUpdate.ack m) = ack_entry m
entry_update (TargetUpdate.nack c next) = nack_entry c next
entry_update (TargetUpdate.dead c) = dead_entry c

-- An update keeps the target of its entry, and the whole entry unless it is pending.
entry_update-target :
    (u : TargetUpdate) (e e' : DeliveryLedgerEntry)
    → entry_update u e ≡ ok e'
    → (target_of e' ≡ target_of e)
unfolding entry_update ack_entry nack_entry dead_entry
entry_update-target (TargetUpdate.ack m) e e' h = ground arith
entry_update-target (TargetUpdate.nack c next) e e' h = ground arith
entry_update-target (TargetUpdate.dead c) e e' h = ground arith

entry_update-settled :
    (u : TargetUpdate) (e e' : DeliveryLedgerEntry)
    → entry_update u e ≡ ok e'
    → is_pending e.state ≡ false
    → e' ≡ e
unfolding entry_update ack_entry nack_entry dead_entry
entry_update-settled (TargetUpdate.ack m) e e' h p = ground arith
entry_update-settled (TargetUpdate.nack c next) e e' h p = ground arith
entry_update-settled (TargetUpdate.dead c) e e' h p = ground arith

-- What a successful update has found and stored.
update_at-ok :
    (env : Envelope) (es : List DeliveryLedgerEntry)
    (update : DeliveryLedgerEntry → Result Error DeliveryLedgerEntry) (now : ℕ) (index : Option ℕ)
    (entry : Option DeliveryLedgerEntry) (env' : Envelope)
    → update_at env es update now index entry ≡ ok env'
    → (i : ℕ) × (e : DeliveryLedgerEntry) × (e' : DeliveryLedgerEntry) × (index ≡ some i)
      × (entry ≡ some e)
      × (update e ≡ ok e')
      × (env' ≡ with_entry env es i e' now)
update_at-ok env es update now none entry env' h = cc
update_at-ok env es update now (some i) none env' h = cc
update_at-ok env es update now (some i) (some e) env' h =
    let (e', u, rest) = bind-ok (update e) _ h in
    let (v, w, last) = bind-ok (validate_delivery_envelope (with_entry env es i e' now)) _ rest in
    (i, e, e', refl, refl, u, ok-injective (sym last))

update_at-kept :
    (env : Envelope) (es : List DeliveryLedgerEntry)
    (update : DeliveryLedgerEntry → Result Error DeliveryLedgerEntry) (now : ℕ) (index : Option ℕ)
    (entry : Option DeliveryLedgerEntry) (env' : Envelope)
    → update_at env es update now index entry ≡ ok env'
    → (validate_delivery_envelope env' ≡ ok tt)
      × (env'.queue_version ≡ env.queue_version)
      × (env'.id ≡ env.id)
update_at-kept env es update now none entry env' h = cc
update_at-kept env es update now (some i) none env' h = cc
update_at-kept env es update now (some i) (some e) env' h =
    let (e', u, rest) = bind-ok (update e) _ h in
    let (v, w, last) = bind-ok (validate_delivery_envelope (with_entry env es i e' now)) _ rest in
    let stored : with_entry env es i e' now ≡ env' = ok-injective last in
    (
      subst (λ x. validate_delivery_envelope x ≡ ok tt) stored w,
      ap (λ x. x.queue_version) (sym stored),
      ap (λ x. x.id) (sym stored),
    )

lookup_and_update-kept :
    (env : Envelope) (t : DeliveryTarget)
    (update : DeliveryLedgerEntry → Result Error DeliveryLedgerEntry) (now : ℕ)
    (ledger : Option (List DeliveryLedgerEntry)) (env' : Envelope)
    → lookup_and_update env t update now ledger ≡ ok env'
    → (validate_delivery_envelope env' ≡ ok tt)
      × (env'.queue_version ≡ env.queue_version)
      × (env'.id ≡ env.id)
lookup_and_update-kept env t update now none env' h = cc
lookup_and_update-kept env t update now (some es) env' h =
    let (v, w, rest) = bind-ok (validate_delivery_envelope env) _ h in
    update_at-kept env es update now (delivery_target_index es t) _ env' rest

-- A stored update passes the validation, and keeps the version and the id.
pub updated_envelope-kept :
    (item : Item) (t : DeliveryTarget)
    (update : DeliveryLedgerEntry → Result Error DeliveryLedgerEntry) (now : ℕ) (env' : Envelope)
    → updated_envelope item t update now ≡ ok env'
    → (validate_delivery_envelope env' ≡ ok tt)
      × (env'.queue_version ≡ item.queue_version)
      × (env'.id ≡ item.id)
unfolding updated_envelope
updated_envelope-kept item t update now env' h =
    let (v, w, rest) = bind-ok (validate_inflight_item item) _ h in
    lookup_and_update-kept item.envelope t update now item.ledger env' rest

get_elem?-set_settled :
    (es : List DeliveryLedgerEntry) (i j : ℕ) (e e' x : DeliveryLedgerEntry)
    → get_elem? es i ≡ some e
    → (is_pending e.state ≡ false → e' ≡ e)
    → get_elem? es j ≡ some x
    → is_pending x.state ≡ false
    → get_elem? (set es i e') j ≡ some x
get_elem?-set_settled [] i j e e' x g k h p = cc
get_elem?-set_settled (y ∷ es) zero zero e e' x g k h p =
    let same : y ≡ e = cc in
    let here : y ≡ x = cc in ap some (k (rw (sym same ∙ here) p) ∙ sym same ∙ here)
get_elem?-set_settled (y ∷ es) zero (suc j) e e' x g k h p = h
get_elem?-set_settled (y ∷ es) (suc i) zero e e' x g k h p = h
get_elem?-set_settled (y ∷ es) (suc i) (suc j) e e' x g k h p =
    get_elem?-set_settled es i j e e' x g k h p

map-target-set :
    (es : List DeliveryLedgerEntry) (i : ℕ) (e e' : DeliveryLedgerEntry)
    → get_elem? es i ≡ some e
    → target_of e' ≡ target_of e
    → map target_of (set es i e') ≡ map target_of es
map-target-set [] i e e' g t = refl
map-target-set (y ∷ es) zero e e' g t =
    let same : e ≡ y = cc in ap (λ x. x ∷ map target_of es) (t ∙ ap target_of same)
map-target-set (y ∷ es) (suc i) e e' g t = ap (◌∷◌ (target_of y)) (map-target-set es i e e' g t)

lookup_and_update-ok :
    (env : Envelope) (t : DeliveryTarget)
    (update : DeliveryLedgerEntry → Result Error DeliveryLedgerEntry) (now : ℕ)
    (es : List DeliveryLedgerEntry) (env' : Envelope)
    → lookup_and_update env t update now (some es) ≡ ok env'
    → (i : ℕ) × (e : DeliveryLedgerEntry) × (e' : DeliveryLedgerEntry) × (get_elem? es i ≡ some e)
      × (update e ≡ ok e')
      × (env' ≡ with_entry env es i e' now)
lookup_and_update-ok env t update now es env' h =
    let (v, w, rest) = bind-ok (validate_delivery_envelope env) _ h in
    let (i, e, e', index, at_index, u, stored) =
      update_at-ok env es update now (delivery_target_index es t) _ env' rest in
    (
      i,
      e,
      e',
      subst (λ o. elim o [ none ↦ none | some i ↦ get_elem? es i ] ≡ some e) index at_index,
      u,
      stored,
    )

-- An update that succeeds on an item with a ledger changes no entry that is not pending, whatever
-- target it is for, and does not change which targets the ledger has, or their order.
pub settled_targets_stay :
    (item : Item) (t : DeliveryTarget) (u : TargetUpdate) (now : ℕ) (es : List DeliveryLedgerEntry)
    (env' : Envelope)
    → item.ledger ≡ some es
    → updated_envelope item t (entry_update u) now ≡ ok env'
    → (es' : List DeliveryLedgerEntry) × (env'.ledger ≡ some es')
      × (map target_of es' ≡ map target_of es)
      × ((j : ℕ) (e : DeliveryLedgerEntry)
          → get_elem? es j ≡ some e
          → is_pending e.state ≡ false
          → get_elem? es' j ≡ some e)
unfolding updated_envelope
settled_targets_stay item t u now es env' resolved h =
    let (v, w, rest) = bind-ok (validate_inflight_item item) _ h in
    let (i, e, e', at_index, up, stored) =
      lookup_and_update-ok item.envelope t (entry_update u) now es env' (
        subst (λ l. lookup_and_update item.envelope t (entry_update u) now l ≡ ok env') resolved
          rest) in
    (
      set es i e',
      ap (λ x. x.ledger) stored,
      map-target-set es i e e' at_index (entry_update-target u e e' up),
      λ j x g p. get_elem?-set_settled es i j e e' x at_index (entry_update-settled u e e' up) g p,
    )
