-- ===== src/Queue/Ledger/Fresh.antt =====
-- core/internal/queue/ledger.go: a ledger made by `newDeliveryLedger`.
use agentbell.Common.{
  ℕ, ◌≡◌, refl, ap, false, List, [], ◌∷◌, map, some, Str, contains, ok, ◌∙◌, arith,
}
use agentbell.Queue.Types.{DeliveryLedgerEntry, DeliveryTarget, Disposition, disposition_eq}
use agentbell.Queue.Ledger.{
  target_of, delivery_target_key, validate_delivery_target, validate_entry, validate_entries,
  fresh_entry, fresh_entries, disposition_for, count_succeeded, count_dead, new_delivery_ledger,
  ready_targets, is_ready, validate_ledger,
}
use agentbell.Queue.Ledger.Entries.{validate_entries_of_parts}

fresh_entry-valid : (t : DeliveryTarget) → validate_entry (fresh_entry t) ≡ ok tt
unfolding validate_entry
fresh_entry-valid t = refl

-- What a successful round of the loop has checked, and what it returns.
fresh_entries-cons :
    (seen : List Str) (t : DeliveryTarget) (ts : List DeliveryTarget)
    (es : List DeliveryLedgerEntry)
    → fresh_entries seen (t ∷ ts) ≡ ok es
    → (rest : List DeliveryLedgerEntry) × (validate_delivery_target t ≡ ok tt)
      × (contains seen (delivery_target_key t.channel_id t.template_id) ≡ false)
      × (fresh_entries (delivery_target_key t.channel_id t.template_id ∷ seen) ts ≡ ok rest)
      × (es ≡ fresh_entry t ∷ rest)
unfolding fresh_entries
fresh_entries-cons seen t ts es h = ground arith

-- A successful loop has one fresh entry to a target.
fresh_entries-map :
    (seen : List Str) (ts : List DeliveryTarget) (es : List DeliveryLedgerEntry)
    → fresh_entries seen ts ≡ ok es
    → es ≡ map fresh_entry ts
unfolding fresh_entries
fresh_entries-map seen [] es h = ground arith
fresh_entries-map seen (t ∷ ts) es h =
    let (rest, v, k, r, e) = fresh_entries-cons seen t ts es h in
    e
    ∙ ap (◌∷◌ (fresh_entry t))
        (fresh_entries-map (delivery_target_key t.channel_id t.template_id ∷ seen) ts rest r)

fresh_entries-valid :
    (seen : List Str) (ts : List DeliveryTarget) (es : List DeliveryLedgerEntry)
    → fresh_entries seen ts ≡ ok es
    → validate_entries seen es ≡ ok tt
unfolding fresh_entries validate_entries
fresh_entries-valid seen [] es h = ground arith
fresh_entries-valid seen (t ∷ ts) es h =
    let (rest, v, k, r, e) = fresh_entries-cons seen t ts es h in
    rw e (
      validate_entries_of_parts seen (fresh_entry t) rest v k (fresh_entry-valid t)
        (fresh_entries-valid (delivery_target_key t.channel_id t.template_id ∷ seen) ts rest r))

count_succeeded-fresh : (ts : List DeliveryTarget) → count_succeeded (map fresh_entry ts) ≡ 0
unfolding count_succeeded
count_succeeded-fresh [] = refl
count_succeeded-fresh (t ∷ ts) = count_succeeded-fresh ts

count_dead-fresh : (ts : List DeliveryTarget) → count_dead (map fresh_entry ts) ≡ 0
unfolding count_dead
count_dead-fresh [] = refl
count_dead-fresh (t ∷ ts) = count_dead-fresh ts

targets-fresh : (ts : List DeliveryTarget) → map target_of (map fresh_entry ts) ≡ ts
targets-fresh [] = refl
targets-fresh (t ∷ ts) = ap (◌∷◌ t) (targets-fresh ts)

ready_targets-fresh :
    (ts : List DeliveryTarget) (now : ℕ) → ready_targets (map fresh_entry ts) now ≡ ts
unfolding ready_targets is_ready
ready_targets-fresh [] now = refl
ready_targets-fresh (t ∷ ts) now = ap (◌∷◌ t) (ready_targets-fresh ts now)

disposition_for-fresh :
    (t : DeliveryTarget) (ts : List DeliveryTarget)
    → disposition_for (map fresh_entry (t ∷ ts)) ≡ Disposition.pending
unfolding disposition_for
disposition_for-fresh t ts =
    ground (arith, count_succeeded-fresh (t ∷ ts), count_dead-fresh (t ∷ ts))

-- A ledger that `newDeliveryLedger` returns has one entry to a target, in the order of the targets.
-- It is pending as a whole, passes the validation of envelopes, and every target is ready at once.
pub new_delivery_ledger-valid :
    (ts : List DeliveryTarget) (es : List DeliveryLedgerEntry) (now : ℕ)
    → new_delivery_ledger ts ≡ ok es
    → (map target_of es ≡ ts)
      × (disposition_for es ≡ Disposition.pending)
      × (validate_ledger (some es) (disposition_for es) ≡ ok tt)
      × (ready_targets es now ≡ ts)
unfolding new_delivery_ledger validate_ledger disposition_eq
new_delivery_ledger-valid [] es now h = cc
new_delivery_ledger-valid (t ∷ ts) es now h =
    let e = fresh_entries-map [] (t ∷ ts) es h in
    let v : validate_entries [] (map fresh_entry (t ∷ ts)) ≡ ok tt =
      rw (← e) (fresh_entries-valid [] (t ∷ ts) es h) in
    rw e (
      targets-fresh (t ∷ ts),
      disposition_for-fresh t ts,
      rw (v, disposition_for-fresh t ts),
      ready_targets-fresh (t ∷ ts) now,
    )
