-- ===== src/Queue/Ledger/Update.antt =====
-- core/internal/queue/ledger.go: when `updateTarget` succeeds.
use agentbell.Common.{
  ℕ, zero, suc, ◌≡◌, ◌∙◌, refl, ap, true, false, List, [], ◌∷◌, Option, some, Str, str_eq_refl,
  str_eq_iff, ok, arith, Result, get_elem?, set, is_empty,
}
use agentbell.Queue.Types.{
  DeliveryLedgerEntry, DeliveryTarget, Envelope, Item, Error, Disposition, DeliveryState,
  disposition_eq,
}
use agentbell.Queue.Ledger.{
  target_of, validate_entry, validate_entries, disposition_for, validate_ledger,
  validate_delivery_envelope, validate_inflight_item, delivery_target_index, same_target,
}
use agentbell.Queue.Settle.{
  acknowledged, postponed, dead_lettered, with_entry, lookup_and_update, truncate_error,
  updated_envelope,
}
use agentbell.Queue.Ledger.Entries.{validate_entry_at, validate_entries-set}

disposition_eq_refl : (d : Disposition) → disposition_eq d d ≡ true
unfolding disposition_eq
disposition_eq_refl Disposition.unset = refl
disposition_eq_refl (Disposition.other s) = str_eq_refl s
disposition_eq_refl _ = refl

-- Each of the three updates turns a valid pending entry into a valid one.
pub acknowledged-valid :
    (m : Str) (e : DeliveryLedgerEntry)
    → validate_entry e ≡ ok tt
    → validate_entry (acknowledged m e) ≡ ok tt
unfolding validate_entry
acknowledged-valid m e v = ground arith

pub postponed-valid :
    (c : Option Str) (t : ℕ) (e : DeliveryLedgerEntry)
    → validate_entry e ≡ ok tt
    → e.state ≡ DeliveryState.pending
    → validate_entry (postponed c t e) ≡ ok tt
unfolding validate_entry
postponed-valid c t e v p = ground arith

pub dead_lettered-valid :
    (c : Option Str) (e : DeliveryLedgerEntry)
    → validate_entry e ≡ ok tt
    → is_empty (truncate_error c) ≡ false
    → validate_entry (dead_lettered c e) ≡ ok tt
unfolding validate_entry
dead_lettered-valid c e v p = ground arith

pub same_target_eq :
    (e : DeliveryLedgerEntry) (t : DeliveryTarget) → same_target e t ≡ true → target_of e ≡ t
unfolding same_target
same_target_eq e t h =
    ground (arith, str_eq_iff e.channel_id t.channel_id, str_eq_iff e.template_id t.template_id)

-- The index that is found holds an entry of the target.
pub delivery_target_index-found :
    (es : List DeliveryLedgerEntry) (t : DeliveryTarget) (i : ℕ)
    → delivery_target_index es t ≡ some i
    → (e : DeliveryLedgerEntry) × (get_elem? es i ≡ some e) × (target_of e ≡ t)
unfolding delivery_target_index
delivery_target_index-found [] t i h = cc
delivery_target_index-found (x ∷ es) t zero h = (x, refl, found (same_target_eq x t) h)
  where
    found :
        (same_target x t ≡ true → target_of x ≡ t)
        → delivery_target_index (x ∷ es) t ≡ some 0
        → target_of x ≡ t
    found eq h = ground arith
delivery_target_index-found (x ∷ es) t (suc i) h = delivery_target_index-found es t i (ground arith)

validate_ledger_of_entries :
    (e : DeliveryLedgerEntry) (es : List DeliveryLedgerEntry)
    → validate_entries [] (e ∷ es) ≡ ok tt
    → validate_ledger (some (e ∷ es)) (disposition_for (e ∷ es)) ≡ ok tt
unfolding validate_ledger
validate_ledger_of_entries e es v = rw (v, disposition_eq_refl (disposition_for (e ∷ es)))

pub validate_entries_of_ledger :
    (es : List DeliveryLedgerEntry) (d : Disposition)
    → validate_ledger (some es) d ≡ ok tt
    → validate_entries [] es ≡ ok tt
unfolding validate_ledger
validate_entries_of_ledger [] d v = cc
validate_entries_of_ledger (e ∷ es) d v = ground arith

validate_ledger-set :
    (es : List DeliveryLedgerEntry) (d : Disposition) (i : ℕ) (e e' : DeliveryLedgerEntry)
    → validate_ledger (some es) d ≡ ok tt
    → get_elem? es i ≡ some e
    → target_of e' ≡ target_of e
    → validate_entry e' ≡ ok tt
    → validate_ledger (some (set es i e')) (disposition_for (set es i e')) ≡ ok tt
validate_ledger-set [] d i e e' v g t v' = cc
validate_ledger-set (x ∷ es) d zero e e' v g t v' =
    validate_ledger_of_entries e' es
      (validate_entries-set [] (x ∷ es) 0 e e' (validate_entries_of_ledger (x ∷ es) d v) g t v')
validate_ledger-set (x ∷ es) d (suc i) e e' v g t v' =
    validate_ledger_of_entries x (set es i e') (
      validate_entries-set [] (x ∷ es) (suc i) e e' (validate_entries_of_ledger (x ∷ es) d v) g t
        v')

-- A valid envelope stays valid when one entry is replaced by a valid one of the same target.
pub with_entry-valid :
    (env : Envelope) (es : List DeliveryLedgerEntry) (i : ℕ) (e e' : DeliveryLedgerEntry) (now : ℕ)
    → env.ledger ≡ some es
    → validate_delivery_envelope env ≡ ok tt
    → get_elem? es i ≡ some e
    → target_of e' ≡ target_of e
    → validate_entry e' ≡ ok tt
    → validate_delivery_envelope (with_entry env es i e' now) ≡ ok tt
unfolding validate_delivery_envelope
with_entry-valid env es i e e' now l v g t v' =
    validate_ledger-set es env.disposition i e e' (rw l at v) g t v'

-- `updateTarget` succeeds wherever the update gives a valid entry, and stores exactly that entry,
-- the disposition of the new ledger and the time.
module _ (item : Item) (es : List DeliveryLedgerEntry) (t : DeliveryTarget) (i : ℕ)
    (e : DeliveryLedgerEntry) (now : ℕ) (inflight : validate_inflight_item item ≡ ok tt)
    (resolved : item.ledger ≡ some es) (valid : validate_delivery_envelope item.envelope ≡ ok tt)
    (index : delivery_target_index es t ≡ some i) (at_index : get_elem? es i ≡ some e) where
  pub updated_envelope-ok :
      (update : DeliveryLedgerEntry → Result Error DeliveryLedgerEntry) (e' : DeliveryLedgerEntry)
      → update e ≡ ok e'
      → target_of e' ≡ target_of e
      → validate_entry e' ≡ ok tt
      → updated_envelope item t update now ≡ ok (with_entry item.envelope es i e' now)
  unfolding updated_envelope
  updated_envelope-ok update e' u t' v' = rw inflight (
      ap (lookup_and_update item.envelope t update now) resolved
      ∙ rw (
        valid,
        index,
        at_index,
        u,
        with_entry-valid item.envelope es i e e' now resolved valid at_index t' v',
      ))

  pub entry_valid : validate_entry e ≡ ok tt
  unfolding validate_delivery_envelope
  entry_valid =
      validate_entry_at [] es i e
        (validate_entries_of_ledger es item.envelope.disposition (rw resolved at valid)) at_index
