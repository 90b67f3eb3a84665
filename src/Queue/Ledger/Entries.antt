-- ===== src/Queue/Ledger/Entries.antt =====
-- core/internal/queue/ledger.go: what a ledger that passes `validateDeliveryEnvelope` consists of.
use agentbell.Common.{
  ℕ, zero, suc, ◌≡◌, ap, false, List, [], ◌∷◌, some, Str, contains, get_elem?, set, ok, arith,
}
use agentbell.Queue.Types.{DeliveryLedgerEntry}
use agentbell.Queue.Ledger.{
  key_of, target_of, delivery_target_key, validate_delivery_target, validate_entry,
  validate_entries,
}

-- The checks of one entry, and those of the rest.
pub validate_entries-cons :
    (seen : List Str) (e : DeliveryLedgerEntry) (es : List DeliveryLedgerEntry)
    → validate_entries seen (e ∷ es) ≡ ok tt
    → (validate_delivery_target (target_of e) ≡ ok tt)
      × (contains seen (key_of e) ≡ false)
      × (validate_entry e ≡ ok tt)
      × (validate_entries (key_of e ∷ seen) es ≡ ok tt)
unfolding validate_entries
validate_entries-cons seen e es h = ground arith

pub validate_entries_of_parts :
    (seen : List Str) (e : DeliveryLedgerEntry) (es : List DeliveryLedgerEntry)
    → validate_delivery_target (target_of e) ≡ ok tt
    → contains seen (key_of e) ≡ false
    → validate_entry e ≡ ok tt
    → validate_entries (key_of e ∷ seen) es ≡ ok tt
    → validate_entries seen (e ∷ es) ≡ ok tt
unfolding validate_entries
validate_entries_of_parts seen e es t k v r = ground arith

-- Every entry of a valid ledger is valid.
pub validate_entry_at :
    (seen : List Str) (es : List DeliveryLedgerEntry) (i : ℕ) (e : DeliveryLedgerEntry)
    → validate_entries seen es ≡ ok tt
    → get_elem? es i ≡ some e
    → validate_entry e ≡ ok tt
validate_entry_at seen [] i e h g = ground arith
validate_entry_at seen (x ∷ es) zero e h g = ground (arith, validate_entries-cons seen x es h)
validate_entry_at seen (x ∷ es) (suc i) e h g =
    validate_entry_at (key_of x ∷ seen) es i e (validate_entries-cons seen x es h).3 g

-- One entry may be replaced by a valid one of the same target.
pub validate_entries-set :
    (seen : List Str) (es : List DeliveryLedgerEntry) (i : ℕ) (e e' : DeliveryLedgerEntry)
    → validate_entries seen es ≡ ok tt
    → get_elem? es i ≡ some e
    → target_of e' ≡ target_of e
    → validate_entry e' ≡ ok tt
    → validate_entries seen (set es i e') ≡ ok tt
validate_entries-set seen [] i e e' h g t v = h
validate_entries-set seen (x ∷ es) zero e e' h g t v =
    let p = validate_entries-cons seen x es h in
    let q : target_of e' ≡ target_of x = cc in
    let k : key_of e' ≡ key_of x = ap (λ t. delivery_target_key t.channel_id t.template_id) q in
    validate_entries_of_parts seen e' es (cc) (cc) v (cc)
validate_entries-set seen (x ∷ es) (suc i) e e' h g t v =
    let p = validate_entries-cons seen x es h in
    validate_entries_of_parts seen x (set es i e') p.0 p.1 p.2
      (validate_entries-set (key_of x ∷ seen) es i e e' p.3 g t v)
