-- ===== src/Queue/Ledger/Stored.antt =====
-- core/internal/queue/ledger.go: what `AckTarget`, `NackTarget` and `DeadTarget` write.
use agentbell.Common.{
  ℕ, zero, suc, ◌+◌, ◌≤◌, ◌≡◌, ◌∙◌, refl, sym, ap, true, false, List, [], ◌∷◌, ◌++◌, some, Str,
  Result, ok, take, length, is_empty, get_elem?, set, All, arith, ltb, subst, Bool-cases, inl, inr,
}
use agentbell.Common.Int.{increment}
use agentbell.Queue.Types.{
  DeliveryLedgerEntry, DeliveryTarget, Envelope, Item, Error, DeliveryState,
}
use agentbell.Queue.Disk.{
  File, Directory, Disk, Fs, reliable, file_at, put_file, is_some, stat, system_call, inspect,
  modify, pure, raise, call_or, ◌>>=◌,
}
use agentbell.Queue.Listing.{write, replace}
use agentbell.Queue.Ledger.{
  target_of, validate_entry, disposition_for, validate_delivery_envelope, validate_inflight_item,
  delivery_target_index, same_target,
}
use agentbell.Queue.Settle.{
  acknowledged, with_entry, ack_entry, nack_entry, dead_entry, truncate_error, updated_envelope,
}
use agentbell.Queue.Targets.{update_target, ack_target, nack_target, dead_target}
use agentbell.Queue.Ledger.Update.{
  acknowledged-valid, postponed-valid, dead_lettered-valid, with_entry-valid, updated_envelope-ok,
  entry_valid,
}

-- The first entry of a target is the one that is found.
first_index :
    (before : List DeliveryLedgerEntry) (e : DeliveryLedgerEntry)
    (behind : List DeliveryLedgerEntry) (t : DeliveryTarget)
    → All (λ x. same_target x t ≡ false) before
    → same_target e t ≡ true
    → delivery_target_index (before ++ (e ∷ behind)) t ≡ some (length before)
unfolding delivery_target_index
first_index [] e behind t a h = rw h
first_index (x ∷ before) e behind t a h = rw (a.0, first_index before e behind t a.1 h)

elem_between :
    (before : List DeliveryLedgerEntry) (e : DeliveryLedgerEntry)
    (behind : List DeliveryLedgerEntry)
    → get_elem? (before ++ (e ∷ behind)) (length before) ≡ some e
elem_between [] e behind = refl
elem_between (x ∷ before) e behind = elem_between before e behind

set_between :
    (before : List DeliveryLedgerEntry) (e e' : DeliveryLedgerEntry)
    (behind : List DeliveryLedgerEntry)
    → set (before ++ (e ∷ behind)) (length before) e' ≡ before ++ (e' ∷ behind)
set_between [] e e' behind = refl
set_between (x ∷ before) e e' behind = ap (λ es. x ∷ es) (set_between before e e' behind)

-- The text of an error is cut to its first 512 bytes.
take_all : (n : ℕ) (s : Str) → length s ≤ n → take n s ≡ s
take_all zero [] h = refl
take_all (suc n) [] h = refl
take_all zero (c ∷ s) h = absurd (omega (arith, h))
take_all (suc n) (c ∷ s) h = ap (λ s. c ∷ s) (take_all n s (omega (arith, h)))

truncate_error_lem : (text : Str) → truncate_error (some text) ≡ take 512 text
unfolding truncate_error
truncate_error_lem text = elim (Bool-cases (ltb 512 (length text))) [
  | inl h ↦ rw h
  | inr h ↦ rw h (sym (take_all 512 text (ground (arith, h))))
]

still_full : (s : Str) → is_empty s ≡ false → is_empty (take 512 s) ≡ false
still_full [] h = h
still_full (c ∷ s) h = refl

counted : (c : ℕ) → suc (suc (suc (suc (suc (suc (suc c)))))) ≡ 7 + c
counted c = omega arith

replace-reliable :
    (d : Directory) (n : Str) (e : Envelope) (k : Disk) (c : ℕ)
    → is_some (file_at k d n) ≡ true
    → replace d n e (reliable k c) ≡ (ok tt, reliable (put_file d n (File.envelope e) k) (7 + c))
unfolding replace stat write system_call call_or raise inspect modify ◌>>=◌
replace-reliable d n e k c h =
    rw h (ap (λ calls. (ok tt, reliable (put_file d n (File.envelope e) k) calls)) (counted c))

module _ (item : Item) (before : List DeliveryLedgerEntry) (e : DeliveryLedgerEntry)
    (behind : List DeliveryLedgerEntry) (now : ℕ) (k : Disk) (c : ℕ) where
  -- The envelope with another entry in the place of one.
  abbrev pub stored : DeliveryLedgerEntry → Envelope
  stored e' = record item.envelope {
    ledger = some (before ++ (e' ∷ behind));
    disposition = disposition_for (before ++ (e' ∷ behind));
    updated_at = now;
  }

  -- An action on the item succeeds, its only effect on the directories is that the inflight file of
  -- the item holds the envelope with the new entry, and that envelope is valid.
  abbrev pub Stores : Fs Item → DeliveryLedgerEntry → Type 0
  Stores m e' =
      (m (reliable k c) ≡ (
        ok (record item { envelope = stored e' }),
        reliable (put_file Directory.inflight item.file_name (File.envelope (stored e')) k) (7 + c),
      ))
      × (validate_delivery_envelope (stored e') ≡ ok tt)

  module _ (t : DeliveryTarget) (inflight : validate_inflight_item item ≡ ok tt)
      (resolved : item.ledger ≡ some (before ++ (e ∷ behind)))
      (valid : validate_delivery_envelope item.envelope ≡ ok tt)
      (first : All (λ x. same_target x t ≡ false) before) (same : same_target e t ≡ true)
      (present : is_some (file_at k Directory.inflight item.file_name) ≡ true) where
    update_target-Stores :
        (update : DeliveryLedgerEntry → Result Error DeliveryLedgerEntry) (e' : DeliveryLedgerEntry)
        → update e ≡ ok e'
        → target_of e' ≡ target_of e
        → validate_entry e' ≡ ok tt
        → Stores (update_target item t update now) e'
    unfolding update_target pure ◌>>=◌
    update_target-Stores update e' u same' v =
        let es = before ++ (e ∷ behind) in
        let put : with_entry item.envelope es (length before) e' now ≡ stored e' =
          ap
            (λ l. record item.envelope {
              ledger = some l;
              disposition = disposition_for l;
              updated_at = now;
            })
            (set_between before e e' behind) in
        let index = first_index before e behind t first same in
        let at_index = elem_between before e behind in
        let updated : updated_envelope item t update now ≡ ok (stored e') =
          updated_envelope-ok item es t (length before) e now inflight resolved valid index at_index
            update e' u same' v
          ∙ ap ok put in
        (
          rw (updated, replace-reliable Directory.inflight item.file_name (stored e') k c present),
          subst (λ x. validate_delivery_envelope x ≡ ok tt) put
              (with_entry-valid item.envelope es (length before) e e' now resolved valid at_index
                same' v),
        )

    entry_sound : validate_entry e ≡ ok tt
    entry_sound =
        entry_valid item (before ++ (e ∷ behind)) t (length before) e now inflight resolved valid
          (first_index before e behind t first same) (elem_between before e behind)

    -- `AckTarget` for a target that is pending in a valid inflight item, whose file is there, succeeds
    -- where no system call fails. It writes the item's file and nothing else: the entry is succeeded
    -- with one more attempt, the message id, no retry time and no error, the other entries are as
    -- before, and the envelope is valid.
    pub ack_target-Stores :
        (message_id : Str)
        → e.state ≡ DeliveryState.pending
        → Stores (ack_target item t message_id now) record {
          channel_id = e.channel_id;
          template_id = e.template_id;
          state = DeliveryState.succeeded;
          attempts = increment e.attempts;
          next_attempt_at = 0;
          last_error = [];
          message_id = message_id;
        }
    unfolding ack_target ack_entry
    ack_target-Stores m p =
        update_target-Stores (ack_entry m) (acknowledged m e) (rw p) refl
          (acknowledged-valid m e entry_sound)

    -- `NackTarget` for such a target and an error with a text keeps it pending, with one more attempt,
    -- the given retry time, the first 512 bytes of the text, and no message id. Nothing else changes,
    -- and the envelope is valid.
    pub nack_target-Stores :
        (text : Str) (next : ℕ)
        → e.state ≡ DeliveryState.pending
        → Stores (nack_target item t (some text) next now) record {
          channel_id = e.channel_id;
          template_id = e.template_id;
          state = DeliveryState.pending;
          attempts = increment e.attempts;
          next_attempt_at = next;
          last_error = take 512 text;
          message_id = [];
        }
    unfolding nack_target nack_entry
    nack_target-Stores text next p =
        update_target-Stores (nack_entry (some text) next) _ (rw (p, truncate_error_lem text)) refl
          (rw (p, truncate_error_lem text) at (postponed-valid (some text) next e entry_sound p))

    -- `DeadTarget` for such a target and an error whose text is not empty makes it dead, with one more
    -- attempt, no retry time, the first 512 bytes of the text, and no message id. Nothing else
    -- changes, and the envelope is valid.
    pub dead_target-Stores :
        (text : Str)
        → e.state ≡ DeliveryState.pending
        → is_empty text ≡ false
        → Stores (dead_target item t (some text) now) record {
          channel_id = e.channel_id;
          template_id = e.template_id;
          state = DeliveryState.dead;
          attempts = increment e.attempts;
          next_attempt_at = 0;
          last_error = take 512 text;
          message_id = [];
        }
    unfolding dead_target dead_entry
    dead_target-Stores text p full =
        update_target-Stores (dead_entry (some text)) _ (rw (p, truncate_error_lem text)) refl (
          rw (truncate_error_lem text) at (
            dead_lettered-valid (some text) e entry_sound
              (rw (truncate_error_lem text) (still_full text full))))
