-- ===== src/Service/Resolved/Schedule.antt =====
-- core/internal/service/processor.go: `finishResolvedItem` defers an item until its next target is due.
use agentbell.Common.{
  ℕ, ◌<◌, ◌≤◌, true, false, ◌||◌, not, List, [], ◌∷◌, ◌++◌, leb, ◌==◌, ◌≡◌, ◌⊎◌, refl, sym, ap, ◌∙◌,
  ◌+◌, if◌then◌else◌, inl, inr, Bool-cases, arith, All,
}
use agentbell.Queue.Types.{DeliveryLedgerEntry, Item}
use agentbell.Queue.Types.{is_pending}
use agentbell.Queue.Items.{defer}
use agentbell.Service.Resolved.{
  queue_call, Pace, poll_interval, entries, none_pending, delivery_terminal, candidate, sooner,
  earliest, finish_resolved_item,
}

-- When a pending entry wants to be tried: at its own time, and after the poll interval if that has
-- passed.
abbrev pub wanted : ℕ → ℕ → DeliveryLedgerEntry → ℕ
wanted now poll e = if leb e.next_attempt_at now then now + poll else e.next_attempt_at

candidate-wanted :
    (now poll : ℕ) (e : DeliveryLedgerEntry) → candidate now poll e ≡ wanted now poll e
candidate-wanted now poll e = ground arith

-- An entry of a list.
pub record IsAmong (e : DeliveryLedgerEntry) (es : List DeliveryLedgerEntry) : Type 0 where
  pub before : List DeliveryLedgerEntry
  pub after : List DeliveryLedgerEntry
  pub split : es ≡ before ++ (e ∷ after)

module _ (now poll : ℕ) where
  -- The least of the instants at which the pending entries want to be tried, and of one that was found before.
  pub record IsEarliest (next : ℕ) (es : List DeliveryLedgerEntry) (r : ℕ) : Type 0 where
    pub found : (next == 0) ≡ false → (r ≤ next) × ((r == 0) ≡ false)
    pub pending :
        All (λ e. is_pending e.state ≡ true → (r ≤ wanted now poll e) × ((r == 0) ≡ false)) es
    pub source :
        (r ≡ next)
        ⊎ ((e : DeliveryLedgerEntry) × IsAmong e es
            × (is_pending e.state ≡ true)
            × (r ≡ wanted now poll e))

  module _ (positive : 0 < poll) where
    candidate_later : (e : DeliveryLedgerEntry) → now < candidate now poll e
    candidate_later e = elim (Bool-cases (e.next_attempt_at == 0 || leb e.next_attempt_at now)) [
      | inl h ↦ rw h (omega (arith, positive))
      | inr h ↦ rw h (ground (arith, h))
    ]

    sooner_lem :
        (next c : ℕ)
        → 0 < c
        → (sooner next c ≤ c)
          × ((sooner next c == 0) ≡ false)
          × ((sooner next c ≡ next) ⊎ (sooner next c ≡ c))
    sooner_lem next c h = elim (Bool-cases (next == 0 || not (leb next c))) [
      | inl b ↦ (rw b (omega arith), rw b (ground (arith, h)), inr (rw b))
      | inr b ↦ (rw b (ground (arith, b)), rw b (ground (arith, b)), inl (rw b))
    ]

    sooner_below : (next c : ℕ) → (next == 0) ≡ false → sooner next c ≤ next
    sooner_below next c h = elim (Bool-cases (next == 0 || not (leb next c))) [
      | inl b ↦ rw b (ground (arith, b, h))
      | inr b ↦ rw b (omega arith)
    ]

    push :
        (e f : DeliveryLedgerEntry) (es : List DeliveryLedgerEntry)
        → IsAmong f es
        → IsAmong f (e ∷ es)
    push e f es a = record {
      before = e ∷ a.before;
      after = a.after;
      split = ap (λ l. e ∷ l) a.split;
    }

    earliest-IsEarliest :
        (next : ℕ) (es : List DeliveryLedgerEntry) → IsEarliest next es (earliest now poll next es)
    unfolding earliest
    earliest-IsEarliest next [] = record {
      found = λ h. (omega arith, h);
      pending = tt;
      source = inl refl;
    }
    earliest-IsEarliest next (e ∷ es) = elim (Bool-cases (is_pending e.state)) [
      | inl b ↦
          let c = candidate now poll e in
          let (below, nonzero, from) = sooner_lem next c (omega (arith, candidate_later e)) in
          let h = earliest-IsEarliest (sooner next c) es in
          let (l, z) = h.found nonzero in
          rw b record {
            found = λ n. (omega (arith, l, sooner_below next c n), z);
            pending = (λ _. (omega (arith, l, below, candidate-wanted now poll e), z), h.pending);
            source = elim h.source [
              | inl s ↦ elim from [
                | inl k ↦ inl (s ∙ k)
                | inr k ↦ inr (
                  e,
                  record { before = []; after = es; split = refl },
                  b,
                  s ∙ (k ∙ candidate-wanted now poll e),
                )
              ]
              | inr (f, a, q, s) ↦ inr (f, push e f es a, q, s)
            ];
          }
      | inr b ↦
          let h = earliest-IsEarliest next es in
          rw b record {
            found = h.found;
            pending = (λ q. absurd (ground (arith, b, q)), h.pending);
            source = elim h.source [
              | inl s ↦ inl s
              | inr (f, a, q, s) ↦ inr (f, push e f es a, q, s)
            ];
          }
    ]

  -- Where some entry is pending, that is an instant.
  some_pending :
      (es : List DeliveryLedgerEntry) (r : ℕ)
      → none_pending es ≡ false
      → All (λ e. is_pending e.state ≡ true → (r ≤ wanted now poll e) × ((r == 0) ≡ false)) es
      → (r == 0) ≡ false
  unfolding none_pending
  some_pending [] r h all = absurd (ground (arith, h))
  some_pending (e ∷ es) r h (here, rest) = elim (Bool-cases (is_pending e.state)) [
    | inl b ↦ (here b).1
    | inr b ↦ some_pending es r (rw b at h) rest
  ]

  pending_later :
      (es : List DeliveryLedgerEntry) (r : ℕ)
      → 0 < poll
      → none_pending es ≡ false
      → IsEarliest 0 es r
      → now < r
  pending_later es r positive h least = elim least.source [
    | inl z ↦ absurd (ground (arith, z, some_pending es r h least.pending))
    | inr (e, a, q, s) ↦ rw (s, sym (candidate-wanted now poll e)) (candidate_later positive e)
  ]

poll_interval_positive : (p : Pace) → 0 < poll_interval p
poll_interval_positive p = elim (Bool-cases (p.poll_interval == 0)) [
  | inl z ↦ rw z (omega arith)
  | inr n ↦ rw n (ground (arith, n))
]

-- Finishing an item with a pending target defers it: to an instant behind the present one, at which
-- the first of its pending targets wants to be tried, and not behind any other.
pub finish_resolved_item-defers :
    (p : Pace) (item : Item) (now : ℕ)
    → none_pending (entries item.ledger) ≡ false
    → (next : ℕ) × (finish_resolved_item p item now ≡ queue_call (defer item now next))
      × (now < next)
      × IsEarliest now (poll_interval p) 0 (entries item.ledger) next
unfolding finish_resolved_item delivery_terminal
finish_resolved_item-defers p item now h =
    let least =
      earliest-IsEarliest now (poll_interval p) (poll_interval_positive p) 0
        (entries item.ledger) in
    let later =
      pending_later now (poll_interval p) (entries item.ledger) _ (poll_interval_positive p) h
        least in
    (
      earliest now (poll_interval p) 0 (entries item.ledger),
      rw (h, some_pending now (poll_interval p) (entries item.ledger) _ h least.pending),
      later,
      least,
    )
