-- ===== src/Queue/Reports.antt =====
-- core/internal/queue: `List` and `Stats` of queue.go and `PreflightRollback` of ledger.go, which
-- only list. The map of `Stats` is walked in one order; the counts do not depend on it.
use agentbell.Common.{
  ℕ, ◌-◌, Bool, true, false, ◌||◌, List, [], ◌∷◌, ◌++◌, map, Option, none, some, Str, ltb, ◌==◌,
  length, contains, if◌then◌else◌,
}
use agentbell.Queue.Types.{State, Envelope, Item, DeliveryLedgerEntry}
use agentbell.Queue.Ledger.{count_succeeded}
use agentbell.Queue.Disk.{Fs, pure, ◌>>=◌}
use agentbell.Queue.Listing.{list_unlocked}

pub record Stats : Type 0 where
  pub pending : ℕ
  pub inflight : ℕ
  pub history : ℕ
  pub dead : ℕ

unfoldable pub list : State → Fs (List Envelope)
unfolding list_unlocked pure ◌>>=◌
list s = do items ← list_unlocked s; pure (map (λ i. i.envelope) items)

unfoldable pub stats : Fs Stats
unfolding list_unlocked pure ◌>>=◌
stats = do
  pending ← list_unlocked State.pending
  inflight ← list_unlocked State.inflight
  history ← list_unlocked State.succeeded
  dead ← list_unlocked State.dead
  pure (record {
    pending = length pending;
    inflight = length inflight;
    history = length history;
    dead = length dead;
  })

pub record RollbackItem : Type 0 where
  pub id : Str
  pub state : State
  pub succeeded_targets : ℕ
  pub remaining_targets : ℕ

-- The entry of one item in the report, if some but not all of its targets have succeeded.
unfoldable pub rollback_item : Item → List DeliveryLedgerEntry → Option RollbackItem
rollback_item item ledger =
    if count_succeeded ledger == 0 || count_succeeded ledger == length ledger
    then none
    else some (record {
      id = item.id;
      state = item.state;
      succeeded_targets = count_succeeded ledger;
      remaining_targets = length ledger - count_succeeded ledger;
    })

abbrev pub prepend_some {ℓ} : {A : Type ℓ} → Option A → List A → List A
prepend_some none xs = xs
prepend_some (some x) xs = x ∷ xs

-- The inner loop of `PreflightRollback`, with the ids that were seen: the ids and the report.
unfoldable pub rollback_items : List Str → List Item → List Str × List RollbackItem
unfolding rollback_item
rollback_items seen [] = (seen, [])
rollback_items seen (item ∷ items) = elim item.ledger [
  | none ↦ rollback_items seen items
  | some ledger ↦ elim (contains seen item.id) [
    | true ↦ rollback_items seen items
    | false ↦
        let (seen', rest) = rollback_items (item.id ∷ seen) items in
        (seen', prepend_some (rollback_item item ledger) rest)
  ]
]

pub record RollbackPreflight : Type 0 where
  pub has_partial_success : Bool
  pub items : List RollbackItem

-- `<` of Go strings.
unfoldable pub string_less : Str → Str → Bool
string_less s [] = false
string_less [] (y ∷ ys) = true
string_less (x ∷ xs) (y ∷ ys) =
    let rest = string_less xs ys in if ltb x y then true else if x == y then rest else false

unfoldable pub insert_by_id : RollbackItem → List RollbackItem → List RollbackItem
unfolding string_less
insert_by_id x [] = x ∷ []
insert_by_id x (y ∷ ys) =
    let rest = insert_by_id x ys in if string_less y.id x.id then y ∷ rest else x ∷ y ∷ ys

unfoldable pub sort_by_id : List RollbackItem → List RollbackItem
unfolding insert_by_id
sort_by_id [] = []
sort_by_id (x ∷ xs) = insert_by_id x (sort_by_id xs)

-- The outer loop over the states, with the ids that were seen.
unfoldable pub rollback_states : List Str → List State → Fs (List RollbackItem)
unfolding rollback_items list_unlocked pure ◌>>=◌
rollback_states seen [] = pure []
rollback_states seen (s ∷ ss) = do
  items ← list_unlocked s
  rest ← rollback_states (rollback_items seen items).0 ss
  pure ((rollback_items seen items).1 ++ rest)

unfoldable pub preflight_rollback : Fs RollbackPreflight
unfolding rollback_states sort_by_id pure ◌>>=◌
preflight_rollback = do
  items ← rollback_states [] (State.pending ∷ State.inflight ∷ State.succeeded ∷ State.dead ∷ [])
  pure (record { has_partial_success = ltb 0 (length items); items = sort_by_id items })
