-- ===== src/Queue/Cleanup.antt =====
-- core/internal/queue/queue.go: `CleanupHistory` and `CleanupDead`, which remove items and the markers
-- of their keys. A number returned beside an error is dropped.
use agentbell.Common.{ℕ, suc, ◌-◌, ◌||◌, List, [], ◌∷◌, Str, ltb, length, delete, if◌then◌else◌}
use agentbell.Common.Int.{ℤ, pos, negsuc}
use agentbell.Queue.Types.{State, Item}
use agentbell.Queue.Disk.{Directory, Fs, pure, ◌>>=◌, ◌>>◌, ignore, modify, remove, system_call}
use agentbell.Queue.Listing.{list_unlocked}

-- The name of a marker is derived from its key by SHA-256, which is a parameter.
module _ (key_file : Str → Str) where
  -- `os.Remove` of a marker, whose error is dropped.
  unfoldable pub drop_marker : Item → Fs (Unit {0})
  unfolding system_call modify ignore ◌>>=◌
  drop_marker item = ignore (do
    system_call
    modify (λ k. record k { keys = delete (key_file item.event.idempotency_key) k.keys }))

  -- The loop of `CleanupHistory`.
  unfoldable pub cleanup_history_items : ℕ → List Item → Fs ℕ
  unfolding remove drop_marker pure ◌>>=◌
  cleanup_history_items before [] = pure 0
  cleanup_history_items before (item ∷ items) =
      let rest = cleanup_history_items before items in
      if ltb item.updated_at before
      then (do remove Directory.history item.file_name; drop_marker item; n ← rest; pure (suc n))
      else rest

  unfoldable pub cleanup_history : ℕ → Fs ℕ
  unfolding list_unlocked cleanup_history_items ◌>>=◌
  cleanup_history before = do
    items ← list_unlocked State.succeeded
    cleanup_history_items before items

  -- The loop of `CleanupDead`, with the number of items that are still in excess.
  unfoldable pub cleanup_dead_items : ℕ → ℕ → List Item → Fs ℕ
  unfolding remove drop_marker pure ◌>>=◌
  cleanup_dead_items before excess [] = pure 0
  cleanup_dead_items before excess (item ∷ items) =
      let rest = cleanup_dead_items before (excess - 1) items in
      if ltb 0 excess || ltb item.updated_at before
      then (do remove Directory.dead item.file_name; drop_marker item; n ← rest; pure (suc n))
      else rest

  -- A negative `maximum` sets no limit.
  abbrev pub excess_over : ℤ → ℕ → ℕ
  excess_over (pos maximum) n = n - maximum
  excess_over (negsuc m) n = 0

  unfoldable pub cleanup_dead : ℕ → ℤ → Fs ℕ
  unfolding list_unlocked cleanup_dead_items ◌>>=◌
  cleanup_dead before maximum = do
    items ← list_unlocked State.dead
    cleanup_dead_items before (excess_over maximum (length items)) items
