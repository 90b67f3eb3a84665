-- ===== src/Queue/Durable/Lists.antt =====
-- core/internal/queue/queue.go: `listUnlocked` on a sound name, and the items that it returns.
use agentbell.Common.{true, List, [], ◌∷◌, Str, codes, has_suffix, some, All, ◌≡◌, refl, arith}
use agentbell.Queue.Types.{State, Item, Error}
use agentbell.Queue.Disk.{File, Directory, Fs, file_at, files}
use agentbell.Queue.Listing.{
  healthy, admit, list_names, names_of, insert_item, sort_items, list_directory, list_unlocked,
}
use agentbell.Queue.Triple.{
  Triple, Triple-pure, Triple-raise, Triple-bind, Triple-inspect, Triple-if, Triple-weaken,
}
use agentbell.Queue.Durable.{IsSound}
use agentbell.Queue.Durable.Calls.{Triple-after_call, read_file_lem, quarantine_lem}

abbrev pub IsHealthy : Item → Type 0
IsHealthy item = healthy item.envelope ≡ true

insert_item-All :
    (x : Item) (xs : List Item) → IsHealthy x → All IsHealthy xs → All IsHealthy (insert_item x xs)
unfolding insert_item
insert_item-All x [] h a = (h, a)
insert_item-All x (y ∷ ys) h a = ground (arith, insert_item-All x ys h a.1)

sort_items-All : (xs : List Item) → All IsHealthy xs → All IsHealthy (sort_items xs)
unfolding sort_items
sort_items-All [] a = a
sort_items-All (x ∷ xs) a = insert_item-All x (sort_items xs) a.0 (sort_items-All xs a.1)

module _ (name : Str) (json : has_suffix name (codes ".json") ≡ true) where
  -- The action keeps the name sound, and returns accepted items.
  abbrev Lists : Fs (List Item) → Type 0
  Lists m =
      Triple (IsSound name) m (λ items k. IsSound name k × All IsHealthy items) (λ _. IsSound name)

  admit-Lists :
      (d : Directory) (n : Str) (f : File) (rest : Fs (List Item))
      → Lists rest
      → Triple
          (λ k. IsSound name k × (file_at k d n ≡ some f))
          (admit d n f rest)
          (λ items k. IsSound name k × All IsHealthy items)
          (λ _. IsSound name)
  admit-Lists d n File.garbage rest t =
      Triple-bind _ _ (quarantine_lem name d n File.garbage json refl) (λ _. t)
  admit-Lists d n (File.envelope e) rest t =
      Triple-if (healthy e) _ _
        (λ good.
          Triple-bind rest _ (Triple-weaken _ t (λ k p. p.0) (λ items k q. q) (λ e' k q. q))
            (λ items. Triple-pure _ (λ k q. (q.0, (good, q.1)))))
        (λ bad. Triple-bind _ _ (quarantine_lem name d n (File.envelope e) json bad) (λ _. t))

  list_names-Lists : (d : Directory) (ns : List Str) → Lists (list_names d ns)
  unfolding list_names
  list_names-Lists d [] = Triple-pure [] (λ k s. (s, tt))
  list_names-Lists d (n ∷ ns) =
      let t = list_names-Lists d ns in
      Triple-if (has_suffix n (codes ".json")) _ _
        (λ _. Triple-bind _ _ (read_file_lem d n) (λ f. admit-Lists d n f (list_names d ns) t))
        (λ _. t)

  list_directory-Lists : (d : Directory) → Lists (list_directory d)
  unfolding list_directory
  list_directory-Lists d =
      Triple-after_call _ (λ k s. s)
        (Triple-bind _ _ (Triple-inspect (λ k. names_of (files k d))) (λ ns.
          Triple-bind _ _
            (Triple-weaken _ (list_names-Lists d ns) (λ k p. p.0) (λ items k q. q) (λ e k q. q))
            (λ items. Triple-pure _ (λ k q. (q.0, sort_items-All items q.1)))))

  pub list_unlocked-Lists : (s : State) → Lists (list_unlocked s)
  unfolding list_unlocked
  list_unlocked-Lists State.pending = list_directory-Lists Directory.pending
  list_unlocked-Lists State.inflight = list_directory-Lists Directory.inflight
  list_unlocked-Lists State.succeeded = list_directory-Lists Directory.history
  list_unlocked-Lists State.dead = list_directory-Lists Directory.dead
  list_unlocked-Lists (State.other s) = Triple-raise Error.unsupported_state (λ k s. s)
