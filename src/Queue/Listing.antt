-- ===== src/Queue/Listing.antt =====
-- core/internal/queue/queue.go: writing, listing and quarantine of queue items.
-- `os.ReadDir` and `sort.Slice` leave the order of items that were created at the same instant open;
-- the model takes the order of the directory.
use agentbell.Common.{
  Bool, ◌&&◌, not, List, [], ◌∷◌, ◌++◌, map, Option, none, some, Str, codes, is_empty, has_suffix,
  ltb, ◌==◌, is_ok, if◌then◌else◌,
}
use agentbell.Queue.Types.{State, Envelope, Item, Error}
use agentbell.Queue.Ledger.{validate_delivery_envelope}
use agentbell.Queue.Disk.{
  File, Files, Directory, Fs, files, put_file, delete_file, file_at, pure, raise, ◌>>=◌, ◌>>◌,
  unless_missing, system_call, inspect, modify, stat, read_file, remove,
}

-- `State` names a directory; `none` is a state that `validStates` lacks.
unfoldable pub state_directory : State → Option Directory
state_directory State.pending = some Directory.pending
state_directory State.inflight = some Directory.inflight
state_directory State.succeeded = some Directory.history
state_directory State.dead = some Directory.dead
state_directory (State.other s) = none

-- `write`: a temporary file is created, restricted, written, synchronised and closed, and then
-- renamed. Each of the six calls may fail; `json.MarshalIndent` does not fail on an envelope.
unfoldable pub write : Directory → Str → Envelope → Fs (Unit {0})
unfolding system_call modify ◌>>=◌
write d name e = do
  system_call
  system_call
  system_call
  system_call
  system_call
  system_call
  modify (put_file d name (File.envelope e))

unfoldable pub write_new : Directory → Str → Envelope → Fs (Unit {0})
unfolding stat write ◌>>=◌ raise
write_new d name e = do present ← stat d name; if present then raise Error.exist else write d name e

unfoldable pub replace : Directory → Str → Envelope → Fs (Unit {0})
unfolding stat write ◌>>=◌ raise
replace d name e = do
  present ← stat d name
  if present then write d name e else raise Error.not_exist

-- `transition` and `transitionEnvelope`: the destination is written before the source is removed.
unfoldable pub transition : Directory → Directory → Str → Envelope → Fs (Unit {0})
unfolding write_new remove unless_missing ◌>>=◌
transition source destination name e = do
  write_new destination name e
  unless_missing (remove source name)

-- `os.Rename` to a name that `listUnlocked` passes over.
unfoldable pub quarantine : Directory → Str → Fs (Unit {0})
unfolding system_call modify ◌>>=◌
quarantine d name = do
  system_call
  modify (λ k. elim (file_at k d name) [
    | none ↦ k
    | some f ↦ put_file Directory.dead (name ++ codes ".corrupt") f (delete_file d name k)
  ])

-- What `listUnlocked` asks of an envelope that it has read.
unfoldable pub healthy : Envelope → Bool
healthy e = e.queue_version == 1 && (not (is_empty e.id) && is_ok (validate_delivery_envelope e))

abbrev pub admit : Directory → Str → File → Fs (List Item) → Fs (List Item)
admit d name File.garbage rest = quarantine d name >> rest
admit d name (File.envelope e) rest =
    if healthy e
    then (do items ← rest; pure (record { envelope = e; file_name = name } ∷ items))
    else (quarantine d name >> rest)

-- The loop of `listUnlocked` over the names of a directory.
unfoldable pub list_names : Directory → List Str → Fs (List Item)
unfolding read_file quarantine ◌>>=◌
list_names d [] = pure []
list_names d (name ∷ names) =
    let rest = list_names d names in
    if has_suffix name (codes ".json") then (do f ← read_file d name; admit d name f rest) else rest

unfoldable pub insert_item : Item → List Item → List Item
insert_item x [] = x ∷ []
insert_item x (y ∷ ys) =
    let rest = insert_item x ys in if ltb y.created_at x.created_at then y ∷ rest else x ∷ y ∷ ys

unfoldable pub sort_items : List Item → List Item
unfolding insert_item
sort_items [] = []
sort_items (x ∷ xs) = insert_item x (sort_items xs)

abbrev pub names_of : Files → List Str
names_of = map (λ f. f.0)

unfoldable pub list_directory : Directory → Fs (List Item)
unfolding list_names sort_items system_call inspect ◌>>=◌
list_directory d = do
  system_call
  names ← inspect (λ k. names_of (files k d))
  items ← list_names d names
  pure (sort_items items)

unfoldable pub list_unlocked : State → Fs (List Item)
unfolding state_directory list_directory
list_unlocked s = elim (state_directory s) [
  | none ↦ raise Error.unsupported_state
  | some d ↦ list_directory d
]
