-- ===== src/Relay/Storage.antt =====
-- core/internal/relay/storage.go: the records of the relay on disk, how they are published and
-- removed, and the system calls made for it. A record is written under a temporary name and then
-- linked, so only `os.Link` and `os.Remove` change what is read; the directory is synchronised
-- behind them, and may fail to.
pub mod Calls
pub mod Reliable
use agentbell.Common.{
  ℕ, Bool, true, false, List, Option, none, some, Str, lookup, insert, delete, Result, ok, err,
  if◌then◌else◌,
}
use agentbell.Common.Int.{ℤ}
use agentbell.Queue.Types
use agentbell.Queue.Disk.{is_some}
use agentbell.Queue
use agentbell.Relay.{Invalid}
use agentbell.Actions
use agentbell.Actions.{Action}
unfoldable pub use agentbell.Actions.{
  pure, raise, lift, continue_with, ◌>>=◌, ◌>>◌, ignore, try, call_or, inspect, modify,
}

-- `errors.Is` sees a `exist` and a `not_exist`, and the other errors name the return they stand for.
pub data Error : Type 0 where
  exist not_exist io lock stuck : Error
  rejected : Invalid → Error
  no_time not_metadata_only undecodable_receipt invalid_receipt digest_conflict : Error
  enqueue : Types.Error → Error
  empty_queue_id not_committed incomplete unknown_peer header_mismatch nonce_replay : Error

pub record NonceRecord : Type 0 where
  pub version : ℤ
  pub seen_at : ℕ
  pub expires_at : ℕ

-- A nonce file: a record, or bytes that do not decode, with the time of the file.
pub data NonceFile : Type 0 where
  whole : NonceRecord → ℕ → NonceFile
  partial : ℕ → NonceFile

pub record Receipt : Type 0 where
  pub version : ℤ
  pub id : Str
  pub team_id : Str
  pub origin_id : Str
  pub delivery_key : Str
  pub body_digest : Str
  pub state : Str
  pub local_queue_id : Str
  pub created_at : ℕ
  pub committed_at : ℕ
  pub durably_committed : Bool

-- A receipt file: a receipt, or bytes that `strictJSON` rejects.
pub data ReceiptFile : Type 0 where
  receipt : Receipt → ReceiptFile
  garbage : ReceiptFile

-- The directories of a relay, and those of the queue that it feeds.
pub record Disk : Type 0 where
  pub nonces : List (Str × NonceFile)
  pub pending : List (Str × ReceiptFile)
  pub committed : List (Str × ReceiptFile)
  pub queue : Queue.Disk.Disk

abbrev pub World : Type 0
World = Actions.World Disk

abbrev pub Store : Type 0 → Type 0
Store = Action Disk Error

unfoldable pub system_call : Store (Unit {0})
unfolding call_or
system_call = call_or Error.io

abbrev pub is_not_exist : Error → Bool
is_not_exist Error.not_exist = true
is_not_exist _ = false

abbrev pub is_exist : Error → Bool
is_exist Error.exist = true
is_exist _ = false

abbrev pub or_not_exist : {A : Type 0} → Option A → Store A
or_not_exist none = raise Error.not_exist
or_not_exist (some a) = pure a

-- A directory of the store: how its files are read and replaced.
pub record Place (F : Type 0) : Type 0 where
  pub files : Disk → List (Str × F)
  pub with_files : List (Str × F) → Disk → Disk

abbrev pub nonce_place : Place NonceFile
nonce_place = record { files = λ k. k.nonces; with_files = λ fs k. record k { nonces = fs } }

abbrev pub pending_place : Place ReceiptFile
pending_place = record { files = λ k. k.pending; with_files = λ fs k. record k { pending = fs } }

abbrev pub committed_place : Place ReceiptFile
committed_place = record {
  files = λ k. k.committed;
  with_files = λ fs k. record k { committed = fs };
}

-- `os.MkdirAll` and the permissions.
unfoldable pub ensure_private_directory : Store (Unit {0})
unfolding system_call ◌>>=◌
ensure_private_directory = do system_call; system_call

-- `os.Open` and `Sync`; `Close` is not looked at.
unfoldable pub sync_directory : Store (Unit {0})
unfolding system_call ◌>>=◌
sync_directory = do system_call; system_call

-- `os.Link`, which fails where the name is taken.
unfoldable pub link : {F : Type 0} → Place F → Str → F → Store (Unit {0})
unfolding system_call inspect modify raise ◌>>=◌
link d n f = do
  system_call
  taken ← inspect (λ k. is_some (lookup n (d.files k)))
  if taken then raise Error.exist else modify (λ k. d.with_files (insert n f (d.files k)) k)

-- The temporary file is made, given its permissions, written, synchronised and closed.
unfoldable pub write_new_private_json : {F : Type 0} → Place F → Str → F → Store (Unit {0})
unfolding ensure_private_directory sync_directory system_call link ◌>>=◌
write_new_private_json d n f = do
  ensure_private_directory
  ensure_private_directory
  system_call
  system_call
  system_call
  system_call
  system_call
  link d n f
  sync_directory

unfoldable pub read_file : {F : Type 0} → Place F → Str → Store F
unfolding system_call inspect ◌>>=◌
read_file d n = do system_call; found ← inspect (λ k. lookup n (d.files k)); or_not_exist found

-- `os.Remove`.
unfoldable pub remove : {F : Type 0} → Place F → Str → Store (Unit {0})
unfolding system_call inspect modify ◌>>=◌
remove d n = do
  system_call
  found ← inspect (λ k. lookup n (d.files k))
  _ ← or_not_exist found
  modify (λ k. d.with_files (delete n (d.files k)) k)

-- `err != nil && !errors.Is(err, os.ErrNotExist)`: a missing file is no error.
abbrev pub forgive : Result Error (Unit {0}) → Result Error (Unit {0})
forgive (ok _) = ok tt
forgive (err e) = if is_not_exist e then ok tt else err e

unfoldable pub remove_if_present : {F : Type 0} → Place F → Str → Store (Unit {0})
unfolding remove try ◌>>=◌
remove_if_present d n = do r ← try (remove d n); lift (forgive r)

unfoldable pub remove_private_file : {F : Type 0} → Place F → Str → Store (Unit {0})
unfolding remove_if_present sync_directory ◌>>=◌
remove_private_file d n = do remove_if_present d n; sync_directory
