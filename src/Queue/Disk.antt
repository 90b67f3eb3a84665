-- ===== src/Queue/Disk.antt =====
-- The directories of a queue and the system calls of core/internal/queue on them. A file is written
-- under a temporary name and then renamed, so only a rename changes a directory of the queue.
use agentbell.Common.{
  ℕ, Bool, true, false, List, Option, none, some, Str, lookup, insert, delete, Result, ok, err,
  if◌then◌else◌,
}
use agentbell.Queue.Types.{Envelope, Error}
use agentbell.Actions
use agentbell.Actions.{Action}
unfoldable pub use agentbell.Actions.{
  pure, raise, lift, continue_with, ◌>>=◌, ◌>>◌, ignore, try, call_or, inspect, modify,
}

-- What a file holds: an envelope, or bytes that `json.Unmarshal` rejects.
pub data File : Type 0 where
  envelope : Envelope → File
  garbage : File

abbrev pub Files : Type 0
Files = List (Str × File)

pub data Directory : Type 0 where
  pending inflight history dead : Directory

pub record Disk : Type 0 where
  pub pending_files : Files
  pub inflight_files : Files
  pub history_files : Files
  pub dead_files : Files
  pub keys : List (Str × Str)

abbrev pub files : Disk → Directory → Files
files k Directory.pending = k.pending_files
files k Directory.inflight = k.inflight_files
files k Directory.history = k.history_files
files k Directory.dead = k.dead_files

abbrev pub with_files : Disk → Directory → Files → Disk
with_files k Directory.pending fs = record k { pending_files = fs }
with_files k Directory.inflight fs = record k { inflight_files = fs }
with_files k Directory.history fs = record k { history_files = fs }
with_files k Directory.dead fs = record k { dead_files = fs }

-- The file of a directory.
abbrev pub file_at : Disk → Directory → Str → Option File
file_at k d name = lookup name (files k d)

abbrev pub World : Type 0
World = Actions.World Disk

-- A world in which no system call fails.
abbrev pub reliable : Disk → ℕ → World
reliable k n = record { disk = k; calls = n; fails = λ _. false }

abbrev pub Fs : Type 0 → Type 0
Fs = Action Disk Error

-- `errors.Is(err, os.ErrNotExist)` and `errors.Is(err, os.ErrExist)`.
abbrev pub is_not_exist : Error → Bool
is_not_exist Error.not_exist = true
is_not_exist _ = false

abbrev pub is_exist : Error → Bool
is_exist Error.exist = true
is_exist _ = false

-- `err != nil && !errors.Is(err, os.ErrNotExist)`: a missing file is no error.
abbrev pub forgive : Result Error (Unit {0}) → Result Error (Unit {0})
forgive (ok _) = ok tt
forgive (err e) = if is_not_exist e then ok tt else err e

unfoldable pub unless_missing : Fs (Unit {0}) → Fs (Unit {0})
unless_missing m w = let (r, w') = m w in (forgive r, w')

unfoldable pub system_call : Fs (Unit {0})
unfolding call_or
system_call = call_or Error.io

abbrev pub is_some {ℓ} : {A : Type ℓ} → Option A → Bool
is_some none = false
is_some (some a) = true

abbrev pub put_file : Directory → Str → File → Disk → Disk
put_file d name f k = with_files k d (insert name f (files k d))

abbrev pub delete_file : Directory → Str → Disk → Disk
delete_file d name k = with_files k d (delete name (files k d))

-- `os.Stat`, with the answer whether the file exists.
unfoldable pub stat : Directory → Str → Fs Bool
unfolding system_call inspect ◌>>=◌
stat d name = do system_call; inspect (λ k. is_some (file_at k d name))

abbrev pub or_missing : {A : Type 0} → Option A → Fs A
or_missing none = raise Error.not_exist
or_missing (some a) = pure a

-- `os.ReadFile` and `json.Unmarshal`.
unfoldable pub read_file : Directory → Str → Fs File
unfolding system_call inspect ◌>>=◌
read_file d name = do system_call; found ← inspect (λ k. file_at k d name); or_missing found

-- `os.Remove`.
unfoldable pub remove : Directory → Str → Fs (Unit {0})
unfolding system_call inspect modify ◌>>=◌
remove d name = do
  system_call
  found ← inspect (λ k. file_at k d name)
  _ ← or_missing found
  modify (delete_file d name)
