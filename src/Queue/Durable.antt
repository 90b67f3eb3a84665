-- ===== src/Queue/Durable.antt =====
-- The invariant of core/internal/queue: a name of an item is sound while some directory has a file
-- of that name, and every file of that name, in whichever directory, is an envelope that
-- `listUnlocked` accepts.
mod Files
pub mod Calls
mod Lists
mod Moves
mod Recovery
pub mod Runs
pub mod Markers
mod Tests
use agentbell.Common.{
  ℕ, Bool, true, false, ◌&&◌, Str, codes, has_suffix, str_eq, str_eq_iff, str_eq_refl, Option, none,
  some, lookup-insert, lookup-delete, ◌≡◌, refl, ◌↔◌, if◌then◌else◌, arith,
}
use agentbell.Queue.Types.{Envelope, Error}
use agentbell.Queue.Disk.{File, Directory, Disk, Fs, file_at, put_file, delete_file}
use agentbell.Queue.Listing.{healthy}
use agentbell.Queue.Triple.{Triple}

abbrev pub same_directory : Directory → Directory → Bool
same_directory Directory.pending Directory.pending = true
same_directory Directory.inflight Directory.inflight = true
same_directory Directory.history Directory.history = true
same_directory Directory.dead Directory.dead = true
same_directory _ _ = false

pub same_directory-eq : (d d' : Directory) → same_directory d d' ≡ true → d ≡ d'
same_directory-eq Directory.pending d' h = ground arith
same_directory-eq Directory.inflight d' h = ground arith
same_directory-eq Directory.history d' h = ground arith
same_directory-eq Directory.dead d' h = ground arith

pub file_at-put :
    (d d' : Directory) (n n' : Str) (f : File) (k : Disk)
    → file_at (put_file d n f k) d' n'
      ≡ (if same_directory d d' && str_eq n n' then some f else file_at k d' n')
file_at-put Directory.pending d' n n' f k = ground (arith, lookup-insert n n' f k.pending_files)
file_at-put Directory.inflight d' n n' f k = ground (arith, lookup-insert n n' f k.inflight_files)
file_at-put Directory.history d' n n' f k = ground (arith, lookup-insert n n' f k.history_files)
file_at-put Directory.dead d' n n' f k = ground (arith, lookup-insert n n' f k.dead_files)

pub file_at-delete :
    (d d' : Directory) (n n' : Str) (k : Disk)
    → file_at (delete_file d n k) d' n'
      ≡ (if same_directory d d' && str_eq n n' then none else file_at k d' n')
file_at-delete Directory.pending d' n n' k = ground (arith, lookup-delete n n' k.pending_files)
file_at-delete Directory.inflight d' n n' k = ground (arith, lookup-delete n n' k.inflight_files)
file_at-delete Directory.history d' n n' k = ground (arith, lookup-delete n n' k.history_files)
file_at-delete Directory.dead d' n n' k = ground (arith, lookup-delete n n' k.dead_files)

abbrev pub healthy_file : File → Bool
healthy_file (File.envelope e) = healthy e
healthy_file File.garbage = false

-- Some directory other than `d` has a file of the name.
abbrev pub Elsewhere : Directory → Str → Disk → Type 0
Elsewhere d name k =
    (d' : Directory) × (f : File) × (same_directory d d' ≡ false) × (file_at k d' name ≡ some f)

pub record IsSound (name : Str) (k : Disk) : Type 0 where
  pub place : Directory
  pub file : File
  pub somewhere : file_at k place name ≡ some file
  pub everywhere : (d : Directory) (f : File) → file_at k d name ≡ some f → healthy_file f ≡ true

-- The action leaves a sound name sound, with every result and under every schedule of failures.
abbrev pub KeepsSound : {A : Type 0} → Str → Fs A → Type 0
KeepsSound name m = Triple (IsSound name) m (λ _. IsSound name) (λ _. IsSound name)
