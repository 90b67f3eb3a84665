-- ===== src/Relay/Storage/Reliable.antt =====
-- core/internal/relay/storage.go: what the system calls do where none of them fails.
use agentbell.Common.{
  ℕ, suc, ◌+◌, true, false, none, some, Str, lookup, insert, delete, ok, err, ◌≡◌, ap, arith,
}
use agentbell.Queue.Disk.{is_some}
use agentbell.Relay.Storage.{
  Error, Disk, World, Place, write_new_private_json, read_file, remove_if_present,
  ensure_private_directory, sync_directory, link, system_call, remove, ◌>>=◌, raise, pure, inspect,
  modify, try,
}

-- A world in which no system call fails.
abbrev pub reliable : Disk → ℕ → World
reliable k n = record { disk = k; calls = n; fails = λ _. false }

module _ {F : Type 0} (d : Place F) (n : Str) (k : Disk) (c : ℕ) where
  pub write_new-taken :
      (f : F)
      → is_some (lookup n (d.files k)) ≡ true
      → write_new_private_json d n f (reliable k c) ≡ (err Error.exist, reliable k (c + 10))
  unfolding write_new_private_json ensure_private_directory sync_directory link system_call ◌>>=◌
      raise pure inspect modify
  write_new-taken f e = rw e (ap (λ x. (err Error.exist, reliable k x)) (omega arith))

  pub write_new-free :
      (f : F)
      → is_some (lookup n (d.files k)) ≡ false
      → write_new_private_json d n f (reliable k c)
        ≡ (ok tt, reliable (d.with_files (insert n f (d.files k)) k) (c + 12))
  unfolding write_new_private_json ensure_private_directory sync_directory link system_call ◌>>=◌
      raise pure inspect modify
  write_new-free f e =
      rw e (ap (λ x. (ok tt, reliable (d.with_files (insert n f (d.files k)) k) x)) (omega arith))

  pub read_file-found :
      (f : F)
      → lookup n (d.files k) ≡ some f
      → read_file d n (reliable k c) ≡ (ok f, reliable k (suc c))
  unfolding read_file system_call ◌>>=◌ raise pure inspect
  read_file-found f e = rw e

  pub read_file-missing :
      lookup n (d.files k) ≡ none
      → read_file d n (reliable k c) ≡ (err Error.not_exist, reliable k (suc c))
  unfolding read_file system_call ◌>>=◌ raise pure inspect
  read_file-missing e = rw e

  pub remove-found :
      (f : F)
      → lookup n (d.files k) ≡ some f
      → remove_if_present d n (reliable k c)
        ≡ (ok tt, reliable (d.with_files (delete n (d.files k)) k) (suc c))
  unfolding remove_if_present remove system_call ◌>>=◌ raise pure inspect modify try
  remove-found f e = rw e
