-- ===== src/Relay/Nonce.antt =====
-- core/internal/relay/nonce.go: the store of nonces, each in a file named by its peer and itself. The
-- loop of `Accept` runs on fuel; the error `stuck` is of the model and stands for its end. The store
-- takes no lock: its operations are modelled as running one after the other.
pub mod Reserved
pub mod Replay
pub mod Answer
use agentbell.Common.{
  ℕ, zero, suc, ◌+◌, ◌*◌, ◌^◌, Bool, true, false, ◌&&◌, not, List, [], ◌∷◌, ◌++◌, Str, codes,
  has_suffix, ltb, leb, ◌==◌, map, Result, ok, err, if◌then◌else◌,
}
use agentbell.Common.Int.{ℤ, pos, negsuc}
use agentbell.Relay.{Invalid, Host}
use agentbell.Relay.Protocol.{validate_identifier, validate_nonce, hex}
use agentbell.Relay.Storage.{
  Error, NonceRecord, NonceFile, Disk, Store, system_call, is_exist, is_not_exist, nonce_place,
  write_new_private_json, read_file, remove_if_present, pure, raise, lift, ◌>>=◌, ◌>>◌, try,
  inspect,
}

-- 10 minutes.
abbrev pub minimum_nonce_retention : ℕ
minimum_nonce_retention = 600 * 10 ^ 9

-- The retention that `OpenNonceStore` keeps.
abbrev pub kept_retention : ℕ → ℕ
kept_retention r = if ltb r minimum_nonce_retention then minimum_nonce_retention else r

abbrev pub is_version_one : ℤ → Bool
is_version_one (pos n) = n == 1
is_version_one (negsuc n) = false

abbrev pub is_whole : NonceRecord → Bool
is_whole r = is_version_one r.version && not (r.expires_at == 0)

abbrev pub checked {ℓ} : {A : Type ℓ} → Result Invalid A → Result Error A
checked (ok a) = ok a
checked (err e) = err (Error.rejected e)

abbrev pub new_record : ℕ → ℕ → NonceRecord
new_record retention now = record { version = pos 1; seen_at = now; expires_at = now + retention }

-- `expired`, once the file was read: a file that is no record counts by its own time.
abbrev pub expired_file : ℕ → ℕ → NonceFile → Store Bool
expired_file retention now (NonceFile.partial at) = do system_call; pure (leb (at + retention) now)
expired_file retention now (NonceFile.whole r at) =
    if is_whole r
    then pure (leb r.expires_at now)
    else (do system_call; pure (leb (at + retention) now))

abbrev pub expired_result : ℕ → ℕ → Result Error NonceFile → Store Bool
expired_result retention now (ok f) = expired_file retention now f
expired_result retention now (err e) = if is_not_exist e then pure true else raise e

unfoldable pub expired : ℕ → Str → ℕ → Store Bool
unfolding system_call read_file try pure raise ◌>>=◌
expired retention path now = do r ← try (read_file nonce_place path); expired_result retention now r

-- What follows the writing of the record: only a name that is taken is looked at again.
abbrev pub after_write : Store Bool → Result Error (Unit {0}) → Store Bool
after_write taken (ok _) = pure true
after_write taken (err e) = if is_exist e then taken else raise e

-- Where the name is taken: an expired file is removed, and the loop goes on.
unfoldable pub reclaim : Store Bool → ℕ → Str → ℕ → Store Bool
unfolding expired remove_if_present pure ◌>>=◌
reclaim again retention path now = do
  old ← expired retention path now
  if old then remove_if_present nonce_place path >> again else pure false

-- One round of the loop. The file is written with the time `now`.
unfoldable pub accept_round : Store Bool → ℕ → Str → ℕ → Store Bool
unfolding write_new_private_json try reclaim pure raise ◌>>=◌
accept_round again retention path now = do
  r ← try (write_new_private_json nonce_place path (NonceFile.whole (new_record retention now) now))
  after_write (reclaim again retention path now) r

unfoldable pub accept_loop : ℕ → ℕ → Str → ℕ → Store Bool
unfolding accept_round raise
accept_loop zero retention path now = raise Error.stuck
accept_loop (suc fuel) retention path now =
    accept_round (accept_loop fuel retention path now) retention path now

-- `entry.IsDir` is false of all entries. The number of files removed.
unfoldable pub cleanup_entries : ℕ → ℕ → List Str → ℕ → Store ℕ
unfolding has_suffix expired remove_if_present pure ◌>>=◌
cleanup_entries retention now [] removed = pure removed
cleanup_entries retention now (n ∷ ns) removed =
    let skip = cleanup_entries retention now ns removed in
    let next = cleanup_entries retention now ns (suc removed) in
    if not (has_suffix n (codes ".json")) then skip else (do
      old ← expired retention n now
      if old then remove_if_present nonce_place n >> next else skip)

unfoldable pub cleanup : ℕ → ℕ → Store ℕ
unfolding system_call inspect cleanup_entries raise ◌>>=◌
cleanup retention now = if now == 0 then raise Error.no_time else (do
  system_call
  names ← inspect (λ k. map (λ e. e.0) k.nonces)
  cleanup_entries retention now names 0)

module _ (h : Host) where
  unfoldable pub nonce_path : Str → Str → Str
  unfolding hex
  nonce_path peer nonce = hex (h.sha256 (peer ++ (0 ∷ nonce))) ++ codes ".json"

  -- Two rounds: the second finds no file, once the first has removed an expired one.
  unfoldable pub accept : ℕ → Str → Str → ℕ → Store Bool
  unfolding validate_identifier validate_nonce accept_loop nonce_path raise ◌>>=◌
  accept retention peer nonce now = do
    lift (checked (validate_identifier (codes "peer id") peer))
    lift (checked (validate_nonce nonce))
    if now == 0 then raise Error.no_time else accept_loop 2 retention (nonce_path peer nonce) now
