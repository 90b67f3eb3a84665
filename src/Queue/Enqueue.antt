-- ===== src/Queue/Enqueue.antt =====
-- core/internal/queue/queue.go: `Enqueue` with its reservation of the idempotency key. What other
-- processes do while `waitForDurableReservation` sleeps, whether the marker is more than a second
-- old, and how often the reservation is tried again are an argument: one `Wait` to a try. The error
-- `contended` is of the model: the tries that were given did not suffice. An id is hexadecimal, so
-- the pattern of `itemExists` has no other wildcard than its star. Instants are not before 1970.
pub mod Reservation
mod Found
pub mod Repeat
mod Tests
use agentbell.Common.{
  ℕ, zero, suc, ◌+◌, ◌-◌, ◌*◌, ◌/◌, ◌%◌, ◌^◌, Bool, true, false, ◌&&◌, ◌||◌, not, List, [], ◌∷◌,
  ◌++◌, Option, none, some, Str, codes, is_empty, has_suffix, lookup, insert, delete, leb, ◌==◌,
  Result, ok, err, if◌then◌else◌,
}
use agentbell.Common.Int.{pos}
use agentbell.Event
use agentbell.Event.{Notification}
use agentbell.Queue.Types.{State, Disposition, Envelope, Error}
use agentbell.Queue.Disk.{
  Directory, Disk, Files, Fs, files, pure, raise, lift, ◌>>=◌, ◌>>◌, ignore, try, inspect, modify,
  system_call, is_some, is_exist, is_not_exist,
}
use agentbell.Queue.Listing.{write_new}

-- White space of ASCII, which `strings.TrimSpace` cuts.
abbrev pub is_space : ℕ → Bool
is_space c = c == 32 || (leb 9 c && leb c 13)

unfoldable pub trim_left : Str → Str
trim_left [] = []
trim_left (c ∷ s) = let rest = trim_left s in if is_space c then rest else c ∷ s

unfoldable pub trim_right : Str → Str
trim_right [] = []
trim_right (c ∷ s) = let rest = trim_right s in if is_space c && is_empty rest then [] else c ∷ rest

unfoldable pub trim_space : Str → Str
unfolding trim_left trim_right
trim_space s = trim_right (trim_left s)

-- `%0nd`: the last digits of a number.
unfoldable pub padded : ℕ → ℕ → Str
padded zero n = []
padded (suc k) n = padded k (n / 10) ++ ((48 + n % 10) ∷ [])

-- `UnixNano`: 1970 is 62135596800 seconds behind Go's zero time.
abbrev pub unix_nano : ℕ → ℕ
unix_nano now = now - 62_135_596_800 * 10 ^ 9

abbrev pub item_suffix : Str → Str
item_suffix id = codes "-" ++ (id ++ codes ".json")

-- `fmt.Sprintf("%020d-%s.json", …)`.
unfoldable pub item_name : ℕ → Str → Str
unfolding padded
item_name now id = padded 20 (unix_nano now) ++ item_suffix id

unfoldable pub new_envelope : Str → Notification → ℕ → Envelope
new_envelope id n now = record {
  queue_version = 1;
  id = id;
  state = State.pending;
  event = n;
  attempts = pos 0;
  created_at = now;
  updated_at = now;
  next_attempt_at = 0;
  lease_until = 0;
  last_error = [];
  manual_retries = pos 0;
  last_retried_at = 0;
  ledger = none;
  disposition = Disposition.unset;
}

abbrev pub marker : Str → Disk → Option Str
marker key k = lookup key k.keys

abbrev pub put_marker : Str → Str → Disk → Disk
put_marker key text k = record k { keys = insert key text k.keys }

-- `os.OpenFile` with `O_EXCL`.
unfoldable pub open_marker : Str → Fs (Unit {0})
unfolding system_call inspect modify raise ◌>>=◌
open_marker key = do
  system_call
  present ← inspect (λ k. is_some (marker key k))
  if present then raise Error.exist else modify (put_marker key [])

-- `io.WriteString`, which here writes all or nothing.
unfoldable pub write_marker : Str → Str → Fs (Unit {0})
unfolding system_call modify ◌>>=◌
write_marker key text = do system_call; modify (put_marker key text)

abbrev pub or_not_exist : {A : Type 0} → Option A → Fs A
or_not_exist none = raise Error.not_exist
or_not_exist (some a) = pure a

unfoldable pub read_marker : Str → Fs Str
unfolding system_call inspect ◌>>=◌
read_marker key = do system_call; found ← inspect (marker key); or_not_exist found

unfoldable pub remove_marker : Str → Fs (Unit {0})
unfolding system_call inspect modify ◌>>=◌
remove_marker key = do
  system_call
  found ← inspect (marker key)
  _ ← or_not_exist found
  modify (λ k. record k { keys = delete key k.keys })

-- Whether a name of a directory ends as the items of an id do.
unfoldable pub any_match : Str → Files → Bool
unfolding has_suffix
any_match id [] = false
any_match id ((n, f) ∷ fs) = has_suffix n (item_suffix id) || any_match id fs

-- `filepath.Glob`, which finds nothing where a directory cannot be read.
unfoldable pub glob : Directory → Str → Fs Bool
unfolding system_call inspect try any_match pure ◌>>=◌
glob d id = do
  r ← try system_call
  elim r [ err e ↦ pure false | ok _ ↦ inspect (λ k. any_match id (files k d)) ]

unfoldable pub item_exists : Str → Fs Bool
unfolding glob pure ◌>>=◌
item_exists id = do
  in_pending ← glob Directory.pending id
  if in_pending then pure true else (do
    in_inflight ← glob Directory.inflight id
    if in_inflight then pure true else (do
      in_history ← glob Directory.history id
      if in_history then pure true else glob Directory.dead id))

-- A missing marker makes `Enqueue` try again.
abbrev pub retry_if_missing {ℓ} : {A : Type ℓ} → Result Error A → Result Error A
retry_if_missing (ok a) = ok a
retry_if_missing (err e) = if is_not_exist e then err Error.retry_reservation else err e

unfoldable pub else_retry : {A : Type 0} → Fs A → Fs A
else_retry m w = let (r, w') = m w in (retry_if_missing r, w')

-- The id of a marker, if it has an item.
unfoldable pub durable_id : Str → Fs Bool
unfolding item_exists pure
durable_id id = if is_empty id then pure false else item_exists id

-- `os.Remove` of a stale marker, where a missing one is no error.
abbrev pub forgiven : Result Error (Unit {0}) → Fs Str
forgiven (ok _) = raise Error.retry_reservation
forgiven (err e) = if is_not_exist e then raise Error.retry_reservation else raise e

-- Behind the deadline.
unfoldable pub give_up : Str → Bool → Fs Str
unfolding read_marker else_retry remove_marker try raise ◌>>=◌
give_up key stale = do
  else_retry (do system_call; found ← inspect (marker key); _ ← or_not_exist found; pure tt)
  if stale then (do r ← try (remove_marker key); forgiven r) else raise Error.not_durable

-- One poll of the marker.
unfoldable pub poll : Str → Fs Str → Fs Str
unfolding else_retry read_marker trim_space durable_id pure ◌>>=◌
poll key otherwise = do
  text ← else_retry (read_marker key)
  durable ← durable_id (trim_space text)
  if durable then pure (trim_space text) else otherwise

-- `waitForDurableReservation`: other processes act between two polls, the last of which is behind
-- the deadline.
unfoldable pub wait_for : Str → List (Disk → Disk) → Bool → Fs Str
unfolding poll give_up modify ◌>>=◌
wait_for key [] stale = poll key (give_up key stale)
wait_for key (act ∷ acts) stale = poll key (modify act >> wait_for key acts stale)

pub record Wait : Type 0 where
  pub acts : List (Disk → Disk)
  pub stale : Bool

-- What stands between the reservation and the success of `Enqueue`.
unfoldable pub publish : Str → Str → Notification → ℕ → Fs (Unit {0})
unfolding write_marker write_new system_call item_name new_envelope ◌>>=◌
publish key id n now = do
  write_marker key (id ++ codes "\n")
  system_call
  system_call
  write_new Directory.pending (item_name now id) (new_envelope id n now)

-- The deferred function: the file is closed, and its marker removed unless it was committed.
abbrev pub clean_up : Str → Str → Result Error (Unit {0}) → Fs (Str × Bool)
clean_up key id (ok _) = ignore system_call >> pure (id, false)
clean_up key id (err e) = ignore system_call >> (ignore (remove_marker key) >> raise e)

unfoldable pub publish_or_clean : Str → Str → Notification → ℕ → Fs (Str × Bool)
unfolding publish try ignore system_call remove_marker pure raise ◌>>=◌
publish_or_clean key id n now = do r ← try (publish key id n now); clean_up key id r

-- What follows a wait: the id that was found, another try, or an error.
abbrev pub after_wait : Fs (Str × Bool) → Result Error Str → Fs (Str × Bool)
after_wait again (ok id) = pure (id, true)
after_wait again (err Error.retry_reservation) = again
after_wait again (err e) = raise e

abbrev pub after_open :
    Fs (Str × Bool) → Fs (Str × Bool) → Result Error (Unit {0}) → Fs (Str × Bool)
after_open fresh taken (ok _) = fresh
after_open fresh taken (err e) = if is_exist e then taken else raise e

-- The label `reserve` and what follows it.
unfoldable pub reserve : Str → Str → Notification → ℕ → List Wait → Fs (Str × Bool)
unfolding open_marker try publish_or_clean wait_for raise ◌>>=◌
reserve key id n now [] = do
  r ← try (open_marker key)
  after_open (publish_or_clean key id n now) (raise Error.contended) r
reserve key id n now (w ∷ ws) =
    let again = reserve key id n now ws in
    do
      r ← try (open_marker key)
      after_open (publish_or_clean key id n now)
          (do found ← try (wait_for key w.acts w.stale); after_wait again found) r

abbrev pub checked : Result Event.Invalid (Unit {0}) → Result Error (Unit {0})
checked (ok _) = ok tt
checked (err e) = err (Error.notification e)

abbrev pub random_id : Option Str → Result Error Str
random_id none = err Error.random
random_id (some id) = ok id

-- The id and whether it is a duplicate. The bytes of `randomID` are an argument, and the name of a
-- marker, `idempotencyFileName`, is a parameter.
module _ (key_file : Str → Str) where
  unfoldable pub enqueue : Notification → ℕ → Option Str → List Wait → Fs (Str × Bool)
  unfolding reserve ◌>>=◌
  enqueue n now random waits = do
    lift (checked (Event.validate n))
    id ← lift (random_id random)
    reserve (key_file n.idempotency_key) id n now waits
