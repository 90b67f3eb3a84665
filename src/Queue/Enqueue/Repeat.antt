-- ===== src/Queue/Enqueue/Repeat.antt =====
-- core/internal/queue/queue.go: `Enqueue` of a key whose item is already in the queue.
use agentbell.Common.{
  All, ℕ, Bool, true, false, List, ◌∷◌, ◌++◌, some, Str, codes, is_empty, has_suffix, lookup,
  Result, ok, err, ◌≡◌, refl, ap, ◌∙◌, ok-injective,
}
use agentbell.Event
use agentbell.Event.{Notification}
use agentbell.Queue.Types.{Error}
use agentbell.Queue.Disk.{File, Directory, Disk, World, reliable, files, file_at, ◌>>=◌}
use agentbell.Queue.Durable.{healthy_file}
use agentbell.Queue.Durable.Runs.{QueueCall, IsHealthyCall, run, run-IsSound}
use agentbell.Queue.Durable.Markers.Runs.{run-keys}
use agentbell.Queue.Triple.{Post}
use agentbell.Queue.Enqueue.{
  trim_space, item_suffix, item_name, padded, unix_nano, reserve, enqueue, Wait,
}
use agentbell.Queue.Enqueue.Reservation.{Holds, Fresh, enqueue-IsDurable}
use agentbell.Queue.Enqueue.Found.{IsTaken, reserve-found, has_suffix-append, has_suffix-behind}

enqueue_reserves :
    (key_file : Str → Str) (n : Notification) (key : Str) (now : ℕ) (id : Str) (waits : List Wait)
    (w : World)
    → Event.validate n ≡ ok tt
    → n.idempotency_key ≡ key
    → enqueue key_file n now (some id) waits w ≡ reserve (key_file key) id n now waits w
unfolding enqueue ◌>>=◌
enqueue_reserves key_file n key now id waits w valid same = rw (valid, same)

-- What a first enqueueing left is found by the second.
Fresh-Holds :
    (key id : Str) (n : Notification) (now : ℕ) (r : Result Error (Str × Bool)) (k : Disk)
    → Post (Fresh key id n now) (λ e _. Unit {0}) r k
    → r ≡ ok (id, false)
    → Holds key id n now k
unfolding Fresh
Fresh-Holds key id n now (ok a) k q e = (q (ap (λ x. x.1) (ok-injective e))).1
Fresh-Holds key id n now (err x) k q e = absurd (cc)

item_name-json : (now : ℕ) (id : Str) → has_suffix (item_name now id) (codes ".json") ≡ true
unfolding item_name
item_name-json now id =
    has_suffix-behind (padded 20 (unix_nano now)) (item_suffix id) (codes ".json") (
      has_suffix-behind (codes "-") (id ++ codes ".json") (codes ".json")
        (has_suffix-append id (codes ".json")))

item_name-suffix : (now : ℕ) (id : Str) → has_suffix (item_name now id) (item_suffix id) ≡ true
unfolding item_name
item_name-suffix now id = has_suffix-append (padded 20 (unix_nano now)) (item_suffix id)

-- What an enqueueing left is still there after any operations on items.
run-IsTaken :
    (key id : Str) (n : Notification) (now : ℕ) (calls : List QueueCall) (w : World)
    → All IsHealthyCall calls
    → Holds key id n now w.disk
    → ((d : Directory) (f : File)
        → file_at w.disk d (item_name now id) ≡ some f
        → healthy_file f ≡ true)
    → IsTaken key id (run w calls).disk
run-IsTaken key id n now calls w healthy held files =
    let sound =
      run-IsSound (item_name now id) (item_name-json now id) calls w healthy
        record { place = Directory.pending; file = _; somewhere = held.item; everywhere = files } in
    record {
      marked = ap (λ keys. lookup key keys) (run-keys calls w refl) ∙ held.marked;
      name = item_name now id;
      place = sound.place;
      file = sound.file;
      there = sound.somewhere;
      named = item_name-suffix now id;
    }

-- Once `Enqueue` has taken a notification as new, under whichever failing system calls and with
-- whatever other processes did, and any operations on items have run, under whichever failing
-- system calls, so that the item may be claimed, done or dead, another `Enqueue` of a valid
-- notification with the key, where no system call fails and one wait is given, returns the id of the
-- first as a duplicate and changes nothing on disk. The operations are given items that the queue
-- accepts, and no file that has the item's name when they start is one that the queue rejects. The
-- id is not empty and not touched by `strings.TrimSpace`.
pub enqueue-enqueue :
    (key_file : Str → Str) (n n' : Notification) (now now' : ℕ) (id id' : Str)
    (waits vs : List Wait) (v : Wait) (calls : List QueueCall) (w : World) (c : ℕ)
    → trim_space (id ++ codes "\n") ≡ id
    → is_empty id ≡ false
    → n'.idempotency_key ≡ n.idempotency_key
    → Event.validate n' ≡ ok tt
    → (enqueue key_file n now (some id) waits w).0 ≡ ok (id, false)
    → All IsHealthyCall calls
    → ((d : Directory) (f : File)
        → file_at (enqueue key_file n now (some id) waits w).1.disk d (item_name now id) ≡ some f
        → healthy_file f ≡ true)
    → let later = (run (enqueue key_file n now (some id) waits w).1 calls).disk in
      (c' : ℕ) × (enqueue key_file n' now' (some id') (v ∷ vs) (reliable later c)
        ≡ (ok (id, true), reliable later c'))
enqueue-enqueue key_file n n' now now' id id' waits vs v calls w c plain full same valid first
      healthy files =
    let w₁ = (enqueue key_file n now (some id) waits w).1 in
    let held : Holds (key_file n.idempotency_key) id n now w₁.disk =
      Fresh-Holds (key_file n.idempotency_key) id n now _ _
        ((enqueue-IsDurable key_file n now id waits).at w tt) first in
    let taken = run-IsTaken (key_file n.idempotency_key) id n now calls w₁ healthy held files in
    let (c', e) =
      reserve-found (key_file n.idempotency_key) id (run w₁ calls).disk taken plain full id' n' now'
        v vs c in
    (
      c',
      enqueue_reserves key_file n' n.idempotency_key now' id' (v ∷ vs)
            (reliable (run w₁ calls).disk c) valid same
          ∙ e,
    )
