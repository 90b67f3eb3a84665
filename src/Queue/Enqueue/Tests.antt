-- ===== src/Queue/Enqueue/Tests.antt =====
-- core/internal/queue/queue.go: `Enqueue` on empty directories.
use agentbell.Common.{
  ℕ, ◌+◌, ◌∷◌, ◌*◌, ◌^◌, true, false, [], some, codes, ok, ◌≡◌, refl, lookup, insert, contains,
  str_eq, subst,
}
use agentbell.Event.{Notification, leaks_metadata, validate}
use agentbell.Queue.Disk.{File, Directory, Disk, World, file_at, reliable}
use agentbell.Queue.Types.{disposition_eq}
use agentbell.Queue.Ledger.{validate_delivery_envelope, validate_ledger}
use agentbell.Queue.Listing.{healthy}
use agentbell.Queue.Durable.{healthy_file}
use agentbell.Queue.Durable.Runs.{QueueCall, run}
use agentbell.Queue.Triple.{Triple}
use agentbell.Queue.Enqueue.{enqueue, trim_space, item_name, new_envelope}
use agentbell.Queue.Enqueue.Repeat.{enqueue-enqueue}
use agentbell.Queue.Enqueue.Reservation.{Fresh, enqueue-IsDurable}

abbrev now : ℕ
now = 70_000_000_000 * 10 ^ 9

abbrev bell : Notification
bell = record {
  version = codes "1";
  source = codes "codex";
  surface = codes "cli";
  runtime = codes "host";
  event = codes "task.completed";
  status = codes "completed";
  occurred_at = now;
  session_id = codes "s";
  task_id = [];
  turn_id = [];
  idempotency_key = codes "k";
  priority = codes "normal";
  privacy_level = codes "metadata-only";
  project = [];
  cwd = [];
  summary = [];
}

abbrev empty : Disk
empty = record {
  pending_files = [];
  inflight_files = [];
  history_files = [];
  dead_files = [];
  keys = [];
}

enqueued :
    (enqueue
      (λ k. k)
      bell
      now
      (some (codes "00ff"))
      []
      record { disk = empty; calls = 0; fails = λ n. false }).0
    ≡ ok (codes "00ff", false)
unfolding enqueue leaks_metadata lookup insert validate contains
enqueued = refl

enqueue-IsDurable_example :
    Triple
      (λ k. Unit {0})
      (enqueue (λ k. k) bell now (some (codes "00ff")) [])
      (Fresh (codes "k") (codes "00ff") bell now)
      (λ e k. Unit {0})
enqueue-IsDurable_example = enqueue-IsDurable (λ k. k) bell now (codes "00ff") []

abbrev later : World
later = (enqueue (λ k. k) bell now (some (codes "00ff")) [] (reliable empty 0)).1

enqueued_file :
    (d : Directory) (f : File)
    → file_at later.disk d (item_name now (codes "00ff")) ≡ some f
    → healthy_file f ≡ true
unfolding enqueue leaks_metadata lookup insert validate contains str_eq item_name healthy
    validate_delivery_envelope validate_ledger disposition_eq
enqueued_file Directory.pending f h =
    let there : file_at later.disk Directory.pending (item_name now (codes "00ff"))
        ≡ some (File.envelope (new_envelope (codes "00ff") bell now)) =
      refl in
    let same : File.envelope (new_envelope (codes "00ff") bell now) ≡ f = cc in
    subst (λ g. healthy_file g ≡ true) same refl
enqueued_file Directory.inflight f h = cc
enqueued_file Directory.history f h = cc
enqueued_file Directory.dead f h = cc

-- The item has been claimed in between.
enqueue-enqueue_example :
    (c' : ℕ) × (enqueue
        (λ k. k)
        bell
        (now + 5)
        (some (codes "11ff"))
        (record { acts = []; stale = false } ∷ [])
        (reliable (run later (QueueCall.claims (now + 1) 30 ∷ [])).disk 0)
      ≡ (
        ok (codes "00ff", true),
        reliable (run later (QueueCall.claims (now + 1) 30 ∷ [])).disk c',
      ))
unfolding enqueue leaks_metadata lookup insert validate contains trim_space
enqueue-enqueue_example =
    enqueue-enqueue (λ k. k) bell bell now (now + 5) (codes "00ff") (codes "11ff") [] []
      record { acts = []; stale = false } (QueueCall.claims (now + 1) 30 ∷ []) (reliable empty 0) 0
      refl refl refl refl refl (tt, tt) enqueued_file
