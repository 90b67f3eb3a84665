-- ===== src/Queue/Durable/Tests.antt =====
-- core/internal/queue: runs in which system calls fail.
use agentbell.Common.{
  subst, List, [], ◌∷◌, none, some, Str, codes, true, leb, refl, ◌≡◌, str_eq, lookup, has_suffix,
}
use agentbell.Common.Int.{pos}
use agentbell.Event.{Notification}
use agentbell.Queue.Types.{disposition_eq, State, Disposition, Envelope}
use agentbell.Queue.Ledger.{validate_delivery_envelope, validate_ledger}
use agentbell.Queue.Disk.{File, Directory, World, file_at}
use agentbell.Queue.Listing.{healthy}
use agentbell.Queue.Durable.{IsSound, healthy_file}
use agentbell.Queue.Durable.Runs.{QueueCall, run, run-IsSound}

abbrev done : Notification
done = record {
  version = codes "1";
  source = codes "codex";
  surface = codes "cli";
  runtime = codes "host";
  event = codes "task.completed";
  status = codes "completed";
  occurred_at = 5;
  session_id = [];
  task_id = [];
  turn_id = [];
  idempotency_key = codes "k";
  priority = codes "normal";
  privacy_level = codes "summary";
  project = [];
  cwd = [];
  summary = [];
}

abbrev waiting : Envelope
waiting = record {
  queue_version = 1;
  id = codes "a";
  state = State.pending;
  event = done;
  attempts = pos 0;
  created_at = 5;
  updated_at = 5;
  next_attempt_at = 0;
  lease_until = 0;
  last_error = [];
  manual_retries = pos 0;
  last_retried_at = 0;
  ledger = none;
  disposition = Disposition.unset;
}

abbrev name : Str
name = codes "5-a.json"

-- One pending item, and every system call from the twelfth on fails.
abbrev start : World
start = record {
  disk = record {
    pending_files = (name, File.envelope waiting) ∷ [];
    inflight_files = [];
    history_files = [];
    dead_files = [];
    keys = [];
  };
  calls = 0;
  fails = λ n. leb 11 n;
}

waiting-healthy : healthy waiting ≡ true
unfolding healthy validate_delivery_envelope validate_ledger disposition_eq
waiting-healthy = refl

start_files :
    (d : Directory) (f : File) → file_at start.disk d name ≡ some f → healthy_file f ≡ true
unfolding lookup str_eq
start_files Directory.pending f h =
    let same : File.envelope waiting ≡ f = cc in
    subst (λ g. healthy_file g ≡ true) same waiting-healthy
start_files Directory.inflight f h = cc
start_files Directory.history f h = cc
start_files Directory.dead f h = cc

start-IsSound : IsSound name start.disk
unfolding lookup str_eq
start-IsSound = record {
  place = Directory.pending;
  file = File.envelope waiting;
  somewhere = refl;
  everywhere = start_files;
}

name_is_json : has_suffix name (codes ".json") ≡ true
unfolding has_suffix str_eq
name_is_json = refl

nacked-healthy : healthy (record waiting { state = State.inflight }) ≡ true
unfolding healthy validate_delivery_envelope validate_ledger disposition_eq
nacked-healthy = refl

abbrev calls : List QueueCall
calls =
    QueueCall.claims 6 30
    ∷ QueueCall.nacks
        (record { envelope = record waiting { state = State.inflight }; file_name = name })
        (some (codes "late")) 7 (2 ∷ 3 ∷ [])
    ∷ QueueCall.recovers 90
    ∷ []

run-IsSound_example : IsSound name (run start calls).disk
run-IsSound_example =
    run-IsSound name name_is_json calls start (tt, (nacked-healthy, (tt, tt))) start-IsSound
