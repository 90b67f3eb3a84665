-- ===== src/Relay/Tests.antt =====
-- The theorems of the relay at concrete requests.
use agentbell.Common.{
  ℕ, zero, suc, ◌+◌, ◌*◌, ◌^◌, true, false, not, [], ◌∷◌, some, Str, codes, str_eq, str_eq_iff,
  str_eq_refl, ap, length, lookup, insert, Result, ok, err, ◌≡◌, ◌≢◌, refl, arith, ◌==◌,
}
use agentbell.Common.Int.{pos}
use agentbell.Event.{Notification, leaks_metadata}
use agentbell.Queue
use agentbell.Actions.Triple.{Triple}
use agentbell.Relay.{Envelope, Peer, Host}
use agentbell.Relay.Protocol.{
  decode, validate, validate_peer, verify, verify_peer, sign, derive_delivery_key, scope_ingest,
  validate_identifier, validate_nonce,
}
use agentbell.Relay.Protocol.Verified.{IsAllowed, verify_peer-IsAllowed, verify-sign}
use agentbell.Relay.Storage.{Error, Receipt, ReceiptFile, NonceFile, Disk, World}
use agentbell.Relay.Storage.Reliable.{reliable}
use agentbell.Relay.Receipt.{receipt_id, body_digest, receipt_name, state_committed, is_valid}
use agentbell.Relay.Ingress.Request.{IngressRequest, Ingress, Call, verified}
use agentbell.Relay.Ingress.{accept, IngressAck}
use agentbell.Relay.Ingress.Acknowledged.{IsAcknowledged, accept-IsAcknowledged}
use agentbell.Relay.Ingress.Answer.{accept-repeats, accept-conflicts, accept-burnt}
use agentbell.Relay.Nonce
use agentbell.Relay.Nonce.{nonce_path, new_record, minimum_nonce_retention}
use agentbell.Relay.Nonce.Replay.{accept_op, cleanup_op, run, accept-no_replay}
use agentbell.Relay.Nonce.Answer.{is_late, reserved_until, accept-answer}

-- The first bytes of a text, with zeros behind a short one.
abbrev fit : ℕ → Str → Str
fit zero s = []
fit (suc n) [] = 0 ∷ fit n []
fit (suc n) (c ∷ s) = c ∷ fit n s

length-fit : (n : ℕ) (s : Str) → length (fit n s) ≡ n
length-fit zero s = refl
length-fit (suc n) [] = ap suc (length-fit n [])
length-fit (suc n) (c ∷ s) = ap suc (length-fit n s)

abbrev key : Str
key = codes "sha256:6167656e7462656c6c2d72656c61792d64656c69766572792d76310000000474"

abbrev notification : Notification
notification = record {
  version = codes "1";
  source = codes "codex";
  surface = codes "cli";
  runtime = codes "ssh";
  event = codes "task.completed";
  status = codes "completed";
  occurred_at = 70_000_000_000 * 10 ^ 9;
  session_id = codes "s";
  task_id = [];
  turn_id = [];
  idempotency_key = codes "producer";
  priority = codes "normal";
  privacy_level = codes "metadata-only";
  project = [];
  cwd = [];
  summary = [];
}

abbrev nonce : Str
nonce = codes "0123456789abcdef0123456789abcdef"

abbrev envelope : Envelope
envelope = record {
  protocol_version = codes "1";
  team_id = codes "team";
  origin = record { id = codes "laptop"; runtime = codes "ssh" };
  delivery = record { key = key; producer_key = codes "producer" };
  sent_at = 70_000_000_000 * 10 ^ 9;
  nonce = nonce;
  hop = pos 0;
  event = notification;
}

abbrev host : Host
host = record {
  sha256 = fit 32;
  ed25519_verify = λ public m s. str_eq s (fit 64 m);
  ed25519_sign = λ private m. fit 64 m;
  print_time = λ t. codes "2026-01-01T00:00:00Z";
  decode_json = λ body. ok envelope;
}

derived : derive_delivery_key host (codes "team") (codes "laptop") (codes "producer") ≡ ok key
unfolding derive_delivery_key
derived = refl

valid : validate host envelope ≡ ok tt
unfolding validate leaks_metadata
valid = refl

abbrev peer : Peer
peer = record {
  id = codes "laptop-key";
  team_id = codes "team";
  origin_id = codes "laptop";
  public_key = fit 32 [];
  scopes = scope_ingest ∷ [];
  allowed_sources = codes "codex" ∷ [];
  allowed_runtimes = codes "ssh" ∷ [];
  revoked = false;
}

abbrev body : Str
body = codes "{}"

abbrev now : ℕ
now = 70_000_000_001 * 10 ^ 9

abbrev material : Str
material = codes "AGENTBELL-RELAY-SIGNATURE-V1\nPOST\n/v1/events\n2026-01-01T00:00:00Z\n"

verify_peer-IsAllowed_example :
    IsAllowed host peer scope_ingest
      (codes "post")
      (codes "/v1/events")
      body
      (fit 64 material)
      now
      0
      envelope
unfolding verify_peer decode validate validate_peer verify leaks_metadata
verify_peer-IsAllowed_example =
    verify_peer-IsAllowed host peer scope_ingest (codes "post") (codes "/v1/events") body
      (fit 64 material) now 0 envelope refl

verify-sign_example :
    verify host (fit 32 []) (codes "post") (codes "/v1/events") now nonce body (fit 64 material)
    ≡ ok tt
unfolding sign verify
verify-sign_example =
    verify-sign host (fit 32 []) (fit 64 []) (codes "post") (codes "/v1/events") now nonce body
      (fit 64 material) (λ m. str_eq_refl (fit 64 m)) (λ m. length-fit 64 m) refl refl

abbrev empty : Disk
empty = record {
  nonces = [];
  pending = [];
  committed = [];
  queue = record {
    pending_files = [];
    inflight_files = [];
    history_files = [];
    dead_files = [];
    keys = [];
  };
}

accept-no_replay_example :
    (Nonce.accept host minimum_nonce_retention (codes "laptop-key") nonce (now + 5) (
      run host minimum_nonce_retention
        (cleanup_op (now + 3) ∷ accept_op (codes "other") nonce (now + 4) ∷ [])
        (Nonce.accept host minimum_nonce_retention
          (codes "laptop-key")
          nonce
          now
          (reliable empty 0)).1)).0
    ≢ ok true
unfolding Nonce.accept lookup
accept-no_replay_example =
    accept-no_replay host minimum_nonce_retention (codes "laptop-key") nonce now (now + 5)
      (cleanup_op (now + 3) ∷ accept_op (codes "other") nonce (now + 4) ∷ []) (reliable empty 0)
      (omega arith) (omega arith, (omega arith, tt)) refl

accept-answer_example :
    (Nonce.accept host minimum_nonce_retention (codes "laptop-key") nonce now (reliable empty 0)).0
    ≡ ok (
        not (
          is_late now (
            reserved_until minimum_nonce_retention
              (nonce_path host (codes "laptop-key") nonce)
              empty)))
unfolding validate_identifier validate_nonce
accept-answer_example =
    accept-answer host minimum_nonce_retention (codes "laptop-key") nonce now empty 0 refl refl refl

-- A request as `Sign` makes it, and an ingress that knows its peer.
abbrev request : IngressRequest
request = record {
  key_id = codes "laptop-key";
  method = codes "POST";
  target = codes "/v1/events";
  sent_at = envelope.sent_at;
  nonce = nonce;
  exact_body = body;
  signature = fit 64 material;
}

abbrev ingress : Ingress
ingress = record {
  host = host;
  peer = λ id. some peer;
  retention = minimum_nonce_retention;
  max_skew = 0;
  key_file = λ k. k;
}

abbrev call : Call
call = record { now = now; random = some (codes "00ff"); waits = [] }

abbrev done : Receipt
done = record {
  version = pos 1;
  id = receipt_id host envelope;
  team_id = codes "team";
  origin_id = codes "laptop";
  delivery_key = key;
  body_digest = body_digest host body;
  state = state_committed;
  local_queue_id = codes "00ff";
  created_at = now;
  committed_at = now;
  durably_committed = false;
}

abbrev ingested : Disk
ingested = record empty {
  committed = (receipt_name (receipt_id host envelope), ReceiptFile.receipt done) ∷ [];
}

accepts_new :
    (accept ingress call request (reliable empty 0)).0
    ≡ ok record {
      receipt_id = receipt_id host envelope;
      local_queue_id = codes "00ff";
      duplicate = false;
    }
unfolding accept verified leaks_metadata lookup insert
accepts_new = refl

accept-IsAcknowledged_example :
    Triple
      (λ k. Unit {0})
      (accept ingress call request)
      (λ a k.
        ((v : Peer × Envelope) × (verified ingress call request ≡ ok v))
        × IsAcknowledged ingress call request a k)
      (λ e k. Unit {0})
accept-IsAcknowledged_example = accept-IsAcknowledged ingress call request

accept-repeats_example : accept ingress call request (reliable ingested 0) ≡ (
  ok record {
    receipt_id = receipt_id host envelope;
    local_queue_id = codes "00ff";
    duplicate = true;
  },
  reliable ingested 1,
)
unfolding verified leaks_metadata lookup is_valid receipt_id body_digest
accept-repeats_example =
    accept-repeats ingress call request peer envelope refl ingested 0 done refl refl refl

-- Another body under the same key.
abbrev forged : IngressRequest
forged = record request { exact_body = codes "{ }" }

accept-conflicts_example :
    accept ingress call forged (reliable ingested 0)
    ≡ (err Error.digest_conflict, reliable ingested 1)
unfolding verified leaks_metadata lookup is_valid receipt_id body_digest
accept-conflicts_example =
    accept-conflicts ingress call forged peer envelope refl ingested 0 done refl refl (λ same.
      ground (arith, str_eq_iff done.body_digest (body_digest host forged.exact_body), same))

abbrev burnt : Disk
burnt = record empty {
  nonces =
      (
        nonce_path host (codes "laptop-key") nonce,
        NonceFile.whole (new_record minimum_nonce_retention now) now,
      )
      ∷ [];
}

accept-burnt_example : (accept ingress call request (reliable burnt 0)).0 ≡ err Error.nonce_replay
unfolding verified leaks_metadata lookup nonce_path
accept-burnt_example =
    accept-burnt ingress call request peer envelope refl burnt 0
      (NonceFile.whole (new_record minimum_nonce_retention now) now) refl refl refl refl refl refl

-- A first attempt whose enqueueing fails, and the same request again.
abbrev attempted : Result Error IngressAck × World
attempted = accept ingress call request record { disk = empty; calls = 0; fails = λ n. n == 30 }

first_attempt : attempted.0 ≡ err (Error.enqueue Queue.Types.Error.io)
unfolding accept verified leaks_metadata lookup insert
first_attempt = refl

second_attempt :
    (accept ingress call request (reliable attempted.1.disk 0)).0 ≡ err Error.nonce_replay
unfolding accept verified leaks_metadata lookup insert
second_attempt = refl
