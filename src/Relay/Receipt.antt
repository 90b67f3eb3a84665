-- ===== src/Relay/Receipt.antt =====
-- core/internal/relay/receipt.go: the receipts of ingested bodies, one to a delivery key of an origin.
-- An operation holds the storage lock of its receipt, so it is one step; the values that Go returns
-- beside an error are left out.
pub mod Reading
pub mod Durable
use agentbell.Common.{
  ℕ, Bool, true, false, ◌&&◌, ◌||◌, not, [], ◌++◌, Option, none, some, Str, codes, str_eq, is_empty,
  ◌==◌, Result, ok, err, require, reject, if◌then◌else◌,
}
use agentbell.Common.Int.{pos}
use agentbell.Frame.{put_uint32}
use agentbell.Relay.{Envelope, Host}
use agentbell.Relay.Protocol.{hex, hash_field, decode}
use agentbell.Relay.Nonce.{is_version_one, checked}
use agentbell.Relay.Storage.{
  Error, Receipt, ReceiptFile, Disk, Store, Place, is_exist, is_not_exist, pending_place,
  committed_place, write_new_private_json, read_file, remove_private_file, pure, raise, lift, ◌>>=◌,
  ◌>>◌, try, call_or,
}

abbrev pub state_pending : Str
state_pending = codes "pending"

abbrev pub state_committed : Str
state_committed = codes "committed"

unfoldable pub ack_eligible : Receipt → Bool
unfolding str_eq
ack_eligible r =
    is_version_one r.version
    && (str_eq r.state state_committed
        && (not (is_empty r.local_queue_id) && (not (r.committed_at == 0) && r.durably_committed)))

-- `pendingPath` and `committedPath`, in their directories.
abbrev pub receipt_name : Str → Str
receipt_name id = id ++ codes ".json"

-- What `readReceipt` accepts, once the flag was set.
unfoldable pub is_valid : Str → Receipt → Bool
unfolding str_eq ack_eligible
is_valid expected r =
    is_version_one r.version
    && (not (is_empty r.id)
        && (str_eq r.state expected
            && (not (is_empty r.team_id)
                && (not (is_empty r.origin_id)
                    && (not (is_empty r.delivery_key)
                        && (not (is_empty r.body_digest)
                            && (not (r.created_at == 0)
                                && (not (str_eq expected state_committed) || ack_eligible r))))))))

abbrev pub flagged : Str → Receipt → Receipt
flagged expected r = record r { durably_committed = str_eq expected state_committed }

abbrev pub decoded : Str → ReceiptFile → Result Error Receipt
decoded expected ReceiptFile.garbage = err Error.undecodable_receipt
decoded expected (ReceiptFile.receipt r) =
    if is_valid expected (flagged expected r)
    then ok (flagged expected r)
    else err Error.invalid_receipt

unfoldable pub read_receipt : Place ReceiptFile → Str → Str → Store Receipt
unfolding str_eq is_valid read_file ◌>>=◌
read_receipt d id expected = do f ← read_file d (receipt_name id); lift (decoded expected f)

abbrev pub read_pending : Str → Store Receipt
read_pending id = read_receipt pending_place id state_pending

abbrev pub read_committed : Str → Store Receipt
read_committed id = read_receipt committed_place id state_committed

-- A receipt of a body: the digests agree.
abbrev pub of_body : {A : Type 0} → Str → Receipt → A → Store A
of_body digest r a = if str_eq r.body_digest digest then pure a else raise Error.digest_conflict

abbrev pub new_receipt : Str → Envelope → Str → ℕ → Receipt
new_receipt id e digest now = record {
  version = pos 1;
  id = id;
  team_id = e.team_id;
  origin_id = e.origin.id;
  delivery_key = e.delivery.key;
  body_digest = digest;
  state = state_pending;
  local_queue_id = [];
  created_at = now;
  committed_at = 0;
  durably_committed = false;
}

-- The pending receipt and whether it was there before.
abbrev pub pending_result : Str → Envelope → Str → ℕ → Result Error Receipt → Store (Receipt × Bool)
pending_result id e digest now (ok r) = of_body digest r (r, true)
pending_result id e digest now (err x) =
    if is_not_exist x
    then write_new_private_json pending_place (receipt_name id)
        (ReceiptFile.receipt (new_receipt id e digest now))
      >> pure (new_receipt id e digest now, false)
    else raise x

abbrev pub with_commit : Receipt → Str → ℕ → Receipt
with_commit r local now = record r {
  state = state_committed;
  local_queue_id = local;
  committed_at = now;
}

-- What follows the writing of the committed receipt.
abbrev pub commit_result : Str → Str → Receipt → Result Error (Unit {0}) → Store Receipt
commit_result id digest r (ok _) = pure (record r { durably_committed = true })
commit_result id digest r (err x) =
    if is_exist x
    then (do existing ← read_committed id; of_body digest existing existing)
    else raise x

unfoldable pub commit : Str → Str → ℕ → Receipt → Str → Store Receipt
unfolding read_receipt write_new_private_json remove_private_file str_eq try pure raise ◌>>=◌
commit id digest now r local = do
  w ← try (
      write_new_private_json committed_place (receipt_name id)
        (ReceiptFile.receipt (with_commit r local now)))
  final ← commit_result id digest (with_commit r local now) w
  remove_private_file pending_place (receipt_name id)
  pure final

-- From the enqueueing on.
unfoldable pub commit_enqueued : Str → Str → ℕ → Store Str → Receipt × Bool → Store (Receipt × Bool)
unfolding commit pure ◌>>=◌
commit_enqueued id digest now enqueue p = do
  local ← enqueue
  lift (reject (is_empty local) Error.empty_queue_id)
  final ← commit id digest now p.0 local
  pure (final, p.1)

-- From the reading of the pending receipt on.
unfoldable pub commit_new : Str → Str → ℕ → Envelope → Store Str → Store (Receipt × Bool)
unfolding read_receipt write_new_private_json str_eq try commit_enqueued pure raise ◌>>=◌
commit_new id digest now e enqueue = do
  r ← try (read_pending id)
  p ← pending_result id e digest now r
  commit_enqueued id digest now enqueue p

abbrev pub existing_result :
    Str → Store (Receipt × Bool) → Result Error Receipt → Store (Receipt × Bool)
existing_result digest rest (ok r) = of_body digest r (r, true)
existing_result digest rest (err x) = if is_not_exist x then rest else raise x

abbrev pub committed_result : Str → Result Error Receipt → Store (Option Receipt)
committed_result digest (ok r) = of_body digest r (some r)
committed_result digest (err x) = if is_not_exist x then pure none else raise x

module _ (h : Host) where
  unfoldable pub receipt_id : Envelope → Str
  unfolding hex
  receipt_id e = hex (
      h.sha256 (
        codes "agentbell-relay-receipt-v1"
        ++ (hash_field e.team_id ++ (hash_field e.origin.id ++ hash_field e.delivery.key))))

  unfoldable pub body_digest : Str → Str
  unfolding hex
  body_digest body = codes "sha256:" ++ hex (h.sha256 body)

  unfoldable pub lookup_committed : Str → Store (Option Receipt)
  unfolding decode receipt_id body_digest read_receipt str_eq try pure raise ◌>>=◌
  lookup_committed body = do
    e ← lift (checked (decode h body))
    r ← try (read_committed (receipt_id e))
    committed_result (body_digest body) r

  unfoldable pub commit_ingress : Str → ℕ → (Envelope → Store Str) → Store (Receipt × Bool)
  unfolding decode receipt_id body_digest read_receipt str_eq try commit_new call_or pure raise
      ◌>>=◌
  commit_ingress body now enqueue = do
    e ← lift (checked (decode h body))
    lift (require (str_eq e.event.privacy_level (codes "metadata-only")) Error.not_metadata_only)
    lift (reject (now == 0) Error.no_time)
    call_or Error.lock
    r ← try (read_committed (receipt_id e))
    existing_result (body_digest body)
        (commit_new (receipt_id e) (body_digest body) now e (enqueue e)) r
