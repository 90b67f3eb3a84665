-- ===== src/Relay/Ingress.antt =====
-- core/internal/relay/ingress.go: the acceptance of a signed envelope. The queue behind it is that of
-- core/internal/queue; the clock and the waits of its reservation are arguments, and the peers and the
-- name of a key's marker parameters.
pub mod Request
pub mod Acknowledged
pub mod Answer
use agentbell.Common.{
  ℕ, Bool, true, false, ◌&&◌, ◌||◌, not, List, Option, none, some, Str, str_eq, is_empty, ◌==◌,
  Result, ok, err, require, reject, if◌then◌else◌,
}
use agentbell.Event.{Notification}
use agentbell.Queue.Enqueue
use agentbell.Queue.Enqueue.{Wait, trim_space}
use agentbell.Relay.{Envelope, Peer, Host}
use agentbell.Relay.Protocol.{verify_peer, scope_ingest}
use agentbell.Relay.Nonce
use agentbell.Relay.Nonce.{checked}
use agentbell.Relay.Receipt.{ack_eligible, lookup_committed, commit_ingress}
use agentbell.Relay.Ingress.Request.{IngressRequest, Ingress, Call, verified}
use agentbell.Relay.Storage.{Error, Receipt, Disk, Store, pure, raise, lift, ◌>>=◌, ◌>>◌}
use agentbell.Actions.{zoom}

pub record IngressAck : Type 0 where
  pub receipt_id : Str
  pub local_queue_id : Str
  pub duplicate : Bool

unfoldable pub ingress_ack : Receipt → Bool → Store IngressAck
unfolding ack_eligible pure raise
ingress_ack r duplicate =
    if ack_eligible r
    then pure record { receipt_id = r.id; local_queue_id = r.local_queue_id; duplicate = duplicate }
    else raise Error.not_committed

-- What the callback of `CommitIngress` enqueues.
abbrev pub forwarded : Envelope → Notification
forwarded e = record e.event { idempotency_key = e.delivery.key }

module _ (g : Ingress) (c : Call) where
  unfoldable pub enqueue : Envelope → Store Str
  unfolding zoom pure ◌>>=◌ Enqueue.enqueue
  enqueue e = do
    r ←
        zoom (λ k. k.queue) (λ j k. record k { queue = j }) Error.enqueue
          (Enqueue.enqueue g.key_file (forwarded e) c.now c.random c.waits)
    pure r.0

  -- An existing receipt is acknowledged as a duplicate.
  abbrev pub or_existing : Store IngressAck → Option Receipt → Store IngressAck
  or_existing rest (some r) = ingress_ack r true
  or_existing rest none = rest

  unfoldable pub commit_and_ack : Str → Store IngressAck
  unfolding commit_ingress enqueue ingress_ack ◌>>=◌
  commit_and_ack body = do r ← commit_ingress g.host body c.now enqueue; ingress_ack r.0 r.1

  -- A nonce that was used is a replay, unless the body was committed meanwhile.
  unfoldable pub refuse_replay : Str → Store IngressAck
  unfolding lookup_committed ingress_ack raise ◌>>=◌
  refuse_replay body = do
    existing ← lookup_committed g.host body
    or_existing (raise Error.nonce_replay) existing

  unfoldable pub accept_new : Str → IngressRequest → Store IngressAck
  unfolding Nonce.accept commit_and_ack refuse_replay ◌>>=◌
  accept_new peer_id q = do
    accepted ← Nonce.accept g.host g.retention peer_id q.nonce c.now
    if accepted then commit_and_ack q.exact_body else refuse_replay q.exact_body

  unfoldable pub accept : IngressRequest → Store IngressAck
  unfolding verified lookup_committed ingress_ack accept_new ◌>>=◌
  accept q = do
    v ← lift (verified g c q)
    existing ← lookup_committed g.host q.exact_body
    or_existing (accept_new v.0.id q) existing
