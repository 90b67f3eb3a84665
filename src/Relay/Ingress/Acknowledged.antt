-- ===== src/Relay/Ingress/Acknowledged.antt =====
-- core/internal/relay/ingress.go: what an acknowledgement of `Accept` says of the directories.
use agentbell.Common.{Bool, true, Option, none, some, Str, Result, ok, err, ◌≡◌, refl}
use agentbell.Actions.Triple.{
  Post, Triple, Triple-pure, Triple-raise, Triple-lift, Triple-if, Triple-weaken, Triple-bind,
  Triple-any, Triple-given,
}
use agentbell.Relay.{Envelope, Peer}
use agentbell.Relay.Nonce
use agentbell.Relay.Receipt.{ack_eligible}
use agentbell.Relay.Receipt.Durable.{
  IsCommitted, commit_ingress-IsCommitted, lookup_committed-IsCommitted,
}
use agentbell.Relay.Storage.{Error, Receipt, Disk, Store}
use agentbell.Relay.Ingress.Request.{IngressRequest, Ingress, Call, verified}
use agentbell.Relay.Ingress.{
  IngressAck, ingress_ack, or_existing, commit_and_ack, refuse_replay, accept_new, accept, enqueue,
}

abbrev Any : Disk → Type 0
Any k = Unit {0}

module _ (g : Ingress) (c : Call) (q : IngressRequest) where
  -- The request was verified, and the committed receipt of its body is on disk under the names that
  -- are acknowledged.
  pub record IsAcknowledged (a : IngressAck) (k : Disk) : Type 0 where
    pub receipt : Receipt
    pub committed : IsCommitted g.host q.exact_body receipt k
    pub receipt_id : a.receipt_id ≡ receipt.id
    pub local_queue_id : a.local_queue_id ≡ receipt.local_queue_id

  ingress_ack-IsAcknowledged :
      (r : Receipt) (duplicate : Bool)
      → Triple
          (IsCommitted g.host q.exact_body r)
          (ingress_ack r duplicate)
          IsAcknowledged
          (λ e. Any)
  unfolding ingress_ack
  ingress_ack-IsAcknowledged r duplicate =
      Triple-if (ack_eligible r) _ _
        (λ _.
          Triple-pure _ (λ k h. record {
            receipt = r;
            committed = h;
            receipt_id = refl;
            local_queue_id = refl;
          }))
        (λ _. Triple-raise Error.not_committed (λ k h. tt))

  -- What a lookup returns.
  Found : Option Receipt → Disk → Type 0
  Found o k = elim o [ none ↦ Unit {0} | some r ↦ IsCommitted g.host q.exact_body r k ]

  or_existing-IsAcknowledged :
      (rest : Store IngressAck) (o : Option Receipt)
      → Triple Any rest IsAcknowledged (λ e. Any)
      → Triple (Found o) (or_existing g c rest o) IsAcknowledged (λ e. Any)
  unfolding Found
  or_existing-IsAcknowledged rest none t = t
  or_existing-IsAcknowledged rest (some r) t = ingress_ack-IsAcknowledged r true

  accept_new-IsAcknowledged :
      (peer : Str) → Triple Any (accept_new g c peer q) IsAcknowledged (λ e. Any)
  unfolding accept_new commit_and_ack refuse_replay Found
  accept_new-IsAcknowledged peer =
      Triple-bind (Nonce.accept g.host g.retention peer q.nonce c.now) _ (Triple-any _) (λ taken.
        Triple-if taken _ _
          (λ _.
            Triple-bind _ _ (commit_ingress-IsCommitted g.host q.exact_body c.now (enqueue g c))
              (λ r. ingress_ack-IsAcknowledged r.0 r.1))
          (λ _.
            Triple-bind _ _ (lookup_committed-IsCommitted g.host q.exact_body)
              (λ o. or_existing-IsAcknowledged _ o (Triple-raise Error.nonce_replay (λ k h. tt)))))

  passed : (r : Result Error (Peer × Envelope)) (k : Disk) → Post (λ v k. r ≡ ok v) (λ e. Any) r k
  passed (ok v) k = refl
  passed (err e) k = tt

  -- An acknowledgement is given only to a request that was verified, and only while the committed
  -- receipt of exactly its body is on disk, with the ids that are acknowledged, whichever system calls
  -- failed on the way.
  pub accept-IsAcknowledged :
      Triple Any
        (accept g c q)
        (λ a k. ((v : Peer × Envelope) × (verified g c q ≡ ok v)) × IsAcknowledged a k)
        (λ e. Any)
  unfolding accept Found
  accept-IsAcknowledged =
      Triple-bind _ _
        (Triple-lift {Q = λ v k. verified g c q ≡ ok v} (verified g c q)
          (λ k _. passed (verified g c q) k))
        (λ v.
          Triple-given _ (λ k e. e)
            (λ e.
              Triple-weaken _
                (Triple-bind _ _ (lookup_committed-IsCommitted g.host q.exact_body)
                  (λ o. or_existing-IsAcknowledged _ o (accept_new-IsAcknowledged v.0.id)))
                (λ k _. tt) (λ a k h. ((v, e), h)) (λ x k h. tt)))
