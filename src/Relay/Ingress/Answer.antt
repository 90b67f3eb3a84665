-- ===== src/Relay/Ingress/Answer.antt =====
-- core/internal/relay/ingress.go: `Accept` where no system call fails, on a request that was ingested
-- before and on one whose nonce is used up.
use agentbell.Common.{
  ℕ, suc, true, false, none, some, Str, codes, str_eq, str_eq_iff, ◌≢◌, lookup, Bool-cases, inl,
  inr, leb, ◌==◌, Result, ok, err, ◌≡◌, ap, ◌∙◌, require, ◌&&◌, bind-ok, require-ok, ok-injective,
}
use agentbell.Relay.{Envelope, Peer, Host, Invalid}
use agentbell.Relay.Protocol.Verified.{verify_peer-IsAllowed}
use agentbell.Relay.Receipt.Reading.{valid-eligible}
use agentbell.Relay.Protocol.{
  decode, validate_identifier, validate_nonce, verify_peer, scope_ingest,
}
use agentbell.Relay.Nonce.{nonce_path, checked}
use agentbell.Relay.Nonce.Reserved.{deadline}
use agentbell.Relay.Nonce.Answer.{accept-refuses}
use agentbell.Relay.Receipt.{
  state_committed, receipt_name, is_valid, flagged, read_receipt, receipt_id, body_digest,
  lookup_committed,
}
use agentbell.Relay.Storage.{
  Error, Receipt, ReceiptFile, NonceFile, Disk, committed_place, pure, raise, try, ◌>>=◌,
}
use agentbell.Relay.Storage.Reliable.{reliable, read_file-found, read_file-missing}
use agentbell.Relay.Ingress.Request.{
  IngressRequest, Ingress, Call, verified, is_complete, known_peer,
}
use agentbell.Relay.Ingress.{ingress_ack, refuse_replay, accept_new, accept}

module _ (h : Host) (body : Str) (e : Envelope) (decodes : decode h body ≡ ok e) (k : Disk)
    (c : ℕ) where
  lookup_committed-none :
      lookup (receipt_name (receipt_id h e)) k.committed ≡ none
      → lookup_committed h body (reliable k c) ≡ (ok none, reliable k (suc c))
  unfolding lookup_committed read_receipt try pure ◌>>=◌
  lookup_committed-none absent =
      rw (decodes, read_file-missing committed_place (receipt_name (receipt_id h e)) k c absent)

  module _ (r : Receipt)
      (found : lookup (receipt_name (receipt_id h e)) k.committed ≡ some (ReceiptFile.receipt r))
      (valid : is_valid state_committed (flagged state_committed r) ≡ true) where
    lookup_committed-some :
        str_eq r.body_digest (body_digest h body) ≡ true
        → lookup_committed h body (reliable k c)
          ≡ (ok (some (flagged state_committed r)), reliable k (suc c))
    unfolding lookup_committed read_receipt try pure raise ◌>>=◌
    lookup_committed-some same = rw (
      decodes,
      read_file-found committed_place (receipt_name (receipt_id h e)) k c (ReceiptFile.receipt r)
          found,
      valid,
      same,
    )

    lookup_committed-conflict :
        str_eq r.body_digest (body_digest h body) ≡ false
        → lookup_committed h body (reliable k c) ≡ (err Error.digest_conflict, reliable k (suc c))
    unfolding lookup_committed read_receipt try pure raise ◌>>=◌
    lookup_committed-conflict other = rw (
      decodes,
      read_file-found committed_place (receipt_name (receipt_id h e)) k c (ReceiptFile.receipt r)
          found,
      valid,
      other,
    )

str_neq : (s t : Str) → s ≢ t → str_eq s t ≡ false
str_neq s t other = elim (Bool-cases (str_eq s t)) [
  | inl e ↦ absurd (other ((str_eq_iff s t).0 e))
  | inr e ↦ e
]

-- The envelope that a request is verified for is decoded from its body.
verified-decode :
    (g : Ingress) (c : Call) (q : IngressRequest) (v : Peer × Envelope)
    → verified g c q ≡ ok v
    → decode g.host q.exact_body ≡ ok v.1
unfolding verified
verified-decode g c q v h =
    let (u, a, r₀) = bind-ok (require (is_complete q) Error.incomplete) _ h in
    let (p, b, r₁) = bind-ok (known_peer q.key_id (g.peer q.key_id)) _ r₀ in
    let (e, d, r₂) =
      bind-ok
        (checked (
          verify_peer g.host p scope_ingest q.method q.target q.exact_body q.signature c.now
            g.max_skew))
        _ r₁ in
    let (same, r₃) =
      require-ok (q.sent_at == e.sent_at && str_eq q.nonce e.nonce) Error.header_mismatch _ r₂ in
    let allowed =
      verify_peer-IsAllowed g.host p scope_ingest q.method q.target q.exact_body q.signature c.now
        g.max_skew e (checked-ok _ e d) in
    allowed.decoded ∙ ap (λ x. ok x.1) (ok-injective r₃)
  where
    checked-ok : (r : Result Invalid Envelope) (e : Envelope) → checked r ≡ ok e → r ≡ ok e
    checked-ok (ok x) e h = cc
    checked-ok (err x) e h = absurd (cc)

module _ (g : Ingress) (c : Call) (q : IngressRequest) (p : Peer) (e : Envelope)
    (passed : verified g c q ≡ ok (p, e)) (k : Disk) (n : ℕ) where
  -- Where no system call fails, a verified request whose body was committed before is acknowledged again
  -- as a duplicate, with the ids of the first time, and nothing on disk changes.
  pub accept-repeats :
      (r : Receipt)
      → lookup (receipt_name (receipt_id g.host e)) k.committed ≡ some (ReceiptFile.receipt r)
      → is_valid state_committed (flagged state_committed r) ≡ true
      → r.body_digest ≡ body_digest g.host q.exact_body
      → accept g c q (reliable k n) ≡ (
        ok record { receipt_id = r.id; local_queue_id = r.local_queue_id; duplicate = true },
        reliable k (suc n),
      )
  unfolding accept ingress_ack pure raise ◌>>=◌
  accept-repeats r found valid same = rw (
    passed,
    lookup_committed-some g.host q.exact_body e (verified-decode g c q (p, e) passed) k n r found
        valid ((str_eq_iff r.body_digest (body_digest g.host q.exact_body)).1 same),
    valid-eligible (flagged state_committed r) valid,
  )

  -- Where no system call fails, another body under the delivery key of a committed one is refused as a
  -- conflict, and nothing on disk changes.
  pub accept-conflicts :
      (r : Receipt)
      → lookup (receipt_name (receipt_id g.host e)) k.committed ≡ some (ReceiptFile.receipt r)
      → is_valid state_committed (flagged state_committed r) ≡ true
      → r.body_digest ≢ body_digest g.host q.exact_body
      → accept g c q (reliable k n) ≡ (err Error.digest_conflict, reliable k (suc n))
  unfolding accept ◌>>=◌
  accept-conflicts r found valid other = rw (
    passed,
    lookup_committed-conflict g.host q.exact_body e (verified-decode g c q (p, e) passed) k n r
        found valid (str_neq r.body_digest (body_digest g.host q.exact_body) other),
  )

  -- Where no system call fails, a verified request whose nonce is reserved and whose body has no
  -- committed receipt is refused as a replay, also if the attempt that reserved the nonce was its own
  -- and failed behind it.
  pub accept-burnt :
      (f : NonceFile)
      → validate_identifier (codes "peer id") p.id ≡ ok tt
      → validate_nonce q.nonce ≡ ok tt
      → (c.now == 0) ≡ false
      → lookup (receipt_name (receipt_id g.host e)) k.committed ≡ none
      → lookup (nonce_path g.host p.id q.nonce) k.nonces ≡ some f
      → leb (deadline g.retention f) c.now ≡ false
      → (accept g c q (reliable k n)).0 ≡ err Error.nonce_replay
  unfolding accept accept_new refuse_replay raise ◌>>=◌
  accept-burnt f vp vn vt absent found new =
      let decodes = verified-decode g c q (p, e) passed in
      let (m, refused) =
        accept-refuses g.host g.retention p.id q.nonce c.now f k (suc n) vp vn vt found new in
      rw (
        passed,
        lookup_committed-none g.host q.exact_body e decodes k n absent,
        refused,
        lookup_committed-none g.host q.exact_body e decodes k m absent,
      )
