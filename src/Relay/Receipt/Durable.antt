-- ===== src/Relay/Receipt/Durable.antt =====
-- core/internal/relay/receipt.go: what a receipt that `CommitIngress` or `LookupCommitted` returns says of
-- the directories, whichever system calls fail.
use agentbell.Common.{
  ℕ, Bool, true, false, none, some, Str, codes, str_eq, str_eq_iff, is_empty, lookup-insert_self,
  ◌==◌, Result, ok, err, require, reject, ◌≡◌, refl, arith,
}
use agentbell.Actions.Triple.{
  Post, Triple, Triple-pure, Triple-raise, Triple-lift, Triple-if, Triple-weaken, Triple-bind,
  Triple-try, Triple-any, Triple-call_then, Triple-given,
}
use agentbell.Relay.{Envelope, Invalid, Host}
use agentbell.Relay.Protocol.{decode}
use agentbell.Relay.Nonce.{is_version_one, checked}
use agentbell.Relay.Storage.{
  Error, Receipt, ReceiptFile, Disk, Store, is_exist, is_not_exist, pending_place, committed_place,
  write_new_private_json, try, lift,
}
use agentbell.Relay.Storage.Calls.{write_new_private_json_lem, remove_private_file_lem}
use agentbell.Relay.Receipt.{
  state_pending, state_committed, ack_eligible, receipt_name, is_valid, read_committed, new_receipt,
  pending_result, with_commit, commit_result, commit, commit_enqueued, commit_new, existing_result,
  committed_result, receipt_id, body_digest, lookup_committed, commit_ingress,
}
use agentbell.Relay.Receipt.Reading.{Any, Read, read_receipt-Read, Committed, of_body-Committed}

-- A receipt from which a committed one is made.
record Committable (digest : Str) (p : Receipt) : Type 0 where
  version : is_version_one p.version ≡ true
  digest_of : p.body_digest ≡ digest

Read-Committable :
    (digest id : Str) (r : Receipt) (k : Disk)
    → Read pending_place id state_pending r k
    → str_eq r.body_digest digest ≡ true
    → Committable digest r
unfolding is_valid
Read-Committable digest id r k q e = record {
  version = ground (arith, q.valid);
  digest_of = (str_eq_iff r.body_digest digest).0 e;
}

module _ (id digest : Str) (now : ℕ) where
  commit-Committed :
      (p : Receipt) (local : Str)
      → Committable digest p
      → is_empty local ≡ false
      → (now == 0) ≡ false
      → Triple Any (commit id digest now p local) (Committed id digest) (λ e. Any)
  unfolding commit ack_eligible
  commit-Committed p local c full late = Triple-bind _ _ (Triple-try _ written) (λ w.
      Triple-bind _ _ (result w) (λ r.
        Triple-bind _ _
          (remove_private_file_lem pending_place (receipt_name id) {P = Committed id digest r}
            {Q = Committed id digest r} {E = λ e. Any} (λ k q. tt) (λ k q. q)
            (λ k q. record {
              file = q.file;
              found = q.found;
              same = q.same;
              digest_of = q.digest_of;
              eligible = q.eligible;
            })
            (λ k q. tt))
          (λ _. Triple-pure r (λ k q. q))))
    where
      done : Receipt
      done = record (with_commit p local now) { durably_committed = true }

      eligible : ack_eligible done ≡ true
      eligible = ground (arith, c.version, full, late)

      written :
          Triple Any
            (write_new_private_json committed_place
              (receipt_name id)
              (ReceiptFile.receipt (with_commit p local now)))
            (λ _. Committed id digest done)
            (λ e. Any)
      written =
          write_new_private_json_lem committed_place (receipt_name id) _ (λ k q. tt) (λ k q _. tt)
            (λ k q _. record {
              file = with_commit p local now;
              found = lookup-insert_self (receipt_name id) _ k.committed;
              same = refl;
              digest_of = c.digest_of;
              eligible = eligible;
            })
            (λ k q. tt)

      result :
          (w : Result Error (Unit {0}))
          → Triple
              (Post (λ _. Committed id digest done) (λ e. Any) w)
              (commit_result id digest (with_commit p local now) w)
              (Committed id digest)
              (λ e. Any)
      result (ok u) = Triple-pure done (λ k q. q)
      result (err e) =
          Triple-if (is_exist e) _ _
            (λ _.
              Triple-bind (read_committed id) _
                (read_receipt-Read committed_place id state_committed)
                (λ r. of_body-Committed id digest r r (λ k q. q)))
            (λ _. Triple-raise e (λ k q. tt))

  commit_enqueued-Committed :
      (enqueue : Store Str) (p : Receipt × Bool)
      → Committable digest p.0
      → (now == 0) ≡ false
      → Triple Any
          (commit_enqueued id digest now enqueue p)
          (λ r. Committed id digest r.0)
          (λ e. Any)
  unfolding commit_enqueued
  commit_enqueued-Committed enqueue p c late = Triple-bind enqueue _ (Triple-any enqueue) (λ local.
      Triple-bind _ _
        (Triple-lift {Q = λ _ k. is_empty local ≡ false}
          (reject (is_empty local) Error.empty_queue_id) (λ k _. full (is_empty local) k))
        (λ _.
          Triple-given _ (λ k f. f)
            (λ f.
              Triple-bind _ _ (commit-Committed p.0 local c f late)
                (λ final. Triple-pure (final, p.1) (λ k q. q)))))
    where
      full :
          (b : Bool) (k : Disk)
          → Post (λ _ k. b ≡ false) (λ e. Any) (reject b Error.empty_queue_id) k
      full true k = tt
      full false k = refl

  commit_new-Committed :
      (e : Envelope) (enqueue : Store Str)
      → (now == 0) ≡ false
      → Triple Any (commit_new id digest now e enqueue) (λ r. Committed id digest r.0) (λ e. Any)
  unfolding commit_new
  commit_new-Committed e enqueue late =
      Triple-bind _ _ (Triple-try _ (read_receipt-Read {P = Any} pending_place id state_pending))
        (λ r.
          Triple-bind _ _ (pending r)
            (λ p. Triple-given _ (λ k c. c) (λ c. commit_enqueued-Committed enqueue p c late)))
    where
      pending :
          (r : Result Error Receipt)
          → Triple
              (Post (λ r k. Any k × Read pending_place id state_pending r k) (λ e. Any) r)
              (pending_result id e digest now r)
              (λ p k. Committable digest p.0)
              (λ e. Any)
      pending (ok r) =
          Triple-if (str_eq r.body_digest digest) _ _
            (λ x. Triple-pure (r, true) (λ k q. Read-Committable digest id r k q.1 x))
            (λ _. Triple-raise Error.digest_conflict (λ k q. tt))
      pending (err x) =
          Triple-if (is_not_exist x) _ _
            (λ _.
              Triple-bind
                (write_new_private_json pending_place (receipt_name id)
                  (ReceiptFile.receipt (new_receipt id e digest now)))
                _ (Triple-any _)
                (λ _.
                  Triple-pure (new_receipt id e digest now, false)
                    (λ k q. record { version = refl; digest_of = refl })))
            (λ _. Triple-raise x (λ k q. tt))

module _ (h : Host) (body : Str) where
  -- What a receipt of the body says.
  pub IsCommitted : Receipt → Disk → Type 0
  IsCommitted r k =
      (e : Envelope) × (decode h body ≡ ok e) × Committed (receipt_id h e) (body_digest h body) r k

  decoded-cases :
      (r : Result Invalid Envelope) (k : Disk) → Post (λ e k. r ≡ ok e) (λ e. Any) (checked r) k
  decoded-cases (ok e) k = refl
  decoded-cases (err x) k = tt

  pub commit_ingress-IsCommitted :
      (now : ℕ) (enqueue : Envelope → Store Str)
      → Triple Any (commit_ingress h body now enqueue) (λ r. IsCommitted r.0) (λ e. Any)
  unfolding commit_ingress IsCommitted
  commit_ingress-IsCommitted now enqueue =
      Triple-bind _ _
        (Triple-lift {Q = λ e k. decode h body ≡ ok e} (checked (decode h body))
          (λ k _. decoded-cases (decode h body) k))
        (λ e.
          Triple-given _ (λ k d. d)
            (λ d.
              Triple-bind
                (lift (
                  require (str_eq e.event.privacy_level (codes "metadata-only"))
                    Error.not_metadata_only))
                _ (Triple-any _)
                (λ _.
                  Triple-bind _ _
                    (Triple-lift {Q = λ _ k. (now == 0) ≡ false} (reject (now == 0) Error.no_time)
                      (λ k _. late (now == 0) k))
                    (λ _.
                      Triple-given _ (λ k l. l)
                        (λ l.
                          Triple-call_then Error.lock _ (λ k _. tt)
                            (Triple-bind (try (read_committed (receipt_id h e))) _
                              (Triple-try _ (
                                read_receipt-Read {P = Any} committed_place (receipt_id h e)
                                  state_committed))
                              (λ r. existing e d l r)))))))
    where
      late : (b : Bool) (k : Disk) → Post (λ _ k. b ≡ false) (λ e. Any) (reject b Error.no_time) k
      late true k = tt
      late false k = refl

      existing :
          (e : Envelope)
          → decode h body ≡ ok e
          → (now == 0) ≡ false
          → (r : Result Error Receipt)
          → Triple
              (Post
                (λ r k. Any k × Read committed_place (receipt_id h e) state_committed r k)
                (λ e. Any)
                r)
              (existing_result
                (body_digest h body)
                (commit_new (receipt_id h e) (body_digest h body) now e (enqueue e))
                r)
              (λ r. IsCommitted r.0)
              (λ e. Any)
      existing e d l (ok r) =
          of_body-Committed (receipt_id h e) (body_digest h body) r (r, true) (λ k q. (e, d, q))
      existing e d l (err x) =
          Triple-if (is_not_exist x) _ _
            (λ _.
              Triple-weaken _
                (commit_new-Committed (receipt_id h e) (body_digest h body) now e (enqueue e) l)
                (λ k _. tt) (λ r k q. (e, d, q)) (λ e k q. tt))
            (λ _. Triple-raise x (λ k q. tt))

  pub lookup_committed-IsCommitted :
      Triple Any
        (lookup_committed h body)
        (λ o k. elim o [ none ↦ Unit {0} | some r ↦ IsCommitted r k ])
        (λ e. Any)
  unfolding lookup_committed IsCommitted
  lookup_committed-IsCommitted =
      Triple-bind _ _
        (Triple-lift {Q = λ e k. decode h body ≡ ok e} (checked (decode h body))
          (λ k _. decoded-cases (decode h body) k))
        (λ e.
          Triple-given _ (λ k d. d)
            (λ d.
              Triple-bind (try (read_committed (receipt_id h e))) _
                (Triple-try _
                  (read_receipt-Read {P = Any} committed_place (receipt_id h e) state_committed))
                (λ r. existing e d r)))
    where
      existing :
          (e : Envelope)
          → decode h body ≡ ok e
          → (r : Result Error Receipt)
          → Triple
              (Post
                (λ r k. Any k × Read committed_place (receipt_id h e) state_committed r k)
                (λ e. Any)
                r)
              (committed_result (body_digest h body) r)
              (λ o k. elim o [ none ↦ Unit {0} | some r ↦ IsCommitted r k ])
              (λ e. Any)
      existing e d (ok r) =
          of_body-Committed (receipt_id h e) (body_digest h body) r (some r) (λ k q. (e, d, q))
      existing e d (err x) =
          Triple-if (is_not_exist x) _ _ (λ _. Triple-pure none (λ k q. tt))
            (λ _. Triple-raise x (λ k q. tt))
