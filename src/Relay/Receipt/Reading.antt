-- ===== src/Relay/Receipt/Reading.antt =====
-- core/internal/relay/receipt.go: what a receipt that is read says of the directories, whichever system
-- calls fail.
use agentbell.Common.{
  Bool, true, false, some, Str, str_eq, str_eq_iff, lookup, ok, err, ◌≡◌, refl, if◌then◌else◌,
  arith,
}
use agentbell.Actions.Triple.{
  Post, Triple, Triple-pure, Triple-raise, Triple-lift, Triple-if, Triple-weaken, Triple-bind,
}
use agentbell.Relay.Storage.{Error, Receipt, ReceiptFile, Disk, Place, committed_place}
use agentbell.Relay.Storage.Calls.{read_file_lem}
use agentbell.Relay.Receipt.{
  state_committed, ack_eligible, receipt_name, is_valid, flagged, decoded, read_receipt, of_body,
}

abbrev pub Any : Disk → Type 0
Any k = Unit {0}

-- A receipt as it was read: its file, and that the file is valid.
pub record Read (d : Place ReceiptFile) (id expected : Str) (r : Receipt) (k : Disk) : Type 0 where
  pub file : Receipt
  pub found : lookup (receipt_name id) (d.files k) ≡ some (ReceiptFile.receipt file)
  pub same : flagged expected file ≡ r
  pub valid : is_valid expected r ≡ true

module _ {P : Disk → Type 0} (d : Place ReceiptFile) (id expected : Str) where
  pub read_receipt-Read :
      Triple P (read_receipt d id expected) (λ r k. P k × Read d id expected r k) (λ e. P)
  unfolding read_receipt
  read_receipt-Read =
      Triple-bind _ _
        (Triple-weaken {P' = P} _ (read_file_lem d (receipt_name id)) (λ k p. p) (λ f k q. q)
          (λ e k q. q.0))
        (λ f. Triple-lift (decoded expected f) (λ k q. read f k q.0 q.1))
    where
      read :
          (f : ReceiptFile) (k : Disk)
          → P k
          → lookup (receipt_name id) (d.files k) ≡ some f
          → Post (λ r k. P k × Read d id expected r k) (λ e. P) (decoded expected f) k
      read ReceiptFile.garbage k p e = p
      read (ReceiptFile.receipt r) k p e = go (is_valid expected (flagged expected r)) refl
        where
          go :
              (b : Bool)
              → is_valid expected (flagged expected r) ≡ b
              → Post
                  (λ r k. P k × Read d id expected r k)
                  (λ e. P)
                  (if b then ok (flagged expected r) else err Error.invalid_receipt)
                  k
          go true v = (p, record { file = r; found = e; same = refl; valid = v })
          go false v = p

-- A committed receipt of a body is on disk, and may be acknowledged.
pub record Committed (id digest : Str) (r : Receipt) (k : Disk) : Type 0 where
  pub file : Receipt
  pub found : lookup (receipt_name id) k.committed ≡ some (ReceiptFile.receipt file)
  pub same : flagged state_committed file ≡ r
  pub digest_of : r.body_digest ≡ digest
  pub eligible : ack_eligible r ≡ true

pub valid-eligible : (r : Receipt) → is_valid state_committed r ≡ true → ack_eligible r ≡ true
unfolding is_valid
valid-eligible r v = ground arith

module _ (id digest : Str) where
  Read-Committed :
      (r : Receipt) (k : Disk)
      → Read committed_place id state_committed r k
      → str_eq r.body_digest digest ≡ true
      → Committed id digest r k
  Read-Committed r k q e = record {
    file = q.file;
    found = q.found;
    same = q.same;
    digest_of = (str_eq_iff r.body_digest digest).0 e;
    eligible = valid-eligible r q.valid;
  }

  pub of_body-Committed :
      {A : Type 0} {Q : A → Disk → Type 0} (r : Receipt) (a : A)
      → ((k : Disk) → Committed id digest r k → Q a k)
      → Triple
          (λ k. Any k × Read committed_place id state_committed r k)
          (of_body digest r a)
          Q
          (λ e. Any)
  of_body-Committed r a h =
      Triple-if (str_eq r.body_digest digest) _ _
        (λ e. Triple-pure a (λ k q. h k (Read-Committed r k q.1 e)))
        (λ _. Triple-raise Error.digest_conflict (λ k q. tt))
