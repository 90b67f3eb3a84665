-- ===== src/Queue/Durable/Markers.antt =====
-- core/internal/queue: the file operations do not touch the markers of idempotency keys.
pub mod Runs
use agentbell.Common.{
  ℕ, suc, Bool, true, false, not, List, [], ◌∷◌, ◌++◌, Str, codes, Option, none, some, Result, ok,
  err, ◌≡◌, refl, ap, ◌∙◌, if◌then◌else◌, length, has_suffix, str_eq, reject,
}
use agentbell.Common.Int.{increment, at_least}
use agentbell.Queue.Types.{State, Envelope, Item, Error, DeliveryTarget, DeliveryLedgerEntry}
use agentbell.Queue.Ledger.{validate_inflight_item, validate_delivery_envelope, new_delivery_ledger}
use agentbell.Queue.Settle.{
  ack_ledger, defer_ledger, updated_envelope, ack_entry, nack_entry, dead_entry,
}
use agentbell.Queue.Disk.{
  File, Directory, Disk, World, Fs, files, file_at, put_file, delete_file, is_exist, ◌>>=◌, ◌>>◌,
  pure, raise, lift, try, ignore, system_call, stat, read_file, remove, or_missing, inspect, modify,
  unless_missing,
}
use agentbell.Queue.Listing.{
  healthy, write, write_new, replace, transition, quarantine, admit, list_names, list_directory,
  list_unlocked, state_directory, sort_items, names_of,
}
use agentbell.Queue.Items.{
  is_after, claimed, finish_claim, claim_first, claim, succeeded, ack, dead_now, pending_after,
  backoff_after, nack, deferred, defer, exists, completed_transition, recovered, recover_items,
  recover_expired, retried, retry_first, retry, is_nil,
}
use agentbell.Queue.Targets.{
  with_ledger, resolve_ledger, resolve_targets, update_target, ack_target, nack_target, dead_target,
}
use agentbell.Queue.Triple.{
  Post, Triple, Triple-pure, Triple-raise, Triple-lift, Triple-bind, Triple-if, Triple-weaken,
  Triple-ignore, Triple-unless_missing, Triple-try, Triple-modify, Triple-inspect,
  Triple-system_call,
}

abbrev pub Marked : List (Str × Str) → Disk → Type 0
Marked keys k = k.keys ≡ keys

-- The action leaves the markers as they are, with every result and every failing call.
abbrev pub KeepsMarks : {A : Type 0} → List (Str × Str) → Fs A → Type 0
KeepsMarks keys m = Triple (Marked keys) m (λ _. Marked keys) (λ _. Marked keys)

put-keys : (d : Directory) (n : Str) (f : File) (k : Disk) → (put_file d n f k).keys ≡ k.keys
put-keys Directory.pending n f k = refl
put-keys Directory.inflight n f k = refl
put-keys Directory.history n f k = refl
put-keys Directory.dead n f k = refl

delete-keys : (d : Directory) (n : Str) (k : Disk) → (delete_file d n k).keys ≡ k.keys
delete-keys Directory.pending n k = refl
delete-keys Directory.inflight n k = refl
delete-keys Directory.history n k = refl
delete-keys Directory.dead n k = refl

module _ {keys : List (Str × Str)} where
  module _ {A : Type 0} where
    pub keeps_pure : (a : A) → KeepsMarks keys (pure a)
    keeps_pure a = Triple-pure a (λ k p. p)

    pub keeps_raise : (e : Error) → KeepsMarks keys (raise {A = A} e)
    keeps_raise e = Triple-raise e (λ k p. p)

    pub keeps_lift : (r : Result Error A) → KeepsMarks keys (lift r)
    keeps_lift (ok a) = Triple-lift (ok a) (λ k p. p)
    keeps_lift (err e) = Triple-lift (err e) (λ k p. p)

    pub keeps_bind :
        {B : Type 0} {m : Fs A} {f : A → Fs B}
        → KeepsMarks keys m
        → ((a : A) → KeepsMarks keys (f a))
        → KeepsMarks keys (m >>= f)
    keeps_bind t u = Triple-bind _ _ t u

    pub keeps_if :
        (b : Bool) {m n : Fs A}
        → KeepsMarks keys m
        → KeepsMarks keys n
        → KeepsMarks keys (if b then m else n)
    keeps_if b t u = Triple-if b _ _ (λ _. t) (λ _. u)

    pub keeps_inspect : (f : Disk → A) → KeepsMarks keys (inspect f)
    keeps_inspect f = Triple-weaken _ (Triple-inspect f) (λ k p. p) (λ a k q. q.0) (λ e k p. p)

    pub keeps_try : {m : Fs A} → KeepsMarks keys m → KeepsMarks keys (try m)
    keeps_try {m} t = Triple-weaken _ (Triple-try m t) (λ k p. p) either (λ e k p. p)
      where
        either :
            (r : Result Error A) (k : Disk)
            → Post (λ _. Marked keys) (λ _. Marked keys) r k
            → Marked keys k
        either (ok a) k p = p
        either (err e) k p = p

    pub keeps_found : (o : Option A) → KeepsMarks keys (or_missing o)
    keeps_found none = keeps_raise Error.not_exist
    keeps_found (some a) = keeps_pure a

  pub keeps_call : KeepsMarks keys system_call
  keeps_call = Triple-system_call (λ k p. p)

  pub keeps_after_call :
      {A : Type 0} {m : Fs A} → KeepsMarks keys m → KeepsMarks keys (system_call >>= λ _. m)
  keeps_after_call t = keeps_bind keeps_call (λ _. t)

  module _ (d : Directory) (n : Str) where
    pub keeps_stat : KeepsMarks keys (stat d n)
    unfolding stat
    keeps_stat = keeps_after_call (keeps_inspect _)

    pub keeps_read : KeepsMarks keys (read_file d n)
    unfolding read_file
    keeps_read = keeps_after_call (keeps_bind (keeps_inspect (λ k. file_at k d n)) keeps_found)

    pub keeps_remove : KeepsMarks keys (remove d n)
    unfolding remove
    keeps_remove = keeps_after_call (
        keeps_bind (keeps_inspect (λ k. file_at k d n)) (λ o.
          keeps_bind (keeps_found o)
            (λ _. Triple-modify (delete_file d n) (λ k p. delete-keys d n k ∙ p))))

    pub keeps_write : (e : Envelope) → KeepsMarks keys (write d n e)
    unfolding write
    keeps_write e = keeps_after_call (
        keeps_after_call (
          keeps_after_call (
            keeps_after_call (
              keeps_after_call (
                keeps_after_call (
                  Triple-modify (put_file d n (File.envelope e))
                    (λ k p. put-keys d n (File.envelope e) k ∙ p)))))))

    pub keeps_write_new : (e : Envelope) → KeepsMarks keys (write_new d n e)
    unfolding write_new
    keeps_write_new e =
        keeps_bind keeps_stat (λ b. keeps_if b (keeps_raise Error.exist) (keeps_write e))

    pub keeps_replace : (e : Envelope) → KeepsMarks keys (replace d n e)
    unfolding replace
    keeps_replace e =
        keeps_bind keeps_stat (λ b. keeps_if b (keeps_write e) (keeps_raise Error.not_exist))

    pub keeps_quarantine : KeepsMarks keys (quarantine d n)
    unfolding quarantine
    keeps_quarantine = keeps_after_call (Triple-modify _ (λ k p. moved k (file_at k d n) ∙ p))
      where
        moved :
            (k : Disk) (o : Option File)
            → (elim o as (λ _. Disk) [
              | none ↦ k
              | some f ↦ put_file Directory.dead (n ++ codes ".corrupt") f (delete_file d n k)
            ]).keys
              ≡ k.keys
        moved k none = refl
        moved k (some f) =
            put-keys Directory.dead (n ++ codes ".corrupt") f (delete_file d n k)
            ∙ delete-keys d n k

  pub keeps_transition :
      (s d : Directory) (n : Str) (e : Envelope) → KeepsMarks keys (transition s d n e)
  unfolding transition
  keeps_transition s d n e =
      keeps_bind (keeps_write_new d n e) (λ _. Triple-unless_missing _ (keeps_remove s n))

  pub keeps_ignore : {m : Fs (Unit {0})} → KeepsMarks keys m → KeepsMarks keys (ignore m)
  keeps_ignore t = Triple-ignore _ t
