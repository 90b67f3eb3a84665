-- ===== src/Relay/Storage/Calls.antt =====
-- core/internal/relay/storage.go: what the publication, the reading and the removal of a record do to a
-- property of the disk, whichever system calls fail.
use agentbell.Common.{
  true, false, Option, none, some, Str, lookup, insert, delete, Result, ok, err, ◌≡◌, sym, ◌∙◌,
}
use agentbell.Queue.Disk.{is_some}
use agentbell.Actions.Triple.{
  Post, Triple, Triple-pure, Triple-raise, Triple-lift, Triple-if, Triple-bind, Triple-modify,
  Triple-inspect, Triple-try, Triple-call_then, Triple-call_or,
}
use agentbell.Relay.Storage.{
  Error, Disk, Store, Place, system_call, is_not_exist, or_not_exist, ensure_private_directory,
  sync_directory, link, write_new_private_json, read_file, remove, forgive, remove_if_present,
  remove_private_file, ◌>>=◌,
}

module _ {A : Type 0} {P : Disk → Type 0} {Q : A → Disk → Type 0} {E : Error → Disk → Type 0} where
  pub Triple-after_call :
      (m : Store A)
      → ((k : Disk) → P k → E Error.io k)
      → Triple P m Q E
      → Triple P (system_call >>= λ _. m) Q E
  unfolding system_call
  Triple-after_call m h t = Triple-call_then Error.io m h t

module _ {P : Disk → Type 0} {E : Error → Disk → Type 0}
    (failed : (k : Disk) → P k → E Error.io k) where
  pub Triple-system_call : Triple P system_call (λ _. P) E
  unfolding system_call
  Triple-system_call = Triple-call_or Error.io failed

  pub ensure_private_directory_lem : Triple P ensure_private_directory (λ _. P) E
  unfolding ensure_private_directory
  ensure_private_directory_lem = Triple-after_call _ failed Triple-system_call

  pub sync_directory_lem : Triple P sync_directory (λ _. P) E
  unfolding sync_directory
  sync_directory_lem = Triple-after_call _ failed Triple-system_call

-- What holds behind a removal whose missing file is no error.
abbrev Forgiven :
    (Disk → Type 0) → (Error → Disk → Type 0) → Result Error (Unit {0}) → Disk → Type 0
Forgiven Q E r k = Post (λ _. Q) E (forgive r) k

module _ {F : Type 0} (d : Place F) (n : Str) where
  module _ {P Q : Disk → Type 0} {E : Error → Disk → Type 0} (f : F)
      (failed : (k : Disk) → P k → E Error.io k)
      (taken : (k : Disk) → P k → is_some (lookup n (d.files k)) ≡ true → E Error.exist k)
      (linked : (k : Disk)
        → P k
        → is_some (lookup n (d.files k)) ≡ false
        → Q (d.with_files (insert n f (d.files k)) k)) where
    link_lem : Triple P (link d n f) (λ _. Q) E
    unfolding link
    link_lem = Triple-after_call _ failed (
        Triple-bind _ _ (Triple-inspect _) (λ b.
          Triple-if b _ _ (λ yes. Triple-raise Error.exist (λ k p. taken k p.0 (sym p.1 ∙ yes)))
            (λ no. Triple-modify _ (λ k p. linked k p.0 (sym p.1 ∙ no)))))

    pub write_new_private_json_lem :
        ((k : Disk) → Q k → E Error.io k) → Triple P (write_new_private_json d n f) (λ _. Q) E
    unfolding write_new_private_json
    write_new_private_json_lem unsynced =
        Triple-bind _ _ (ensure_private_directory_lem failed) (λ _.
          Triple-bind _ _ (ensure_private_directory_lem failed) (λ _. Triple-after_call _ failed (
            Triple-after_call _ failed (
              Triple-after_call _ failed (
                Triple-after_call _ failed (
                  Triple-after_call _ failed
                    (Triple-bind _ _ link_lem (λ _. sync_directory_lem unsynced))))))))

  module _ {P : Disk → Type 0} where
    found_lem :
        (o : Option F)
        → Triple
            (λ k. P k × (o ≡ lookup n (d.files k)))
            (or_not_exist o)
            (λ f k. P k × (lookup n (d.files k) ≡ some f))
            (λ e k. P k × (is_not_exist e ≡ true → lookup n (d.files k) ≡ none))
    found_lem none = Triple-raise Error.not_exist (λ k p. (p.0, λ _. sym p.1))
    found_lem (some f) = Triple-pure f (λ k p. (p.0, sym p.1))

    pub read_file_lem :
        Triple P
          (read_file d n)
          (λ f k. P k × (lookup n (d.files k) ≡ some f))
          (λ e k. P k × (is_not_exist e ≡ true → lookup n (d.files k) ≡ none))
    unfolding read_file
    read_file_lem =
        Triple-after_call _ (λ k p. (p, λ x. cc))
          (Triple-bind _ or_not_exist (Triple-inspect _) found_lem)

  module _ {P Q : Disk → Type 0} {E : Error → Disk → Type 0}
      (failed : (k : Disk) → P k → E Error.io k) (missing : (k : Disk) → P k → Q k)
      (removed : (k : Disk) → P k → Q (d.with_files (delete n (d.files k)) k)) where
    remove_lem : Triple P (remove d n) (λ _. Q) (λ e. Forgiven Q E (err e))
    unfolding remove
    remove_lem = Triple-after_call _ failed (
        Triple-bind _ _ (Triple-inspect _)
          (λ o. Triple-bind (or_not_exist o) _ (found o) (λ _. Triple-modify _ removed)))
      where
        found :
            (o : Option F)
            → Triple
                (λ k. P k × (o ≡ lookup n (d.files k)))
                (or_not_exist o)
                (λ _. P)
                (λ e. Forgiven Q E (err e))
        found none = Triple-raise Error.not_exist (λ k p. missing k p.0)
        found (some f) = Triple-pure f (λ k p. p.0)

    pub remove_if_present_lem : Triple P (remove_if_present d n) (λ _. Q) E
    unfolding remove_if_present
    remove_if_present_lem =
        Triple-bind _ _ (Triple-try _ remove_lem)
          (λ r. Triple-lift (forgive r) (λ k p. forgiven r k p))
      where
        forgiven :
            (r : Result Error (Unit {0})) (k : Disk)
            → Post (λ _. Q) (λ e. Forgiven Q E (err e)) r k
            → Post (λ _. Q) E (forgive r) k
        forgiven (ok u) k q = q
        forgiven (err e) k q = q

    pub remove_private_file_lem :
        ((k : Disk) → Q k → E Error.io k) → Triple P (remove_private_file d n) (λ _. Q) E
    unfolding remove_private_file
    remove_private_file_lem unsynced =
        Triple-bind _ _ remove_if_present_lem (λ _. sync_directory_lem unsynced)
