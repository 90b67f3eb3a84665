-- ===== src/Relay/Nonce/Reserved.antt =====
-- core/internal/relay/nonce.go: a nonce that was accepted is reserved until its retention has passed.
use agentbell.Common.{
  ℕ, zero, suc, ◌+◌, ◌≤◌, ◌<◌, Bool, true, false, List, [], ◌∷◌, none, some, Str, str_eq,
  str_eq_iff, lookup, insert, delete, lookup-insert, lookup-delete, leb, leb→le, not, ◌==◌, Result,
  ok, err, ◌≡◌, sym, subst, ◌∙◌, if◌then◌else◌, arith, inl, inr, Bool-cases, has_suffix, codes, map,
}
use agentbell.Queue.Disk.{is_some}
use agentbell.Actions.Triple.{
  Post, Triple, Triple-pure, Triple-raise, Triple-if, Triple-weaken, Triple-bind, Triple-inspect,
  Triple-try, Keeps,
}
use agentbell.Relay.Storage.{
  Error, NonceRecord, NonceFile, Disk, Store, nonce_place, is_exist, is_not_exist,
  write_new_private_json, remove_if_present,
}
use agentbell.Relay.Storage.Calls.{
  Triple-after_call, write_new_private_json_lem, read_file_lem, remove_if_present_lem,
}
use agentbell.Relay.Nonce.{
  is_whole, new_record, expired_file, expired_result, expired, after_write, reclaim, accept_round,
  accept_loop, cleanup_entries, cleanup,
}

-- Until when a file reserves its nonce.
abbrev pub deadline : ℕ → NonceFile → ℕ
deadline retention (NonceFile.partial at) = at + retention
deadline retention (NonceFile.whole r at) = if is_whole r then r.expires_at else at + retention

pub deadline_whole :
    (retention : ℕ) (r : NonceRecord) (at : ℕ)
    → is_whole r ≡ true
    → deadline retention (NonceFile.whole r at) ≡ r.expires_at
deadline_whole retention r at w = rw w

pub deadline_broken :
    (retention : ℕ) (r : NonceRecord) (at : ℕ)
    → is_whole r ≡ false
    → deadline retention (NonceFile.whole r at) ≡ at + retention
deadline_broken retention r at w = rw w

module _ (retention : ℕ) (p : Str) (t : ℕ) where
  -- The nonce of a path is reserved at an instant.
  pub record Reserved (k : Disk) : Type 0 where
    pub file : NonceFile
    pub found : lookup p k.nonces ≡ some file
    pub late : t < deadline retention file

  present : (k : Disk) → Reserved k → is_some (lookup p k.nonces) ≡ true
  present k r = rw r.found

  -- A file of another name comes or goes.
  insert_other-Reserved :
      (n : Str) (f : NonceFile) (k : Disk)
      → str_eq n p ≡ false
      → Reserved k
      → Reserved (nonce_place.with_files (insert n f k.nonces) k)
  insert_other-Reserved n f k other r = record {
    file = r.file;
    found = rw (lookup-insert n p f k.nonces, other, r.found);
    late = r.late;
  }

  delete_other-Reserved :
      (n : Str) (k : Disk)
      → str_eq n p ≡ false
      → Reserved k
      → Reserved (nonce_place.with_files (delete n k.nonces) k)
  delete_other-Reserved n k other r = record {
    file = r.file;
    found = rw (lookup-delete n p k.nonces, other, r.found);
    late = r.late;
  }

  same : (n : Str) → str_eq n p ≡ true → n ≡ p
  same n e = (str_eq_iff n p).0 e

  -- The name of a file that is not there is another one.
  absent-other :
      (n : Str) (k : Disk) → Reserved k → is_some (lookup n k.nonces) ≡ false → str_eq n p ≡ false
  absent-other n k r a = elim (Bool-cases (str_eq n p)) [
    | inl e ↦
        let there =
          subst (λ x. is_some (lookup x k.nonces) ≡ true) (sym (same n e)) (present k r) in
        cc
    | inr e ↦ e
  ]

  module _ (now : ℕ) (early : now ≤ t) (n : Str) where
    -- What `true` as an answer says: the nonce is another one.
    unfoldable pub Other : Bool → Disk → Type 0
    Other b k = Reserved k × (b ≡ true → str_eq n p ≡ false)

    not_expired :
        (f : NonceFile) (k : Disk)
        → Reserved k
        → lookup n k.nonces ≡ some f
        → leb (deadline retention f) now ≡ true
        → str_eq n p ≡ false
    not_expired f k r found old = elim (Bool-cases (str_eq n p)) [
      | inl e ↦
          let here = subst (λ x. lookup x k.nonces ≡ some f) (same n e) found in
          let one : f ≡ r.file = some-injective (sym here ∙ r.found) in
          let late : t < deadline retention f =
            subst (λ x. t < deadline retention x) (sym one) r.late in
          absurd (omega (arith, late, early, leb→le (deadline retention f) now old))
      | inr e ↦ e
    ]
      where
        some-injective : {a b : NonceFile} → some a ≡ some b → a ≡ b
        some-injective e = cc

    expired_file-Other :
        (f : NonceFile)
        → Triple
            (λ k. Reserved k × (lookup n k.nonces ≡ some f))
            (expired_file retention now f)
            Other
            (λ e. Reserved)
    unfolding Other
    expired_file-Other (NonceFile.partial at) =
        Triple-after_call _ (λ k q. q.0)
          (Triple-pure (leb (at + retention) now)
            (λ k q. (q.0, not_expired (NonceFile.partial at) k q.0 q.1)))
    expired_file-Other (NonceFile.whole r at) =
        Triple-if (is_whole r) _ _
          (λ w. Triple-pure (leb r.expires_at now) (λ k q. (
            q.0,
            λ old.
                not_expired (NonceFile.whole r at) k q.0 q.1
                  (subst (λ x. leb x now ≡ true) (sym (deadline_whole retention r at w)) old),
          )))
          (λ w.
            Triple-after_call _ (λ k q. q.0)
              (Triple-pure (leb (at + retention) now) (λ k q. (
                q.0,
                λ old.
                    not_expired (NonceFile.whole r at) k q.0 q.1
                      (subst (λ x. leb x now ≡ true) (sym (deadline_broken retention r at w)) old),
              ))))

    expired-Other : Triple Reserved (expired retention n now) Other (λ e. Reserved)
    unfolding expired Other
    expired-Other = Triple-bind _ _ (Triple-try _ (read_file_lem nonce_place n)) go
      where
        go :
            (r : Result Error NonceFile)
            → Triple
                (Post
                  (λ f k. Reserved k × (lookup n k.nonces ≡ some f))
                  (λ e k. Reserved k × (is_not_exist e ≡ true → lookup n k.nonces ≡ none))
                  r)
                (expired_result retention now r)
                Other
                (λ e. Reserved)
        go (ok f) = expired_file-Other f
        go (err e) =
            Triple-if (is_not_exist e) _ _
              (λ m. Triple-pure true (λ k q. (q.0, λ _. absent-other n k q.0 (rw (q.1 m)))))
              (λ m. Triple-raise e (λ k q. q.0))

    accept_round-Other :
        (again : Store Bool)
        → Triple Reserved again Other (λ e. Reserved)
        → Triple Reserved (accept_round again retention n now) Other (λ e. Reserved)
    unfolding accept_round reclaim Other
    accept_round-Other again t = Triple-bind _ _ (Triple-try _ written) go
      where
        written :
            Triple Reserved
              (write_new_private_json nonce_place n
                (NonceFile.whole (new_record retention now) now))
              (λ _ k. Reserved k × (str_eq n p ≡ false))
              (λ e. Reserved)
        written =
            write_new_private_json_lem nonce_place n _ (λ k r. r) (λ k r _. r)
              (λ k r absent.
                let other = absent-other n k r absent in
                (insert_other-Reserved n _ k other r, other))
              (λ k q. q.0)

        go :
            (r : Result Error (Unit {0}))
            → Triple
                (Post (λ _ k. Reserved k × (str_eq n p ≡ false)) (λ e. Reserved) r)
                (after_write (reclaim again retention n now) r)
                Other
                (λ e. Reserved)
        go (ok u) = Triple-pure true (λ k q. (q.0, λ _. q.1))
        go (err e) =
            Triple-if (is_exist e) _ _
              (λ _. Triple-bind (expired retention n now) _ expired-Other (λ old.
                Triple-if old _ _
                  (λ yes.
                    Triple-bind (remove_if_present nonce_place n) _
                      (remove_if_present_lem nonce_place n (λ k q. q.0) (λ k q. q.0)
                        (λ k q. delete_other-Reserved n k (q.1 yes) q.0))
                      (λ _. t))
                  (λ no. Triple-pure false (λ k q. (q.0, λ x. cc)))))
              (λ _. Triple-raise e (λ k r. r))

    -- An acceptance keeps the nonce reserved, and accepts only another one.
    pub accept_loop-Other :
        (fuel : ℕ) → Triple Reserved (accept_loop fuel retention n now) Other (λ e. Reserved)
    unfolding accept_loop
    accept_loop-Other zero = Triple-raise Error.stuck (λ k r. r)
    accept_loop-Other (suc fuel) = accept_round-Other _ (accept_loop-Other fuel)

  module _ (now : ℕ) (early : now ≤ t) where
    cleanup_entries-Reserved :
        (names : List Str) (removed : ℕ)
        → Keeps Reserved (cleanup_entries retention now names removed)
    unfolding cleanup_entries Other
    cleanup_entries-Reserved [] removed = Triple-pure removed (λ k r. r)
    cleanup_entries-Reserved (n ∷ ns) removed =
        let skip = cleanup_entries-Reserved ns removed in
        let next = cleanup_entries-Reserved ns (suc removed) in
        Triple-if (not (has_suffix n (codes ".json"))) _ _ (λ _. skip)
          (λ _. Triple-bind _ _ (expired-Other now early n) (λ old.
            Triple-if old _ _
              (λ yes.
                Triple-bind _ _
                  (remove_if_present_lem nonce_place n (λ k q. q.0) (λ k q. q.0)
                    (λ k q. delete_other-Reserved n k (q.1 yes) q.0))
                  (λ _. next))
              (λ no. Triple-weaken _ skip (λ k q. q.0) (λ m k r. r) (λ e k r. r))))

    pub cleanup-Reserved : Keeps Reserved (cleanup retention now)
    unfolding cleanup
    cleanup-Reserved =
        Triple-if (now == 0) _ _ (λ _. Triple-raise Error.no_time (λ k r. r))
          (λ _.
            Triple-after_call _ (λ k r. r)
              (Triple-bind _ _ (Triple-inspect (λ k. map (λ e. e.0) k.nonces)) (λ names.
                Triple-weaken _ (cleanup_entries-Reserved names 0) (λ k q. q.0) (λ m k r. r)
                  (λ e k r. r))))
