-- ===== src/Relay/Nonce/Replay.antt =====
-- core/internal/relay/nonce.go: an accepted nonce is not accepted again, over any run of the store.
use agentbell.Common.{
  ℕ, zero, suc, codes, ◌+◌, ◌≤◌, ◌<◌, Bool, true, false, List, [], ◌∷◌, Str, str_eq, str_eq_refl,
  ok-injective, insert, lookup-insert_self, Result, ok, err, ◌≡◌, ◌≢◌, All, arith, ◌==◌,
}
use agentbell.Actions.Triple.{
  Post, Triple, Triple-pure, Triple-raise, Triple-lift, Triple-if, Triple-bind, Triple-try,
  Triple-any,
}
use agentbell.Relay.{Host}
use agentbell.Relay.Protocol.{validate_identifier, validate_nonce}
use agentbell.Relay.Storage.{
  Error, NonceFile, Disk, World, Store, nonce_place, is_exist, lift, remove_if_present,
  write_new_private_json,
}
use agentbell.Relay.Storage.Calls.{write_new_private_json_lem}
use agentbell.Relay.Nonce.{
  new_record, after_write, expired, reclaim, accept_round, accept_loop, nonce_path, cleanup, accept,
  checked,
}
use agentbell.Relay.Nonce.Reserved.{Reserved, Other, accept_loop-Other, cleanup-Reserved}

abbrev Any : Disk → Type 0
Any k = Unit {0}

module _ (retention now t : ℕ) (soon : t < now + retention) (n : Str) where
  -- An acceptance leaves the nonce reserved.
  Accepted : Bool → Disk → Type 0
  Accepted b k = b ≡ true → Reserved retention n t k

  fresh :
      (k : Disk)
      → Reserved retention n t (
          nonce_place.with_files
            (insert n (NonceFile.whole (new_record retention now) now) k.nonces)
            k)
  fresh k = record {
    file = NonceFile.whole (new_record retention now) now;
    found = lookup-insert_self n _ k.nonces;
    late = ground (arith, soon);
  }

  accept_round-Accepted :
      (again : Store Bool)
      → Triple Any again Accepted (λ e. Any)
      → Triple Any (accept_round again retention n now) Accepted (λ e. Any)
  unfolding accept_round reclaim Accepted
  accept_round-Accepted again u = Triple-bind _ _ (Triple-try _ written) go
    where
      written :
          Triple Any
            (write_new_private_json nonce_place n (NonceFile.whole (new_record retention now) now))
            (λ _. Reserved retention n t)
            (λ e. Any)
      written =
          write_new_private_json_lem nonce_place n _ (λ k r. tt) (λ k r _. tt) (λ k r _. fresh k)
            (λ k r. tt)

      go :
          (r : Result Error (Unit {0}))
          → Triple
              (Post (λ _. Reserved retention n t) (λ e. Any) r)
              (after_write (reclaim again retention n now) r)
              Accepted
              (λ e. Any)
      go (ok u) = Triple-pure true (λ k q _. q)
      go (err e) =
          Triple-if (is_exist e) _ _
            (λ _. Triple-bind (expired retention n now) _ (Triple-any _) (λ old.
              Triple-if old _ _
                (λ _. Triple-bind (remove_if_present nonce_place n) _ (Triple-any _) (λ _. u))
                (λ _. Triple-pure false (λ k q x. absurd (ground (arith, x))))))
            (λ _. Triple-raise e (λ k r. tt))

  accept_loop-Accepted :
      (fuel : ℕ) → Triple Any (accept_loop fuel retention n now) Accepted (λ e. Any)
  unfolding accept_loop
  accept_loop-Accepted zero = Triple-raise Error.stuck (λ k r. tt)
  accept_loop-Accepted (suc fuel) = accept_round-Accepted _ (accept_loop-Accepted fuel)

module _ (h : Host) (retention : ℕ) where
  module _ (peer nonce : Str) (now t : ℕ) where
    pub accept-Accepted :
        t < now + retention
        → Triple Any
            (accept h retention peer nonce now)
            (λ b k. b ≡ true → Reserved retention (nonce_path h peer nonce) t k)
            (λ e. Any)
    unfolding accept Accepted
    accept-Accepted soon =
        Triple-bind (lift (checked (validate_identifier (codes "peer id") peer))) _ (Triple-any _)
          (λ _. Triple-bind (lift (checked (validate_nonce nonce))) _ (Triple-any _) (λ _.
            Triple-if (now == 0) _ _ (λ _. Triple-raise Error.no_time (λ k r. tt))
              (λ _. accept_loop-Accepted retention now t soon (nonce_path h peer nonce) 2)))

    -- An acceptance of any nonce, while the nonce of a path is reserved.
    pub accept-Other :
        (p : Str)
        → now ≤ t
        → Triple
            (Reserved retention p t)
            (accept h retention peer nonce now)
            (λ b k.
              Reserved retention p t k × (b ≡ true → str_eq (nonce_path h peer nonce) p ≡ false))
            (λ e. Reserved retention p t)
    unfolding accept Other
    accept-Other p early =
        Triple-bind _ _
          (Triple-lift {Q = λ _. Reserved retention p t}
            (checked (validate_identifier (codes "peer id") peer)) (kept _))
          (λ _.
            Triple-bind _ _
              (Triple-lift {Q = λ _. Reserved retention p t} (checked (validate_nonce nonce))
                (kept _))
              (λ _.
                Triple-if (now == 0) _ _ (λ _. Triple-raise Error.no_time (λ k r. r))
                  (λ _. accept_loop-Other retention p t now early (nonce_path h peer nonce) 2)))
      where
        kept :
            (r : Result Error (Unit {0})) (k : Disk)
            → Reserved retention p t k
            → Post (λ _. Reserved retention p t) (λ e. Reserved retention p t) r k
        kept (ok u) k q = q
        kept (err e) k q = q

  -- The operations of the store at their times, and a run of them.
  pub data Op : Type 0 where
    accept_op : Str → Str → ℕ → Op
    cleanup_op : ℕ → Op

  abbrev pub time : Op → ℕ
  time (accept_op peer nonce now) = now
  time (cleanup_op now) = now

  unfoldable pub run : List Op → World → World
  unfolding accept cleanup
  run [] w = w
  run (accept_op peer nonce now ∷ ops) w = run ops (accept h retention peer nonce now w).1
  run (cleanup_op now ∷ ops) w = run ops (cleanup retention now w).1

  run-Reserved :
      (p : Str) (t : ℕ) (ops : List Op) (w : World)
      → All (λ o. time o ≤ t) ops
      → Reserved retention p t w.disk
      → Reserved retention p t (run ops w).disk
  unfolding run
  run-Reserved p t [] w early r = r
  run-Reserved p t (accept_op peer nonce now ∷ ops) w (early, rest) r =
      run-Reserved p t ops (accept h retention peer nonce now w).1 rest
        (kept _ _ ((accept-Other peer nonce now t p early).at w r))
    where
      kept :
          (x : Result Error Bool) (k : Disk)
          → Post
              (λ b k.
                Reserved retention p t k × (b ≡ true → str_eq (nonce_path h peer nonce) p ≡ false))
              (λ e. Reserved retention p t)
              x
              k
          → Reserved retention p t k
      kept (ok b) k q = q.0
      kept (err e) k q = q
  run-Reserved p t (cleanup_op now ∷ ops) w (early, rest) r =
      run-Reserved p t ops (cleanup retention now w).1 rest
        (kept _ _ ((cleanup-Reserved retention p t now early).at w r))
    where
      kept :
          (x : Result Error ℕ) (k : Disk)
          → Post (λ _. Reserved retention p t) (λ e. Reserved retention p t) x k
          → Reserved retention p t k
      kept (ok b) k q = q
      kept (err e) k q = q

  -- Once `Accept` has taken a nonce, it takes it no second time before the retention has passed,
  -- whatever acceptances and cleanings at earlier times lie between, and whichever system calls fail.
  pub accept-no_replay :
      (peer nonce : Str) (now later : ℕ) (ops : List Op) (w : World)
      → later < now + retention
      → All (λ o. time o ≤ later) ops
      → (accept h retention peer nonce now w).0 ≡ ok true
      → (accept h retention peer nonce later (run ops (accept h retention peer nonce now w).1)).0
        ≢ ok true
  accept-no_replay peer nonce now later ops w soon early first second =
      refused _ _
        ((accept-Other peer nonce later later p (omega arith)).at _ (
          run-Reserved p later ops _ early
            (taken _ _ first ((accept-Accepted peer nonce now later soon).at w tt))))
        second
    where
      p : Str
      p = nonce_path h peer nonce

      taken :
          (x : Result Error Bool) (k : Disk)
          → x ≡ ok true
          → Post (λ b k. b ≡ true → Reserved retention p later k) (λ e. Any) x k
          → Reserved retention p later k
      taken (ok b) k e q = q (ok-injective e)
      taken (err e') k e q = absurd (cc)

      refused :
          (x : Result Error Bool) (k : Disk)
          → Post
              (λ b k. Reserved retention p later k × (b ≡ true → str_eq p p ≡ false))
              (λ e. Reserved retention p later)
              x
              k
          → x ≢ ok true
      refused (ok b) k q e = absurd (ground (arith, q.1 (ok-injective e), str_eq_refl p))
      refused (err e') k q e = cc
