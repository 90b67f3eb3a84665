-- ===== src/Queue/Durable/Recovery.antt =====
-- core/internal/queue/queue.go: `Claim`, `RecoverExpired` and `Retry` on a sound name.
use agentbell.Common.{
  ℕ, suc, Bool, true, false, List, [], ◌∷◌, Str, codes, has_suffix, str_eq, All, Result, ok, err,
  ◌≡◌, refl, sym, ◌∙◌,
}
use agentbell.Queue.Types.{State, Item, Error}
use agentbell.Queue.Disk.{Directory, Disk, Fs, file_at, pure, ◌>>=◌, is_exist, is_some}
use agentbell.Queue.Listing.{list_unlocked}
use agentbell.Queue.Items.{
  is_after, claim, exists, completed_transition, recovered, recover_items, recover_expired, retried,
  retry_first, retry,
}
use agentbell.Queue.Triple.{
  Post, Triple, Triple-pure, Triple-raise, Triple-bind, Triple-if, Triple-weaken, Triple-ignore,
  Triple-try,
}
use agentbell.Queue.Durable.{same_directory, Elsewhere, IsSound, KeepsSound}
use agentbell.Queue.Durable.Calls.{stat_lem, remove_lem, transition-KeepsSound}
use agentbell.Queue.Durable.Lists.{IsHealthy, list_unlocked-Lists}
use agentbell.Queue.Durable.Moves.{
  some_of_is_some, claim_first-KeepsSound, recovered-healthy, retried-healthy,
}

module _ (name : Str) where
  -- A file that is reported to exist is there; a failing call reports none.
  exists_lem :
      (d : Directory) (n : Str)
      → Triple
          (IsSound name)
          (exists d n)
          (λ b k. IsSound name k × (b ≡ true → is_some (file_at k d n) ≡ true))
          (λ _. IsSound name)
  unfolding exists
  exists_lem d n = Triple-bind _ _ (Triple-try _ (stat_lem d n)) answer
    where
      answer :
          (r : Result Error Bool)
          → Triple {X = Error}
              (λ k.
                Post
                  (λ b k. IsSound name k × (b ≡ is_some (file_at k d n)))
                  (λ e k. IsSound name k × (is_exist e ≡ false))
                  r
                  k)
              (pure (elim r [ ok present ↦ present | err e ↦ false ]))
              (λ b k. IsSound name k × (b ≡ true → is_some (file_at k d n) ≡ true))
              (λ _. IsSound name)
      answer (ok b) = Triple-pure b (λ k q. (q.0, λ t. sym q.1 ∙ t))
      answer (err e) = Triple-pure false (λ k q. (q.0, λ t. cc))

  -- The file is in some directory other than `inflight` if the answer is yes.
  completed_transition_lem :
      (n : Str)
      → Triple
          (IsSound name)
          (completed_transition n)
          (λ b k. IsSound name k × (b ≡ true → Elsewhere Directory.inflight n k))
          (λ _. IsSound name)
  unfolding completed_transition
  completed_transition_lem n = Triple-bind _ _ (exists_lem Directory.pending n) (λ p.
      Triple-if p _ _
        (λ yes'. Triple-pure true (λ k q. (q.0, λ _. there Directory.pending k refl (q.1 yes'))))
        (λ no'.
          Triple-bind _ _
            (Triple-weaken _ (exists_lem Directory.history n) (λ k q. q.0) (λ b k q. q)
              (λ e k q. q))
            (λ h.
              Triple-if h _ _
                (λ yes'.
                  Triple-pure true (λ k q. (q.0, λ _. there Directory.history k refl (q.1 yes'))))
                (λ no'.
                  Triple-weaken _ (exists_lem Directory.dead n) (λ k q. q.0)
                    (λ b k q. (q.0, λ t. there Directory.dead k refl (q.1 t))) (λ e k q. q)))))
    where
      there :
          (d : Directory) (k : Disk)
          → same_directory Directory.inflight d ≡ false
          → is_some (file_at k d n) ≡ true
          → Elsewhere Directory.inflight n k
      there d k apart t = let (f, at) = some_of_is_some (file_at k d n) t in (d, f, apart, at)

  recover_items-KeepsSound :
      (now : ℕ) (items : List Item)
      → All IsHealthy items
      → KeepsSound name (recover_items now items)
  unfolding recover_items
  recover_items-KeepsSound now [] a = Triple-pure 0 (λ k s. s)
  recover_items-KeepsSound now (item ∷ items) a =
      let t = recover_items-KeepsSound now items a.1 in
      Triple-bind _ _ (completed_transition_lem item.file_name) (λ b.
        Triple-if b _ _
          (λ done.
            Triple-bind _ _
              (Triple-ignore _ (
                Triple-weaken _ (remove_lem name Directory.inflight item.file_name)
                  (λ k q. (q.0, q.1 done)) (λ _ k q. q) (λ e k q. q)))
              (λ _. t))
          (λ _.
            Triple-if (is_after item.lease_until now) _ _
              (λ _. Triple-weaken _ t (λ k q. q.0) (λ n k q. q) (λ e k q. q))
              (λ _.
                Triple-bind _ _
                  (Triple-weaken _
                    (transition-KeepsSound name Directory.inflight Directory.pending item.file_name
                      (recovered now item.envelope) refl (recovered-healthy now item.envelope a.0))
                    (λ k q. q.0) (λ _ k q. q) (λ e k q. q))
                  (λ _. Triple-bind _ _ t (λ n. Triple-pure (suc n) (λ k s. s))))))

  retry_first-KeepsSound :
      (id : Str) (now : ℕ) (items : List Item)
      → All IsHealthy items
      → KeepsSound name (retry_first id now items)
  unfolding retry_first
  retry_first-KeepsSound id now [] a = Triple-raise Error.dead_event_not_found (λ k s. s)
  retry_first-KeepsSound id now (item ∷ items) a =
      let t = retry_first-KeepsSound id now items a.1 in
      Triple-if (str_eq item.id id) _ _
        (λ _.
          transition-KeepsSound name Directory.dead Directory.pending item.file_name
            (retried now item.envelope) refl (retried-healthy now item.envelope a.0))
        (λ _. t)

  -- An action on the items of a listing.
  after_list :
      {A : Type 0} (state : State) (f : List Item → Fs A)
      → has_suffix name (codes ".json") ≡ true
      → ((items : List Item) → All IsHealthy items → KeepsSound name (f items))
      → KeepsSound name (list_unlocked state >>= f)
  after_list state f json t =
      Triple-bind _ f (list_unlocked-Lists name json state)
        (λ items. record { at = λ w q. (t items q.1).at w q.0 })

  pub claim-KeepsSound :
      (now lease : ℕ) → has_suffix name (codes ".json") ≡ true → KeepsSound name (claim now lease)
  unfolding claim
  claim-KeepsSound now lease json =
      after_list State.pending _ json (claim_first-KeepsSound name now lease)

  pub recover_expired-KeepsSound :
      (now : ℕ) → has_suffix name (codes ".json") ≡ true → KeepsSound name (recover_expired now)
  unfolding recover_expired
  recover_expired-KeepsSound now json =
      after_list State.inflight _ json (recover_items-KeepsSound now)

  pub retry-KeepsSound :
      (id : Str) (now : ℕ) → has_suffix name (codes ".json") ≡ true → KeepsSound name (retry id now)
  unfolding retry
  retry-KeepsSound id now json = after_list State.dead _ json (retry_first-KeepsSound id now)
