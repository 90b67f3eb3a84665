-- ===== src/Queue/Enqueue/Found.antt =====
-- core/internal/queue/queue.go: how `Enqueue` finds the item of a key that is taken, wherever it is.
use agentbell.Common.{
  ℕ, suc, Bool, true, false, ◌||◌, List, [], ◌∷◌, ◌++◌, some, Str, codes, is_empty, has_suffix,
  str_eq, str_eq_iff, str_eq_refl, lookup, ok, err, ◌≡◌, refl, ap, ◌∙◌, if◌then◌else◌, inl, inr,
  Bool-cases, arith,
}
use agentbell.Event.{Notification}
use agentbell.Queue.Types.{Error}
use agentbell.Queue.Disk.{
  File, Directory, Disk, reliable, Files, Fs, files, file_at, pure, raise, ◌>>=◌, try, inspect,
  system_call,
}
use agentbell.Actions.{bind-step}
use agentbell.Queue.Enqueue.{
  marker, open_marker, read_marker, poll, wait_for, else_retry, trim_space, durable_id, item_exists,
  glob, any_match, item_suffix, reserve, Wait,
}

or_right : (a b : Bool) → b ≡ true → (a || b) ≡ true
or_right a b h = ground arith

pub has_suffix-append : (p s : Str) → has_suffix (p ++ s) s ≡ true
unfolding has_suffix
has_suffix-append [] [] = refl
has_suffix-append [] (c ∷ s) = rw (str_eq_refl (c ∷ s))
has_suffix-append (c ∷ p) s =
    or_right (str_eq (c ∷ (p ++ s)) s) (has_suffix (p ++ s) s) (has_suffix-append p s)

any_match-lookup :
    (id n : Str) (f : File) (fs : Files)
    → has_suffix n (item_suffix id) ≡ true
    → lookup n fs ≡ some f
    → any_match id fs ≡ true
unfolding any_match lookup
any_match-lookup id n f [] h e = absurd (cc)
any_match-lookup id n f ((m, g) ∷ fs) h e = elim (Bool-cases (str_eq m n)) [
  | inl same ↦ rw ((str_eq_iff m n).0 same, h)
  | inr other ↦ ground (arith, any_match-lookup id n f fs h (rw other at e))
]

pub has_suffix-behind : (p s t : Str) → has_suffix s t ≡ true → has_suffix (p ++ s) t ≡ true
unfolding has_suffix
has_suffix-behind [] s t h = h
has_suffix-behind (c ∷ p) s t h = or_right (str_eq (c ∷ (p ++ s)) t) _ (has_suffix-behind p s t h)

-- The marker of a key holds an id, and a file with the name of an item of that id is somewhere.
pub record IsTaken (key id : Str) (k : Disk) : Type 0 where
  pub marked : marker key k ≡ some (id ++ codes "\n")
  pub name : Str
  pub place : Directory
  pub file : File
  pub there : file_at k place name ≡ some file
  pub named : has_suffix name (item_suffix id) ≡ true

module _ (key id : Str) (k : Disk) (taken : IsTaken key id k)
    (plain : trim_space (id ++ codes "\n") ≡ id) (full : is_empty id ≡ false) where
  open_marker-taken :
      (c : ℕ) → open_marker key (reliable k c) ≡ (err Error.exist, reliable k (suc c))
  unfolding open_marker system_call inspect raise ◌>>=◌
  open_marker-taken c = rw taken.marked

  matched : any_match id (files k taken.place) ≡ true
  matched = any_match-lookup id taken.name taken.file (files k taken.place) taken.named taken.there

  last_place :
      (d : Directory)
      → any_match id (files k d) ≡ true
      → any_match id (files k Directory.pending) ≡ false
      → any_match id (files k Directory.inflight) ≡ false
      → any_match id (files k Directory.history) ≡ false
      → any_match id (files k Directory.dead) ≡ true
  last_place Directory.pending m p i h = absurd (cc)
  last_place Directory.inflight m p i h = absurd (cc)
  last_place Directory.history m p i h = absurd (cc)
  last_place Directory.dead m p i h = m

  -- An action that gives a value and leaves the directories as they are.
  abbrev pub Gives : {A : Type 0} → Fs A → A → ℕ → Type 0
  Gives m a c = (c' : ℕ) × (m (reliable k c) ≡ (ok a, reliable k c'))

  found-durable : (c : ℕ) → Gives (durable_id id) true c
  unfolding durable_id item_exists glob try system_call inspect pure ◌>>=◌
  found-durable c = elim (Bool-cases (any_match id (files k Directory.pending))) [
    | inl p ↦ (suc c, rw (full, p))
    | inr p ↦ elim (Bool-cases (any_match id (files k Directory.inflight))) [
      | inl i ↦ (suc (suc c), rw (full, p, i))
      | inr i ↦ elim (Bool-cases (any_match id (files k Directory.history))) [
        | inl h ↦ (suc (suc (suc c)), rw (full, p, i, h))
        | inr h ↦
            (suc (suc (suc (suc c))), rw (full, p, i, h, last_place taken.place matched p i h))
      ]
    ]
  ]

  trimmed-durable : (c : ℕ) → Gives (durable_id (trim_space (id ++ codes "\n"))) true c
  trimmed-durable c = let (c', e) = found-durable c in (c', rw plain e)

  read_marker-held :
      (c : ℕ)
      → else_retry (read_marker key) (reliable k c) ≡ (ok (id ++ codes "\n"), reliable k (suc c))
  unfolding else_retry read_marker system_call inspect pure ◌>>=◌
  read_marker-held c = rw taken.marked

  poll-found : (otherwise : Fs Str) (c : ℕ) → Gives (poll key otherwise) id c
  unfolding poll pure
  poll-found otherwise c =
      let (c', durable) = trimmed-durable (suc c) in
      (
        c',
        bind-step (else_retry (read_marker key))
              (λ text. durable_id (trim_space text) >>= λ durable.
                if durable then pure (trim_space text) else otherwise)
              (reliable k c) (read_marker-held c)
            ∙ (bind-step (durable_id (trim_space (id ++ codes "\n")))
                  (λ durable. if durable then pure (trim_space (id ++ codes "\n")) else otherwise)
                  (reliable k (suc c)) durable
                ∙ ap (λ t. (ok t, reliable k c')) plain),
      )

  wait_for-found :
      (acts : List (Disk → Disk)) (stale : Bool) (c : ℕ) → Gives (wait_for key acts stale) id c
  unfolding wait_for
  wait_for-found [] stale c = poll-found _ c
  wait_for-found (act ∷ acts) stale c = poll-found _ c

  pub reserve-found :
      (id' : Str) (n' : Notification) (now' : ℕ) (v : Wait) (vs : List Wait) (c : ℕ)
      → Gives (reserve key id' n' now' (v ∷ vs)) (id, true) c
  unfolding reserve try pure ◌>>=◌
  reserve-found id' n' now' v vs c =
      let (c', e) = wait_for-found v.acts v.stale (suc c) in (c', rw (open_marker-taken c, e))
