-- ===== src/Queue/Enqueue/Reservation.antt =====
-- core/internal/queue/queue.go: what a success of `Enqueue` leaves in the directories.
use agentbell.Common.{
  ℕ, Bool, true, false, List, [], ◌∷◌, ◌++◌, some, Str, codes, lookup-insert_self, str_eq_refl,
  Result, ok, err, ◌≡◌, refl, sym, subst, arith,
}
use agentbell.Event
use agentbell.Event.{Notification}
use agentbell.Queue.Types.{Envelope, Error}
use agentbell.Queue.Disk.{File, Directory, Disk, Fs, file_at, put_file, lift, try, is_exist}
use agentbell.Queue.Listing.{write, write_new}
use agentbell.Queue.Triple.{
  Post, Triple, Triple-pure, Triple-raise, Triple-lift, Triple-if, Triple-weaken, Triple-bind,
  Triple-ignore, Triple-modify, Triple-try, Triple-any, Triple-system_call,
}
use agentbell.Queue.Durable.{file_at-put}
use agentbell.Queue.Durable.Calls.{Triple-after_call, stat_lem}
use agentbell.Queue.Enqueue.{
  marker, write_marker, publish, clean_up, publish_or_clean, after_wait, after_open, open_marker,
  wait_for, reserve, Wait, item_name, new_envelope, enqueue, random_id, checked,
}

abbrev Any : Disk → Type 0
Any k = Unit {0}

abbrev AnyError : Error → Disk → Type 0
AnyError e k = Unit {0}

-- A new file stands in the directory, and nothing else has changed.
write_new-puts :
    {P : Disk → Type 0} (d : Directory) (n : Str) (e : Envelope)
    → Triple P
        (write_new d n e)
        (λ _ k. (k₀ : Disk) × P k₀ × (k ≡ put_file d n (File.envelope e) k₀))
        AnyError
unfolding write_new write
write_new-puts {P} d n e =
    Triple-bind _ _
      (Triple-weaken _ (stat_lem {P = P} d n) (λ k p. p) (λ b k q. q.0) (λ e' k q. tt))
      (λ b. Triple-if b _ _ (λ _. Triple-raise Error.exist (λ k q. tt)) (λ _. written))
  where
    failed : (k : Disk) → P k → Unit {0}
    failed k p = tt

    written :
        Triple P
          (write d n e)
          (λ _ k. (k₀ : Disk) × P k₀ × (k ≡ put_file d n (File.envelope e) k₀))
          AnyError
    written = Triple-after_call _ failed (
        Triple-after_call _ failed (
          Triple-after_call _ failed (
            Triple-after_call _ failed (
              Triple-after_call _ failed
                (Triple-after_call _ failed (Triple-modify _ (λ k p. (k, p, refl))))))))

-- The marker of a key holds an id, and the item of that id is pending.
pub record Holds (key id : Str) (n : Notification) (now : ℕ) (k : Disk) : Type 0 where
  pub marked : marker key k ≡ some (id ++ codes "\n")
  pub item :
      file_at k Directory.pending (item_name now id) ≡ some (File.envelope (new_envelope id n now))

module _ (key id : Str) (n : Notification) (now : ℕ) where
  write_marker-marked :
      Triple Any
        (write_marker key (id ++ codes "\n"))
        (λ _ k. marker key k ≡ some (id ++ codes "\n"))
        AnyError
  unfolding write_marker
  write_marker-marked =
      Triple-after_call _ (λ k p. tt)
        (Triple-modify _ (λ k p. lookup-insert_self key (id ++ codes "\n") k.keys))

  publish-Holds : Triple Any (publish key id n now) (λ _. Holds key id n now) AnyError
  unfolding publish
  publish-Holds = Triple-bind _ _ write_marker-marked (λ _.
      Triple-after_call _ (λ k p. tt)
        (Triple-after_call _ (λ k p. tt)
          (Triple-weaken _
            (write_new-puts Directory.pending (item_name now id) (new_envelope id n now)) (λ k p. p)
            (λ _ k q. holds k q.0 q.1 q.2) (λ e k q. tt))))
    where
      holds :
          (k k₀ : Disk)
          → marker key k₀ ≡ some (id ++ codes "\n")
          → k
            ≡ put_file Directory.pending
                (item_name now id)
                (File.envelope (new_envelope id n now))
                k₀
          → Holds key id n now k
      holds k k₀ m e = record {
        marked = rw e m;
        item = rw (
          e,
          file_at-put Directory.pending Directory.pending (item_name now id) (item_name now id)
              (File.envelope (new_envelope id n now)) k₀,
          str_eq_refl (item_name now id),
        );
      }

  -- Success as no duplicate is with the id that was given.
  unfoldable pub Fresh : Str × Bool → Disk → Type 0
  Fresh a k = a.1 ≡ false → (a.0 ≡ id) × Holds key id n now k

  clean_up-Fresh :
      (r : Result Error (Unit {0}))
      → Triple (λ k. Post (λ _. Holds key id n now) AnyError r k) (clean_up key id r) Fresh AnyError
  unfolding Fresh
  clean_up-Fresh (ok u) =
      Triple-bind _ _
        (Triple-ignore _ (Triple-system_call {E = λ _. Holds key id n now} (λ k p. p)))
        (λ _. Triple-pure _ (λ k h _. (refl, h)))
  clean_up-Fresh (err e) =
      Triple-bind _ _ (Triple-any _)
        (λ _. Triple-bind _ _ (Triple-any _) (λ _. Triple-raise e (λ k p. tt)))

  publish_or_clean-Fresh : Triple Any (publish_or_clean key id n now) Fresh AnyError
  unfolding publish_or_clean
  publish_or_clean-Fresh = Triple-bind _ _ (Triple-try _ publish-Holds) clean_up-Fresh

  after_wait-Fresh :
      (again : Fs (Str × Bool)) (r : Result Error Str)
      → Triple Any again Fresh AnyError
      → Triple Any (after_wait again r) Fresh AnyError
  unfolding Fresh
  after_wait-Fresh again (ok found) t = Triple-pure (found, true) (λ k p e. ground (arith, e))
  after_wait-Fresh again (err Error.retry_reservation) t = t
  after_wait-Fresh again (err e) t = Triple-raise _ (λ k p. tt)

  after_open-Fresh :
      (fresh taken : Fs (Str × Bool)) (r : Result Error (Unit {0}))
      → Triple Any fresh Fresh AnyError
      → Triple Any taken Fresh AnyError
      → Triple Any (after_open fresh taken r) Fresh AnyError
  after_open-Fresh fresh taken (ok u) f t = f
  after_open-Fresh fresh taken (err e) f t =
      Triple-if (is_exist e) _ _ (λ _. t) (λ _. Triple-raise e (λ k p. tt))

  reserve-Fresh : (waits : List Wait) → Triple Any (reserve key id n now waits) Fresh AnyError
  unfolding reserve
  reserve-Fresh [] = Triple-bind (try (open_marker key)) _ (Triple-any _) (λ r.
      after_open-Fresh _ _ r publish_or_clean-Fresh (Triple-raise Error.contended (λ k p. tt)))
  reserve-Fresh (w ∷ ws) = Triple-bind (try (open_marker key)) _ (Triple-any _) (λ r.
      after_open-Fresh _ _ r publish_or_clean-Fresh (
        Triple-bind (try (wait_for key w.acts w.stale)) _ (Triple-any _)
          (λ found. after_wait-Fresh _ found (reserve-Fresh ws))))

-- Once `Enqueue` has succeeded with an id that is no duplicate, the id is the random one, the marker
-- of the notification's key holds it, and its item is pending, whichever system calls failed and
-- whatever other processes did while it waited for a reservation.
pub enqueue-IsDurable :
    (key_file : Str → Str) (n : Notification) (now : ℕ) (random : Str) (waits : List Wait)
    → Triple Any
        (enqueue key_file n now (some random) waits)
        (Fresh (key_file n.idempotency_key) random n now)
        AnyError
unfolding enqueue
enqueue-IsDurable key_file n now random waits =
    Triple-bind _ _ (Triple-any (lift (checked (Event.validate n)))) (λ _.
      Triple-bind _ _
        (Triple-lift {Q = λ id _. id ≡ random} (random_id (some random)) (λ k p. refl))
        (λ id. again id))
  where
    again :
        (id : Str)
        → Triple
            (λ _. id ≡ random)
            (reserve (key_file n.idempotency_key) id n now waits)
            (Fresh (key_file n.idempotency_key) random n now)
            AnyError
    again id = record {
      at = λ w p.
          (subst
              (λ i.
                Triple Any (reserve (key_file n.idempotency_key) i n now waits)
                  (Fresh (key_file n.idempotency_key) random n now) AnyError)
              (sym p) (reserve-Fresh (key_file n.idempotency_key) random n now waits)).at
            w tt;
    }
