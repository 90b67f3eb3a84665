-- ===== src/Queue/Durable/Calls.antt =====
-- core/internal/queue/queue.go: the system calls, and the moves of a file made of them, on a sound name.
use agentbell.Common.{
  true, false, ◌++◌, Str, codes, has_suffix, str_eq, str_eq_iff, str_eq_refl, Option, none, some,
  ◌≡◌, refl, sym, ◌∙◌, inl, inr, Bool-cases, subst,
}
use agentbell.Queue.Types.{Envelope, Error}
use agentbell.Queue.Disk.{
  File, Directory, Disk, Fs, file_at, put_file, delete_file, is_exist, ◌>>=◌, system_call, stat,
  read_file, remove, or_missing, is_some,
}
use agentbell.Queue.Listing.{healthy, write, write_new, replace, transition, quarantine}
use agentbell.Queue.Triple.{
  Triple, Triple-pure, Triple-raise, Triple-bind, Triple-modify, Triple-system_call, Triple-inspect,
  Triple-if, Triple-weaken, Triple-unless_missing,
}
use agentbell.Queue.Durable.{
  same_directory, file_at-put, healthy_file, Elsewhere, IsSound, KeepsSound,
}
use agentbell.Queue.Durable.Files.{
  corrupt_not_json, put-IsSound, put_other-IsSound, delete_other-IsSound, delete-Elsewhere-IsSound,
}

-- A system call before an action.
pub Triple-after_call :
    {A : Type 0} {P : Disk → Type 0} {Q : A → Disk → Type 0} {E : Error → Disk → Type 0} (m : Fs A)
    → ((k : Disk) → P k → E Error.io k)
    → Triple P m Q E
    → Triple P (system_call >>= λ _. m) Q E
Triple-after_call m h t = Triple-bind system_call _ (Triple-system_call h) (λ _. t)

same_directory_refl : (d : Directory) → same_directory d d ≡ true
same_directory_refl Directory.pending = refl
same_directory_refl _ = refl

module _ {P : Disk → Type 0} (d : Directory) (n : Str) where
  pub stat_lem :
      Triple P
        (stat d n)
        (λ b k. P k × (b ≡ is_some (file_at k d n)))
        (λ e k. P k × (is_exist e ≡ false))
  unfolding stat
  stat_lem = Triple-after_call _ (λ k p. (p, refl)) (Triple-inspect _)

  pub read_file_lem : Triple P (read_file d n) (λ f k. P k × (file_at k d n ≡ some f)) (λ e k. P k)
  unfolding read_file
  read_file_lem = Triple-after_call _ (λ k p. p) (Triple-bind _ or_missing (Triple-inspect _) found)
    where
      found :
          (o : Option File)
          → Triple
              (λ k. P k × (o ≡ file_at k d n))
              (or_missing o)
              (λ f k. P k × (file_at k d n ≡ some f))
              (λ e k. P k)
      found none = Triple-raise Error.not_exist (λ k h. h.0)
      found (some f) = Triple-pure f (λ k h. (h.0, sym h.1))

module _ (name : Str) (d : Directory) (n : Str) where
  pub write_lem :
      (e : Envelope)
      → healthy e ≡ true
      → Triple
          (IsSound name)
          (write d n e)
          (λ _ k. IsSound name k × (file_at k d n ≡ some (File.envelope e)))
          (λ e' k. IsSound name k × (is_exist e' ≡ false))
  unfolding write
  write_lem e h = Triple-after_call _ failed (
      Triple-after_call _ failed (
        Triple-after_call _ failed (
          Triple-after_call _ failed (
            Triple-after_call _ failed (
              Triple-after_call _ failed (
                Triple-modify _ (λ k s. (
                  put-IsSound name d n (File.envelope e) k h s,
                  rw (
                    file_at-put d d n n (File.envelope e) k,
                    same_directory_refl d,
                    str_eq_refl n,
                  ),
                ))))))))
    where
      failed : (k : Disk) → IsSound name k → IsSound name k × (is_exist Error.io ≡ false)
      failed k s = (s, refl)

  pub write_new_lem :
      (e : Envelope)
      → healthy e ≡ true
      → Triple
          (IsSound name)
          (write_new d n e)
          (λ _ k. IsSound name k × (file_at k d n ≡ some (File.envelope e)))
          (λ e' k. IsSound name k × (is_exist e' ≡ true → is_some (file_at k d n) ≡ true))
  unfolding write_new
  write_new_lem e h =
      Triple-bind _ _
        (Triple-weaken _ (stat_lem d n) (λ k s. s) (λ b k q. q) (λ e' k q. (q.0, λ x. cc)))
        (λ b.
          Triple-if b _ _
            (λ present. Triple-raise Error.exist (λ k q. (q.0, λ _. sym q.1 ∙ present)))
            (λ absent.
              Triple-weaken _ (write_lem e h) (λ k q. q.0) (λ _ k q. q) (λ e' k q. (q.0, λ x. cc))))

  pub replace-KeepsSound : (e : Envelope) → healthy e ≡ true → KeepsSound name (replace d n e)
  unfolding replace
  replace-KeepsSound e h =
      Triple-bind _ _ (Triple-weaken _ (stat_lem d n) (λ k s. s) (λ b k q. q) (λ e' k q. q.0)) (λ b.
        Triple-if b _ _
          (λ present. Triple-weaken _ (write_lem e h) (λ k q. q.0) (λ _ k q. q.0) (λ e' k q. q.0))
          (λ absent. Triple-raise Error.not_exist (λ k q. q.0)))

  pub remove_lem :
      Triple
        (λ k. IsSound name k × Elsewhere d n k)
        (remove d n)
        (λ _. IsSound name)
        (λ _. IsSound name)
  unfolding remove
  remove_lem =
      Triple-after_call _ (λ k p. p.0)
        (Triple-bind _ _ (Triple-inspect _) (λ o.
          Triple-bind (or_missing o) _ (found o)
            (λ _. Triple-modify _ (λ k p. delete-Elsewhere-IsSound name d n k p.1 p.0))))
    where
      found :
          (o : Option File)
          → Triple
              (λ k. (IsSound name k × Elsewhere d n k) × (o ≡ file_at k d n))
              (or_missing o)
              (λ _ k. IsSound name k × Elsewhere d n k)
              (λ _. IsSound name)
      found none = Triple-raise Error.not_exist (λ k h. h.0.0)
      found (some f) = Triple-pure f (λ k h. h.0)

-- A transition writes the destination before it removes the source, so it may stop anywhere.
pub transition-KeepsSound :
    (name : Str) (source destination : Directory) (n : Str) (e : Envelope)
    → same_directory source destination ≡ false
    → healthy e ≡ true
    → KeepsSound name (transition source destination n e)
unfolding transition
transition-KeepsSound name source destination n e apart h =
    Triple-bind _ _
      (Triple-weaken _ (write_new_lem name destination n e h) (λ k s. s) (λ _ k q. q)
        (λ e' k q. q.0))
      (λ _. Triple-unless_missing _ (
        Triple-weaken _ (remove_lem name source n)
          (λ k q. (q.0, (destination, File.envelope e, apart, q.1))) (λ _ k q. q) (λ e' k q. q)))

-- Only a file that the listing rejects is put into quarantine.
pub quarantine_lem :
    (name : Str) (d : Directory) (n : Str) (f : File)
    → has_suffix name (codes ".json") ≡ true
    → healthy_file f ≡ false
    → Triple
        (λ k. IsSound name k × (file_at k d n ≡ some f))
        (quarantine d n)
        (λ _. IsSound name)
        (λ _. IsSound name)
unfolding quarantine
quarantine_lem name d n f json bad =
    Triple-after_call _ (λ k p. p.0) (Triple-modify _ (λ k p. rw p.1 (moved k p)))
  where
    apart : (k : Disk) → IsSound name k × (file_at k d n ≡ some f) → str_eq n name ≡ false
    apart k p = elim (Bool-cases (str_eq n name)) [
      | inl e ↦
          let same : n ≡ name = (str_eq_iff n name).0 e in
          let good = p.0.everywhere d f (subst (λ x. file_at k d x ≡ some f) same p.1) in cc
      | inr e ↦ e
    ]

    renamed : str_eq (n ++ codes ".corrupt") name ≡ false
    renamed = elim (Bool-cases (str_eq (n ++ codes ".corrupt") name)) [
      | inl e ↦
          let same : n ++ codes ".corrupt" ≡ name = (str_eq_iff (n ++ codes ".corrupt") name).0 e in
          let passed = corrupt_not_json n in
          let seen = subst (λ x. has_suffix x (codes ".json") ≡ true) (sym same) json in cc
      | inr e ↦ e
    ]

    moved :
        (k : Disk)
        → IsSound name k × (file_at k d n ≡ some f)
        → IsSound name (put_file Directory.dead (n ++ codes ".corrupt") f (delete_file d n k))
    moved k p =
        put_other-IsSound name Directory.dead (n ++ codes ".corrupt") f (delete_file d n k) renamed
          (delete_other-IsSound name d n k (apart k p) p.0)
