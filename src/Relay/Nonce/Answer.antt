-- ===== src/Relay/Nonce/Answer.antt =====
-- core/internal/relay/nonce.go: `Accept` where no system call fails, against the map from nonces to
-- their deadlines that the directory stands for.
use agentbell.Common.{
  ℕ, suc, ◌+◌, Bool, true, false, not, Option, none, some, Str, lookup, delete, lookup-delete_self,
  ltb, leb, ◌==◌, Result, ok, ◌≡◌, refl, sym, ap, ◌∙◌, arith, inl, inr, Option-cases, Bool-cases,
  codes,
}
use agentbell.Queue.Disk.{is_some}
use agentbell.Relay.{Host}
use agentbell.Relay.Protocol.{validate_identifier, validate_nonce}
use agentbell.Relay.Storage.{
  Error, NonceFile, Disk, Store, nonce_place, try, pure, ◌>>=◌, system_call, continue_with,
}
use agentbell.Relay.Storage.Reliable.{
  reliable, write_new-taken, write_new-free, read_file-found, remove-found,
}
use agentbell.Relay.Nonce.{
  is_whole, new_record, expired_file, expired, reclaim, accept_round, accept_loop, nonce_path,
  accept,
}
use agentbell.Relay.Nonce.Reserved.{deadline}

-- The instant from which a path may be taken: none where it is free.
abbrev pub until : ℕ → Option NonceFile → Option ℕ
until retention none = none
until retention (some f) = some (deadline retention f)

abbrev pub reserved_until : ℕ → Str → Disk → Option ℕ
reserved_until retention p k = until retention (lookup p k.nonces)

abbrev pub is_late : ℕ → Option ℕ → Bool
is_late now none = false
is_late now (some d) = ltb now d

module _ (retention now : ℕ) (p : Str) where
  expired_file-answer :
      (f : NonceFile) (k : Disk) (c : ℕ)
      → (n : ℕ) × (expired_file retention now f (reliable k c)
          ≡ (ok (leb (deadline retention f) now), reliable k n))
  unfolding system_call pure ◌>>=◌
  expired_file-answer (NonceFile.partial at) k c = (suc c, refl)
  expired_file-answer (NonceFile.whole r at) k c = elim (Bool-cases (is_whole r)) [
    | inl w ↦ (c, rw w)
    | inr w ↦ (suc c, rw w)
  ]

  expired-answer :
      (f : NonceFile) (k : Disk) (c : ℕ)
      → lookup p k.nonces ≡ some f
      → (n : ℕ) × (expired retention p now (reliable k c)
          ≡ (ok (leb (deadline retention f) now), reliable k n))
  unfolding expired try ◌>>=◌
  expired-answer f k c e =
      let (n, h) = expired_file-answer f k (suc c) in
      (n, rw (read_file-found nonce_place p k c f e) h)

  free_round :
      (again : Store Bool) (k : Disk) (c : ℕ)
      → lookup p k.nonces ≡ none
      → (accept_round again retention p now (reliable k c)).0 ≡ ok true
  unfolding accept_round try ◌>>=◌ pure
  free_round again k c e = rw (
      write_new-free nonce_place p k c (NonceFile.whole (new_record retention now) now)
        (ap is_some e))

  taken_round :
      (again : Store Bool) (f : NonceFile) (k : Disk) (c : ℕ)
      → lookup p k.nonces ≡ some f
      → accept_round again retention p now (reliable k c)
        ≡ reclaim again retention p now (reliable k (c + 10))
  unfolding accept_round try ◌>>=◌
  taken_round again f k c e = rw (
      write_new-taken nonce_place p k c (NonceFile.whole (new_record retention now) now)
        (ap is_some e))

  -- Where the name is taken, the answer is that of the other rounds if the file has expired.
  old_round :
      (again : Store Bool) (f : NonceFile) (k : Disk) (c : ℕ)
      → lookup p k.nonces ≡ some f
      → leb (deadline retention f) now ≡ true
      → (n : ℕ) × (reclaim again retention p now (reliable k c)
          ≡ again (reliable (nonce_place.with_files (delete p k.nonces) k) n))
  unfolding reclaim ◌>>=◌
  old_round again f k c e old =
      let (n, h) = expired-answer f k c e in
      (
        suc n,
        rw (h, old)
            (ap (λ r. continue_with r.0 (λ _. again) r.1) (remove-found nonce_place p k n f e)),
      )

  kept_round :
      (again : Store Bool) (f : NonceFile) (k : Disk) (c : ℕ)
      → lookup p k.nonces ≡ some f
      → leb (deadline retention f) now ≡ false
      → (n : ℕ) × (reclaim again retention p now (reliable k c) ≡ (ok false, reliable k n))
  unfolding reclaim ◌>>=◌ pure
  kept_round again f k c e new = let (n, h) = expired-answer f k c e in (n, rw (h, new))

  -- A nonce that is still reserved is refused, and nothing changes.
  pub loop-refuses :
      (f : NonceFile) (k : Disk) (c : ℕ)
      → lookup p k.nonces ≡ some f
      → leb (deadline retention f) now ≡ false
      → (n : ℕ) × (accept_loop 2 retention p now (reliable k c) ≡ (ok false, reliable k n))
  unfolding accept_loop
  loop-refuses f k c e new =
      let (n, h) = kept_round (accept_loop 1 retention p now) f k (c + 10) e new in
      (n, taken_round (accept_loop 1 retention p now) f k c e ∙ h)

  not_late : (d : ℕ) (b : Bool) → leb d now ≡ b → b ≡ not (ltb now d)
  not_late d true h = ground arith
  not_late d false h = ground arith

  expected : Option NonceFile → Result Error Bool
  expected o = ok (not (is_late now (until retention o)))

  loop-answer :
      (k : Disk) (c : ℕ)
      → (accept_loop 2 retention p now (reliable k c)).0
        ≡ ok (not (is_late now (reserved_until retention p k)))
  unfolding accept_loop expected
  loop-answer k c = elim (Option-cases (lookup p k.nonces)) [
    | inl e ↦ free_round _ k c e ∙ sym (ap expected e)
    | inr (f, e) ↦ elim (Bool-cases (leb (deadline retention f) now)) [
      | inl old ↦
          let (n, h) = old_round (accept_loop 1 retention p now) f k (c + 10) e old in
          ap (λ x. x.0) (taken_round (accept_loop 1 retention p now) f k c e ∙ h)
          ∙ (free_round _ _ n (lookup-delete_self p k.nonces)
              ∙ (ap ok (not_late (deadline retention f) true old) ∙ sym (ap expected e)))
      | inr new ↦
          let (n, h) = loop-refuses f k c e new in
          ap (λ x. x.0) h
          ∙ (ap ok (not_late (deadline retention f) false new) ∙ sym (ap expected e))
    ]
  ]

-- Where no system call fails, `Accept` always ends with an answer to a valid peer, nonce and instant:
-- it takes the nonce just when no earlier acceptance reserves it any more.
pub accept-answer :
    (h : Host) (retention : ℕ) (peer nonce : Str) (now : ℕ) (k : Disk) (c : ℕ)
    → validate_identifier (codes "peer id") peer ≡ ok tt
    → validate_nonce nonce ≡ ok tt
    → (now == 0) ≡ false
    → (accept h retention peer nonce now (reliable k c)).0
      ≡ ok (not (is_late now (reserved_until retention (nonce_path h peer nonce) k)))
unfolding accept ◌>>=◌
accept-answer h retention peer nonce now k c vp vn vt =
    rw (vp, vn, vt) (loop-answer retention now (nonce_path h peer nonce) k c)

-- The refusal of a nonce that is reserved.
pub accept-refuses :
    (h : Host) (retention : ℕ) (peer nonce : Str) (now : ℕ) (f : NonceFile) (k : Disk) (c : ℕ)
    → validate_identifier (codes "peer id") peer ≡ ok tt
    → validate_nonce nonce ≡ ok tt
    → (now == 0) ≡ false
    → lookup (nonce_path h peer nonce) k.nonces ≡ some f
    → leb (deadline retention f) now ≡ false
    → (n : ℕ) × (accept h retention peer nonce now (reliable k c) ≡ (ok false, reliable k n))
unfolding accept ◌>>=◌
accept-refuses h retention peer nonce now f k c vp vn vt e new =
    let (n, r) = loop-refuses retention now (nonce_path h peer nonce) f k c e new in
    (n, rw (vp, vn, vt) r)
