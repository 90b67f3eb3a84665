-- ===== src/Frame/Codec.antt =====
-- core/internal/relay/frame.go: writing and reading a frame.
use agentbell.Common.{
  ℕ, zero, suc, ◌+◌, ◌*◌, ◌/◌, ◌%◌, ◌^◌, ◌≤◌, ◌<◌, true, List, [], ◌∷◌, ◌++◌, Option, none, some,
  Str, str_eq, length, take, drop, take-append, drop-append, length-append, ltb, ◌==◌, Result, ok,
  err, ◌≡◌, refl, sym, ap, subst, ◌∙◌, arith, Bool-cases, inl, inr,
}
use mathlib.Core.List.{append_assoc}
use agentbell.Frame.{
  Error, Frame, max_frame_body_bytes, valid_frame_kind, header_of, write_full, then_body,
  write_frame, read_full, read_body, after_header, after_body, parse_header, read_frame,
}

take-drop : (n : ℕ) (s : Str) → take n s ++ drop n s ≡ s
take-drop zero s = refl
take-drop (suc n) [] = refl
take-drop (suc n) (b ∷ s) = ap (◌∷◌ b) (take-drop n s)

-- However the writer splits the bytes, a write that succeeds has sent all of them.
pub write_full_lem :
    (answers : List (Option ℕ)) (s : Str)
    → (write_full answers s).0 ≡ ok tt
    → (write_full answers s).2 ≡ s
unfolding write_full
write_full_lem answers [] h = refl
write_full_lem [] (b ∷ s) h = refl
write_full_lem (none ∷ answers) (b ∷ s) h = cc
write_full_lem (some n ∷ answers) (b ∷ s) h =
    ground (arith, write_full_lem answers (drop n (b ∷ s)), take-drop n (b ∷ s))

read_full-append :
    (s rest : Str) (n : ℕ) → 0 < length s → length s ≡ n → read_full n (s ++ rest) ≡ ok (s, rest)
unfolding read_full
read_full-append [] rest n h e = absurd (omega arith)
read_full-append (b ∷ s) rest n h e =
    subst (λ m. read_full m (b ∷ (s ++ rest)) ≡ ok (b ∷ s, rest)) e
      (ground (arith, length-append s rest, take-append s rest, drop-append s rest))

-- What a frame that is written must satisfy.
pub record IsValid (f : Frame) : Type 0 where
  pub kind : valid_frame_kind f.kind ≡ true
  pub not_empty : 0 < length f.body
  pub bounded : length f.body ≤ max_frame_body_bytes

then_body-ok :
    (f : Frame) (w : Result Error (Unit {0}) × List (Option ℕ) × Str) (header out : Str)
    → (w.0 ≡ ok tt → w.2 ≡ header)
    → then_body f w ≡ (ok tt, out)
    → out ≡ header ++ f.body
then_body-ok f (err e, answers, sent) header out k h = cc (ap (λ p. p.0) h)
then_body-ok f (ok _, answers, sent) header out k h =
    let whole = write_full_lem answers f.body (ap (λ p. p.0) h) in
    sym (ap (λ p. p.1) h) ∙ ap (◌++◌ sent) whole ∙ ap (λ x. x ++ f.body) (k refl)

-- A successful `WriteFrame` has sent the header and the body of a valid frame, however the writer
-- split them.
write_frame-ok :
    (answers : List (Option ℕ)) (f : Frame) (out : Str)
    → write_frame answers f ≡ (ok tt, out)
    → IsValid f × (out ≡ header_of f ++ f.body)
unfolding write_frame
write_frame-ok answers f out h = elim (Bool-cases (valid_frame_kind f.kind)) [
  | inr bad ↦ cc (ap (λ p. p.0) (rw bad at h))
  | inl good ↦ elim (Bool-cases (length f.body == 0)) [
    | inl bad ↦ cc (ap (λ p. p.0) (rw (good, bad) at h))
    | inr filled ↦ elim (Bool-cases (ltb max_frame_body_bytes (length f.body))) [
      | inl bad ↦ cc (ap (λ p. p.0) (rw (good, filled, bad) at h))
      | inr fits ↦ (
        record { kind = good; not_empty = ground arith; bounded = ground arith },
        then_body-ok f (write_full answers (header_of f)) (header_of f) out
            (write_full_lem answers (header_of f)) (rw (good, filled, fits) at h),
      )
    ]
  ]
]

length-header : (f : Frame) → length (header_of f) ≡ 12
unfolding header_of
length-header f = refl

recompose :
    (n : ℕ)
    → n ≤ max_frame_body_bytes
    → n / 2 ^ 24 % 256 * 2 ^ 24 + n / 2 ^ 16 % 256 * 2 ^ 16 + n / 2 ^ 8 % 256 * 2 ^ 8 + n % 256 ≡ n
recompose n h = omega arith

parse_header-encoded :
    (f : Frame) (rest : Str)
    → IsValid f
    → parse_header (header_of f) rest ≡ read_body f.kind (length f.body) rest
unfolding parse_header header_of str_eq
parse_header-encoded f rest v = rw (recompose (length f.body) v.bounded, v.kind) (ground arith)

-- Reading a valid frame that stands at the front of the input.
read_frame-encoded :
    (f : Frame) (rest : Str)
    → IsValid f
    → read_frame (header_of f ++ (f.body ++ rest)) ≡ ok (f, rest)
unfolding read_frame
read_frame-encoded f rest v =
    ap after_header (
      read_full-append (header_of f) (f.body ++ rest) 12 (omega (arith, length-header f))
        (length-header f))
    ∙ parse_header-encoded f (f.body ++ rest) v
    ∙ ap (after_body f.kind) (read_full-append f.body rest (length f.body) v.not_empty refl)

-- What `WriteFrame` sends without an error, whatever sizes the writer takes at a time, `ReadFrame`
-- reads back as the same frame, and it leaves the bytes that follow.
pub read_frame-write_frame :
    (answers : List (Option ℕ)) (f : Frame) (out rest : Str)
    → write_frame answers f ≡ (ok tt, out)
    → read_frame (out ++ rest) ≡ ok (f, rest)
read_frame-write_frame answers f out rest h =
    let (v, e) = write_frame-ok answers f out h in
    ap (λ x. read_frame (x ++ rest)) e
    ∙ ap read_frame (append_assoc (header_of f) f.body rest)
    ∙ read_frame-encoded f rest v
