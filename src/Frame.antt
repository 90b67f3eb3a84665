-- ===== src/Frame.antt =====
-- core/internal/relay/frame.go: the frames of the relay's stdio protocol. A reader is the bytes that
-- it will deliver before its end; a writer is the answers of its next calls, and takes all bytes
-- once they are used up. No reader or writer is nil.
pub mod Codec
mod Tests
use agentbell.Common.{
  ℕ, zero, suc, ◌+◌, ◌*◌, ◌/◌, ◌%◌, ◌^◌, Bool, true, false, ◌&&◌, ◌||◌, not, List, [], ◌∷◌, ◌++◌,
  Option, none, some, Str, codes, str_eq, length, take, drop, ltb, ◌==◌, Result, ok, err,
  if◌then◌else◌,
}

pub data Error : Type 0 where
  invalid_frame unsupported_frame frame_too_large : Error
  short_write write_failed eof unexpected_eof : Error

pub record Frame : Type 0 where
  pub kind : ℕ
  pub body : Str

abbrev pub frame_magic : Str
frame_magic = codes "AGBF"

abbrev pub frame_header_bytes : ℕ
frame_header_bytes = 12

abbrev pub max_frame_body_bytes : ℕ
max_frame_body_bytes = 64 * 1024

unfoldable pub valid_frame_kind : ℕ → Bool
valid_frame_kind k = k == 1 || (k == 2 || k == 3)

-- `binary.BigEndian.PutUint32`.
abbrev pub put_uint32 : ℕ → Str
put_uint32 n = n / 2 ^ 24 % 256 ∷ n / 2 ^ 16 % 256 ∷ n / 2 ^ 8 % 256 ∷ n % 256 ∷ []

-- The header that `WriteFrame` fills in.
unfoldable pub header_of : Frame → Str
header_of f = 65 ∷ 71 ∷ 66 ∷ 70 ∷ 1 ∷ f.kind ∷ 0 ∷ 0 ∷ put_uint32 (length f.body)

-- `writeFull`: each answer is an error or a number of bytes taken. It returns the answers that are
-- left and the bytes that were taken.
unfoldable pub write_full : List (Option ℕ) → Str → Result Error (Unit {0}) × List (Option ℕ) × Str
write_full answers [] = (ok tt, answers, [])
write_full [] (b ∷ bs) = (ok tt, [], b ∷ bs)
write_full (none ∷ answers) (b ∷ bs) = (err Error.write_failed, answers, [])
write_full (some n ∷ answers) (b ∷ bs) =
    let rest = write_full answers (drop n (b ∷ bs)) in
    if n == 0 || ltb (length (b ∷ bs)) n
    then (err Error.short_write, answers, [])
    else (rest.0, rest.1, take n (b ∷ bs) ++ rest.2)

-- The body is written only after the header was.
abbrev pub then_body :
    Frame → Result Error (Unit {0}) × List (Option ℕ) × Str → Result Error (Unit {0}) × Str
then_body f (err e, answers, sent) = (err e, sent)
then_body f (ok _, answers, sent) =
    let (r, _, rest) = write_full answers f.body in (r, sent ++ rest)

unfoldable pub write_frame : List (Option ℕ) → Frame → Result Error (Unit {0}) × Str
write_frame answers f =
    if not (valid_frame_kind f.kind) || length f.body == 0
    then (err Error.invalid_frame, [])
    else if ltb max_frame_body_bytes (length f.body)
    then (err Error.frame_too_large, [])
    else then_body f (write_full answers (header_of f))

-- `io.ReadFull` of a number of bytes greater than 0: what was read, and what is left.
unfoldable pub read_full : ℕ → Str → Result Error (Str × Str)
read_full n [] = err Error.eof
read_full n (b ∷ bs) =
    if ltb (length (b ∷ bs)) n
    then err Error.unexpected_eof
    else ok (take n (b ∷ bs), drop n (b ∷ bs))

-- Reading the body of a header that was accepted; an end before it is unexpected.
abbrev pub after_body : ℕ → Result Error (Str × Str) → Result Error (Frame × Str)
after_body kind (ok (body, left)) = ok (record { kind = kind; body = body }, left)
after_body kind (err e) = err Error.unexpected_eof

abbrev pub read_body : ℕ → ℕ → Str → Result Error (Frame × Str)
read_body kind n rest = after_body kind (read_full n rest)

-- The checks of `ReadFrame` on the bytes of a header, in their order.
unfoldable pub parse_header : Str → Str → Result Error (Frame × Str)
parse_header (m₀ ∷ m₁ ∷ m₂ ∷ m₃ ∷ version ∷ kind ∷ r₀ ∷ r₁ ∷ l₀ ∷ l₁ ∷ l₂ ∷ l₃ ∷ []) rest =
    let n = l₀ * 2 ^ 24 + l₁ * 2 ^ 16 + l₂ * 2 ^ 8 + l₃ in
    if not (str_eq (m₀ ∷ m₁ ∷ m₂ ∷ m₃ ∷ []) frame_magic) || not (r₀ * 2 ^ 8 + r₁ == 0)
    then err Error.invalid_frame
    else if not (version == 1)
    then err Error.unsupported_frame
    else if not (valid_frame_kind kind)
    then err Error.invalid_frame
    else if n == 0
    then err Error.invalid_frame
    else if ltb max_frame_body_bytes n
    then err Error.frame_too_large
    else read_body kind n rest
parse_header _ rest = err Error.unexpected_eof

abbrev pub after_header : Result Error (Str × Str) → Result Error (Frame × Str)
after_header (ok (header, rest)) = parse_header header rest
after_header (err e) = err e

unfoldable pub read_frame : Str → Result Error (Frame × Str)
read_frame input = after_header (read_full frame_header_bytes input)
