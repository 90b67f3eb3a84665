-- ===== src/Frame/Tests.antt =====
-- core/internal/relay/frame.go: a frame through a writer that takes five bytes, then one.
use agentbell.Common.{[], ◌∷◌, ◌++◌, some, Str, codes, ok, ◌≡◌, refl}
use agentbell.Frame.{Frame, valid_frame_kind, header_of, write_full, write_frame, read_frame}
use agentbell.Frame.Codec.{read_frame-write_frame}

abbrev request : Frame
request = record { kind = 1; body = codes "abc" }

abbrev sent : Str
sent = 65 ∷ 71 ∷ 66 ∷ 70 ∷ 1 ∷ 1 ∷ 0 ∷ 0 ∷ 0 ∷ 0 ∷ 0 ∷ 3 ∷ codes "abc"

write_request : write_frame (some 5 ∷ some 1 ∷ []) request ≡ (ok tt, sent)
unfolding write_frame write_full header_of valid_frame_kind
write_request = refl

read_frame-write_frame_example : read_frame (sent ++ codes "rest") ≡ ok (request, codes "rest")
read_frame-write_frame_example =
    read_frame-write_frame (some 5 ∷ some 1 ∷ []) request sent (codes "rest") write_request
