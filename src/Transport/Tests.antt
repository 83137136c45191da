-- ===== src/Transport/Tests.antt =====
-- The theorems about the wire format at concrete inputs.
use jitong_app.Base.{
  ◌+◌, ◌<◌, ◌≡◌, refl, false, some, [], ◌∷◌, ◌++◌, drop, length, Bytes, codes, arith,
}
use jitong_app.Transport.Bits.{encode_length, encode_type32}
use jitong_app.Transport.Frame.{
  Frame, need_more, round, encode_frame, parse_body, feed, max_body_len,
}
use jitong_app.Transport.Frame.Chunks.{feed_all, feed_all-concat, feed_pending_bounded}
use jitong_app.Transport.Frame.RoundTrip.{stream_of, feed_all-stream_of, parse_body-encode_frame}

-- A login request with the payload "hi".
abbrev hi : Frame
hi = record { type = 1002; payload = codes "hi" }

abbrev hi_bytes : Bytes
hi_bytes = 0 ∷ 0 ∷ 0 ∷ 6 ∷ 234 ∷ 3 ∷ 0 ∷ 0 ∷ 104 ∷ 105 ∷ []

encode_run : encode_frame hi ≡ some hi_bytes
unfolding encode_frame encode_length encode_type32
encode_run = refl

stream_run : stream_of (hi ∷ hi ∷ []) ≡ some (hi_bytes ++ hi_bytes)
unfolding stream_of encode_frame encode_length encode_type32
stream_run = refl

feed_run : feed [] (0 ∷ 0 ∷ []) ≡ (0 ∷ 0 ∷ [], [], need_more)
unfolding feed round
feed_run = refl

feed_all-concat_example :
    feed_all [] (hi_bytes ∷ hi_bytes ∷ []) ≡ feed_all [] ((hi_bytes ++ hi_bytes) ∷ [])
feed_all-concat_example =
    feed_all-concat (hi_bytes ∷ hi_bytes ∷ []) ((hi_bytes ++ hi_bytes) ∷ []) refl

feed_all-stream_of_example :
    feed_all [] ((0 ∷ []) ∷ (drop 1 hi_bytes ++ hi_bytes) ∷ [])
    ≡ record { invalid = false; frames = hi ∷ hi ∷ []; pending = [] }
feed_all-stream_of_example =
    feed_all-stream_of (hi ∷ hi ∷ []) (hi_bytes ++ hi_bytes) _ (omega arith) stream_run refl

parse_body-encode_frame_run : parse_body (drop 4 hi_bytes) ≡ some hi
parse_body-encode_frame_run = parse_body-encode_frame hi hi_bytes (omega arith) encode_run

feed_pending_bounded_run : length (feed [] (0 ∷ 0 ∷ [])).0 < 4 + max_body_len
feed_pending_bounded_run = feed_pending_bounded [] (0 ∷ 0 ∷ []) (unfold feed round in λ e. cc)
