-- ===== src/Transport/Frame/RoundTrip.antt =====
-- What `encodeFrame` writes, the reader and `parseBody` give back.
use mathlib.Core.List.{append-nil, append_assoc}
use mathlib.Core.Option
use jitong_app.Base.{
  ◌+◌, ◌-◌, ◌≤◌, ◌≡◌, refl, ap, ◌∙◌, false, Option, none, some, List, [], ◌∷◌, ◌++◌, All, length,
  drop, take_exact, drop_exact, length-append, Bytes, arith, Option-cases, inl, inr,
}
use jitong_app.Transport.Bits.{
  IsWord, encode_length, decode_length, encode_type32, decode_type32, decode_length-encode_length,
  decode_type32-encode_type32,
}
use jitong_app.Transport.Frame.{
  Frame, frame, round, scan_all, max_body_len, encode_frame, parse_body,
}
use jitong_app.Transport.Frame.Rounds.{scan_all-stop, scan_all-frame}
use jitong_app.Transport.Frame.Chunks.{concat, feed_all, feed_all-scan_all}

-- The bytes of a frame that is not too long.
abbrev framed : Frame → Bytes
framed f = encode_length (4 + length f.payload) ++ (encode_type32 f.type ++ f.payload)

encode_frame-some :
    (f : Frame) (b : Bytes)
    → encode_frame f ≡ some b
    → (b ≡ framed f) × (4 + length f.payload ≤ max_body_len)
unfolding encode_frame
encode_frame-some f b e = ground arith

length-framed : (f : Frame) → length (framed f) ≡ 8 + length f.payload
unfolding encode_length encode_type32
length-framed f = omega arith

drop-framed : (f : Frame) (rest : Bytes) → drop 8 (framed f ++ rest) ≡ f.payload ++ rest
unfolding encode_length encode_type32
drop-framed f rest = refl

decode_type32-framed :
    (f : Frame) (rest : Bytes) → IsWord f.type → decode_type32 (drop 4 (framed f ++ rest)) ≡ f.type
unfolding encode_length encode_type32
decode_type32-framed f rest h = decode_type32-encode_type32 f.type (f.payload ++ rest) h

decode_length-framed :
    (f : Frame) (rest : Bytes)
    → 4 + length f.payload ≤ max_body_len
    → decode_length (framed f ++ rest) ≡ 4 + length f.payload
decode_length-framed f rest h =
    rw append_assoc (decode_length-encode_length (4 + length f.payload) _ (omega arith))

round-framed :
    (f : Frame) (rest : Bytes)
    → 4 + length f.payload ≤ max_body_len
    → IsWord f.type
    → round (framed f ++ rest) ≡ frame f rest
unfolding round
round-framed f rest h t = ground (
  arith,
  length-append (framed f) rest,
  length-framed f,
  decode_length-framed f rest h,
  decode_type32-framed f rest t,
  drop-framed f rest,
  take_exact (4 + length f.payload - 4) f.payload rest,
  drop_exact (4 + (4 + length f.payload)) (framed f) rest,
)

-- The bytes that a sender writes for a sequence of frames.
unfoldable pub stream_of : List Frame → Option Bytes
stream_of [] = some []
stream_of (f ∷ fs) = elim (encode_frame f) [
  | none ↦ none
  | some b ↦ Option.map (λ (rest : Bytes). b ++ rest) (stream_of fs)
]

scan_all-stream_of :
    (fs : List Frame) (b : Bytes)
    → All (λ (f : Frame). IsWord f.type) fs
    → stream_of fs ≡ some b
    → scan_all b ≡ record { invalid = false; frames = fs; pending = [] }
unfolding stream_of
scan_all-stream_of [] b t e =
    let e' : b ≡ [] = ground arith in rw e' (scan_all-stop [] (unfold round in refl))
scan_all-stream_of (f ∷ fs) b t e = elim (Option-cases (encode_frame f)) [
  | inl n ↦ cc (rw (n, stream_of) at e)
  | inr (c, m) ↦ elim (Option-cases (stream_of fs)) [
    | inl n ↦ absurd (ground (arith, m, n, e))
    | inr (d, k) ↦
        let (h, fits) = encode_frame-some f c m in
        let e' : b ≡ framed f ++ d = ground (arith, m, k, e, h) in
        rw (
          e',
          scan_all-frame (framed f ++ d) d f (round-framed f d fits t.0),
          scan_all-stream_of fs d t.1 k,
        )
  ]
]

-- If a sender can write the frames, and their types are 32-bit numbers, then a new reader that gets
-- the bytes in any chunks returns these frames, does not fail, and keeps nothing pending.
pub feed_all-stream_of :
    (fs : List Frame) (b : Bytes) (cs : List Bytes)
    → All (λ (f : Frame). IsWord f.type) fs
    → stream_of fs ≡ some b
    → concat cs ≡ b
    → feed_all [] cs ≡ record { invalid = false; frames = fs; pending = [] }
feed_all-stream_of fs b cs t e c =
    feed_all-scan_all cs ∙ ap scan_all c ∙ scan_all-stream_of fs b t e

length-drop-framed : (f : Frame) → length (drop 4 (framed f)) ≡ 4 + length f.payload
unfolding encode_length encode_type32
length-drop-framed f = omega arith

drop-drop-framed : (f : Frame) → drop 4 (drop 4 (framed f)) ≡ f.payload
unfolding encode_length encode_type32
drop-drop-framed f = refl

-- `parseBody` reads a frame back from the bytes behind the length field of what `encodeFrame`
-- writes, if the frame's type is a 32-bit number.
pub parse_body-encode_frame :
    (f : Frame) (b : Bytes)
    → IsWord f.type
    → encode_frame f ≡ some b
    → parse_body (drop 4 b) ≡ some f
unfolding parse_body
parse_body-encode_frame f b t e =
    let (h, fits) = encode_frame-some f b e in
    rw h (
      ground (
        arith,
        length-drop-framed f,
        drop-drop-framed f,
        decode_type32-framed f [],
        append-nil (framed f),
      ))
