-- ===== src/Transport/Frame.antt =====
-- client_core/src/transport/FrameCodec.h and FrameCodec.cpp: frames and the incremental reader.
-- A buffer is the list of its bytes; pointers are positions in it.
pub mod Rounds
pub mod Chunks
pub mod RoundTrip
use jitong_app.Base.{
  ℕ, zero, suc, ◌+◌, ◌-◌, ◌*◌, Bool, true, false, not, ◌&&◌, Option, none, some, List, [], ◌∷◌,
  ◌++◌, ltb, leb, if◌then◌else◌, length, take, drop, Bytes,
}
use jitong_app.Transport.Bits.{encode_length, decode_length, encode_type32, decode_type32}

-- MAX_PACK_LEN and kTypeFieldSize
abbrev pub max_body_len : ℕ
max_body_len = 10485760

abbrev pub min_body_len : ℕ
min_body_len = 4

abbrev pub is_valid_body_len : ℕ → Bool
is_valid_body_len n = leb min_body_len n && leb n max_body_len

-- FrameCodec::payloadSize
unfoldable pub payload_size : ℕ → ℕ
payload_size n = if ltb n min_body_len then 0 else n - 4

pub record Frame : Type 0 where
  pub type : ℕ
  pub payload : Bytes

-- FrameCodec::encodeFrame; `none` is the `length_error` that it throws.
unfoldable pub encode_frame : Frame → Option Bytes
encode_frame f =
    let body_len = 4 + length f.payload in
    if ltb max_body_len body_len
    then none
    else some (encode_length body_len ++ (encode_type32 f.type ++ f.payload))

-- FrameCodec::parseBody; `none` is `false`.
unfoldable pub parse_body : Bytes → Option Frame
parse_body body =
    if ltb (length body) 4
    then none
    else if ltb max_body_len (length body)
    then none
    else some (record { type = decode_type32 body; payload = drop 4 body })

pub data Status : Type 0 where
  need_more frame_ready invalid_length : Status

-- One round of the loop of `feed`, at the bytes that are not consumed yet.
pub data Round : Type 0 where
  stop : Round
  broken : Round
  frame : Frame → Bytes → Round

unfoldable pub round : Bytes → Round
round pending =
    if ltb (length pending) 4
    then stop
    else let body_len = decode_length pending in
      if not (is_valid_body_len body_len)
      then broken
      else if ltb (length pending) (4 + body_len)
      then stop
      else frame
          (record {
            type = decode_type32 (drop 4 pending);
            payload = take (body_len - 4) (drop 8 pending);
          })
          (drop (4 + body_len) pending)

-- What the loop leaves: the status, the frames and the pending bytes.
pub record Scan : Type 0 where
  pub invalid : Bool
  pub frames : List Frame
  pub pending : Bytes

abbrev pub with_frame : Frame → Scan → Scan
with_frame f s = record s { frames = f ∷ s.frames }

-- The loop. A broken length drops all pending bytes, and keeps the frames found before.
unfoldable pub scan : ℕ → Bytes → Scan
scan zero pending = record { invalid = false; frames = []; pending = pending }
scan (suc fuel) pending = elim (round pending) [
  | stop ↦ record { invalid = false; frames = []; pending = pending }
  | broken ↦ record { invalid = true; frames = []; pending = [] }
  | frame f rest ↦ with_frame f (scan fuel rest)
]

-- Every frame takes eight bytes at least, so as many rounds as bytes are enough.
unfoldable pub scan_all : Bytes → Scan
unfolding scan
scan_all pending = scan (length pending) pending

abbrev pub status_of : Scan → Status
status_of s =
    if s.invalid then invalid_length else if leb (length s.frames) 0 then need_more else frame_ready

-- FrameReader::feed: the reader's bytes afterwards, the new frames and the status.
unfoldable pub feed : Bytes → Bytes → Bytes × List Frame × Status
unfolding scan_all
feed pending chunk = let s = scan_all (pending ++ chunk) in (s.pending, s.frames, status_of s)
