-- ===== src/Transport/Frame/Chunks.antt =====
-- The reader does not depend on how the byte stream is cut into chunks.
use mathlib.Core.List.{append-nil, append_assoc}
use jitong_app.Base.{
  ℕ, zero, suc, ◌+◌, ◌≤◌, ◌<◌, ◌≡◌, ◌≢◌, refl, sym, ap, ◌∙◌, true, false, List, [], ◌∷◌, ◌++◌,
  if◌then◌else◌, Bool-cases, length, Bytes, arith, inl, inr,
}
use jitong_app.Transport.Frame.{
  Frame, stop, round, Scan, with_frame, scan_all, max_body_len, invalid_length, feed,
}
use jitong_app.Transport.Frame.Rounds.{
  Round-cases, round_shrinks, stopped, scan_all-stop, scan_all-broken, scan_all-frame,
  round-append-broken, round-append-frame,
}

abbrev pub prepend : List Frame → Scan → Scan
prepend fs s = record s { frames = fs ++ s.frames }

-- A scan that goes on with more bytes; after a broken length the connection is closed.
abbrev pub go_on : Scan → Bytes → Scan
go_on s q = if s.invalid then s else prepend s.frames (scan_all (s.pending ++ q))

go_on-with_frame :
    (f : Frame) (s : Scan) (q : Bytes) → go_on (with_frame f s) q ≡ with_frame f (go_on s q)
go_on-with_frame f s q = elim (Bool-cases s.invalid) [ inl e ↦ rw e | inr e ↦ rw e ]

go_on_lem : (k : ℕ) (p q : Bytes) → length p ≤ k → go_on (scan_all p) q ≡ scan_all (p ++ q)
go_on_lem zero [] q h = rw (scan_all-stop [] (unfold round in refl))
go_on_lem zero (b ∷ p) q h = absurd (omega arith)
go_on_lem (suc k) p q h = elim (Round-cases (round p)) [
  | inl e ↦ rw (scan_all-stop p e)
  | inr (inl e) ↦ rw (scan_all-broken p e, scan_all-broken (p ++ q) (round-append-broken p q e))
  | inr (inr (f, rest, e)) ↦
      rw
        (
          scan_all-frame p rest f e,
          scan_all-frame (p ++ q) (rest ++ q) f (round-append-frame p q rest f e),
        )
        (go_on-with_frame f (scan_all rest) q
          ∙ ap (with_frame f) (go_on_lem k rest q (omega (arith, round_shrinks p rest f e))))
]

pub go_on-scan_all : (p q : Bytes) → go_on (scan_all p) q ≡ scan_all (p ++ q)
go_on-scan_all p q = go_on_lem (length p) p q (omega arith)

pending_lem :
    (k : ℕ) (p : Bytes)
    → length p ≤ k
    → (scan_all p).invalid ≡ false
    → round (scan_all p).pending ≡ stop
pending_lem zero [] h v = unfold round in rw (scan_all-stop [] refl)
pending_lem zero (b ∷ p) h v = absurd (omega arith)
pending_lem (suc k) p h v = elim (Round-cases (round p)) [
  | inl e ↦ rw (scan_all-stop p e) e
  | inr (inl e) ↦ cc (ap (λ (s : Scan). s.invalid) (scan_all-broken p e))
  | inr (inr (f, rest, e)) ↦ rw (scan_all-frame p rest f e) (
      pending_lem k rest (omega (arith, round_shrinks p rest f e))
        (sym (ap (λ (s : Scan). s.invalid) (scan_all-frame p rest f e)) ∙ v))
]

-- What stays pending holds no whole frame.
pub round-pending : (p : Bytes) → (scan_all p).invalid ≡ false → round (scan_all p).pending ≡ stop
round-pending p = pending_lem (length p) p (omega arith)

-- The reader over all chunks of a connection; it is closed at the first broken length.
unfoldable pub feed_all : Bytes → List Bytes → Scan
feed_all pending [] = stopped pending
feed_all pending (c ∷ cs) =
    let (rest, frames, status) = feed pending c in
    let later = feed_all rest cs in
    elim status [
      | invalid_length ↦ record { invalid = true; frames = frames; pending = rest }
      | _ ↦ prepend frames later
    ]

abbrev pub concat : List Bytes → Bytes
concat [] = []
concat (c ∷ cs) = c ++ concat cs

feed_all-cons :
    (pending c : Bytes) (cs : List Bytes)
    → let s = scan_all (pending ++ c) in
      feed_all pending (c ∷ cs)
      ≡ (if s.invalid then s else prepend s.frames (feed_all s.pending cs))
unfolding feed_all feed
feed_all-cons pending c cs = ground arith

feed_all_lem :
    (p : Bytes) (cs : List Bytes) → round p ≡ stop → feed_all p cs ≡ scan_all (p ++ concat cs)
feed_all_lem p [] e = unfold feed_all in rw append-nil (sym (scan_all-stop p e))
feed_all_lem p (c ∷ cs) e =
    let s = scan_all (p ++ c) in
    rw (feed_all-cons p c cs) (
      let goal : (if s.invalid then s else prepend s.frames (feed_all s.pending cs))
          ≡ go_on s (concat cs) =
        elim (Bool-cases s.invalid) [
          | inl v ↦ rw v
          | inr v ↦
              rw v (ap (prepend s.frames) (feed_all_lem s.pending cs (round-pending (p ++ c) v)))
        ] in
      goal ∙ go_on-scan_all (p ++ c) (concat cs) ∙ ap scan_all (append_assoc p c (concat cs)))

pub feed_all-scan_all : (cs : List Bytes) → feed_all [] cs ≡ scan_all (concat cs)
feed_all-scan_all cs = feed_all_lem [] cs (unfold round in refl)

-- A new reader returns the same frames, the same failure and the same pending bytes for two lists
-- of chunks that hold the same stream.
pub feed_all-concat : (cs ds : List Bytes) → concat cs ≡ concat ds → feed_all [] cs ≡ feed_all [] ds
feed_all-concat cs ds e = feed_all-scan_all cs ∙ ap scan_all e ∙ sym (feed_all-scan_all ds)

round_stop-lt : (p : Bytes) → round p ≡ stop → length p < 4 + max_body_len
unfolding round
round_stop-lt p e = ground arith

-- After a call of `feed` that does not fail, fewer than 10 MiB and 4 bytes are pending, however
-- many bytes came in.
pub feed_pending_bounded :
    (pending chunk : Bytes)
    → (feed pending chunk).2 ≢ invalid_length
    → length (feed pending chunk).0 < 4 + max_body_len
unfolding feed
feed_pending_bounded pending chunk h = elim (Bool-cases (scan_all (pending ++ chunk)).invalid) [
  | inl v ↦ absurd (h (rw v))
  | inr v ↦ round_stop-lt _ (round-pending (pending ++ chunk) v)
]
