-- ===== src/Transport/Frame/Rounds.antt =====
-- The rounds of the loop of `feed`: enough of them are made, and what more bytes change.
use jitong_app.Base.{
  ℕ, zero, suc, ◌+◌, ◌-◌, ◌≤◌, ◌<◌, ◌≡◌, refl, ap, true, false, [], ◌∷◌, ◌++◌, length, take, drop,
  length-append, length-drop, Bytes, arith, ◌⊎◌, inl, inr,
}
use jitong_app.Transport.Bits.{decode_length, decode_type32}
use jitong_app.Transport.Frame.{
  Frame, Round, stop, broken, frame, round, Scan, with_frame, scan, scan_all,
}

pub Round-cases :
    (r : Round) → (r ≡ stop) ⊎ (r ≡ broken) ⊎ ((f : Frame) × (rest : Bytes) × (r ≡ frame f rest))
Round-cases stop = inl refl
Round-cases broken = inr (inl refl)
Round-cases (frame f rest) = inr (inr (f, rest, refl))

-- A round that finds a frame leaves fewer bytes.
pub round_shrinks : (p rest : Bytes) (f : Frame) → round p ≡ frame f rest → length rest < length p
unfolding round
round_shrinks p rest f e = ground (arith, length-drop (4 + decode_length p) p)

abbrev pub stopped : Bytes → Scan
stopped p = record { invalid = false; frames = []; pending = p }

abbrev pub failed : Scan
failed = record { invalid = true; frames = []; pending = [] }

scan-fuel : (k l : ℕ) (p : Bytes) → length p ≤ k → length p ≤ l → scan k p ≡ scan l p
unfolding scan
scan-fuel zero zero p h g = refl
scan-fuel zero (suc l) [] h g = unfold round in refl
scan-fuel zero (suc l) (b ∷ p) h g = absurd (omega arith)
scan-fuel (suc k) zero [] h g = unfold round in refl
scan-fuel (suc k) zero (b ∷ p) h g = absurd (omega arith)
scan-fuel (suc k) (suc l) p h g = elim (Round-cases (round p)) [
  | inl e ↦ rw (e, scan)
  | inr (inl e) ↦ rw (e, scan)
  | inr (inr (f, rest, e)) ↦
      rw (e, scan)
        (ap (with_frame f) (
          scan-fuel k l rest (omega (arith, round_shrinks p rest f e))
            (omega (arith, round_shrinks p rest f e))))
]

-- The loop without its fuel.
pub scan_all-stop : (p : Bytes) → round p ≡ stop → scan_all p ≡ stopped p
unfolding scan_all
scan_all-stop [] e = refl
scan_all-stop (b ∷ p) e = rw (e, scan_all, scan)

pub scan_all-broken : (p : Bytes) → round p ≡ broken → scan_all p ≡ failed
unfolding scan_all
scan_all-broken [] e = unfold round in cc
scan_all-broken (b ∷ p) e = rw (e, scan_all, scan)

pub scan_all-frame :
    (p rest : Bytes) (f : Frame)
    → round p ≡ frame f rest
    → scan_all p ≡ with_frame f (scan_all rest)
unfolding scan_all
scan_all-frame [] rest f e = unfold round in cc
scan_all-frame (b ∷ p) rest f e =
    rw (e, scan_all, scan)
      (ap (with_frame f) (
        scan-fuel (length p) (length rest) rest (omega (arith, round_shrinks (b ∷ p) rest f e))
          (omega arith)))

drop-append : (n : ℕ) (p q : Bytes) → n ≤ length p → drop n (p ++ q) ≡ drop n p ++ q
drop-append zero p q h = refl
drop-append (suc n) [] q h = absurd (omega arith)
drop-append (suc n) (b ∷ p) q h = drop-append n p q (omega arith)

take-append : (n : ℕ) (p q : Bytes) → n ≤ length p → take n (p ++ q) ≡ take n p
take-append zero p q h = refl
take-append (suc n) [] q h = absurd (omega arith)
take-append (suc n) (b ∷ p) q h = ap (◌∷◌ b) (take-append n p q (omega arith))

decode_length-append : (p q : Bytes) → 4 ≤ length p → decode_length (p ++ q) ≡ decode_length p
unfolding decode_length
decode_length-append [] q h = absurd (omega arith)
decode_length-append (a ∷ []) q h = absurd (omega arith)
decode_length-append (a ∷ b ∷ []) q h = absurd (omega arith)
decode_length-append (a ∷ b ∷ c ∷ []) q h = absurd (omega arith)
decode_length-append (a ∷ b ∷ c ∷ d ∷ p) q h = refl

decode_type32-append : (p q : Bytes) → 4 ≤ length p → decode_type32 (p ++ q) ≡ decode_type32 p
unfolding decode_type32
decode_type32-append [] q h = absurd (omega arith)
decode_type32-append (a ∷ []) q h = absurd (omega arith)
decode_type32-append (a ∷ b ∷ []) q h = absurd (omega arith)
decode_type32-append (a ∷ b ∷ c ∷ []) q h = absurd (omega arith)
decode_type32-append (a ∷ b ∷ c ∷ d ∷ p) q h = refl

-- More bytes behind do not change what a finished round has found.
pub round-append-broken : (p q : Bytes) → round p ≡ broken → round (p ++ q) ≡ broken
unfolding round
round-append-broken p q e = ground (arith, length-append p q, decode_length-append p q)

pub round-append-frame :
    (p q rest : Bytes) (f : Frame) → round p ≡ frame f rest → round (p ++ q) ≡ frame f (rest ++ q)
unfolding round
round-append-frame p q rest f e = ground (
  arith,
  length-append p q,
  decode_length-append p q,
  drop-append 4 p q,
  drop-append 8 p q,
  drop-append (4 + decode_length p) p q,
  length-drop 4 p,
  length-drop 8 p,
  decode_type32-append (drop 4 p) q,
  take-append (decode_length p - 4) (drop 8 p) q,
)
