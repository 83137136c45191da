-- ===== src/Account/TokenManager/Decimal.antt =====
-- std::to_string and the positive numbers of std::stoll, which TokenManager.cpp stores and reads.
use native.Mathlib.Nat.{pow-suc}
use jitong_app.Base.{
  ℕ, zero, suc, ◌+◌, ◌-◌, ◌*◌, ◌/◌, ◌%◌, ◌^◌, ◌<◌, ◌≤◌, ◌≡◌, ◌≢◌, refl, ap, ◌∙◌, Bool, true, ◌&&◌,
  ◌||◌, Option, none, some, [], ◌∷◌, ◌++◌, Bytes, ltb, leb, ◌==◌, if◌then◌else◌, arith, Bool-cases,
  inl, inr,
}

-- The digits of a number below 10 ^ fuel.
unfoldable pub digits_of : ℕ → ℕ → Bytes
digits_of zero n = []
digits_of (suc fuel) n =
    let rest = digits_of fuel (n / 10) in
    if ltb n 10 then (48 + n) ∷ [] else rest ++ (48 + n % 10) ∷ []

unfoldable pub to_string : ℕ → Bytes
unfolding digits_of
to_string n = digits_of 20 n

abbrev pub is_digit : ℕ → Bool
is_digit c = leb 48 c && leb c 57

abbrev pub is_space : ℕ → Bool
is_space c = c == 32 || (leb 9 c && leb c 13)

-- All of the bytes are digits; anything else is left over and makes the text invalid.
unfoldable pub read_digits : ℕ → Bytes → Option ℕ
read_digits acc [] = some acc
read_digits acc (c ∷ cs) =
    let rest = read_digits (acc * 10 + (c - 48)) cs in if is_digit c then rest else none

abbrev pub read_some : Bytes → Option ℕ
read_some [] = none
read_some (c ∷ cs) = read_digits 0 (c ∷ cs)

-- A text with a minus sign gives no positive number.
abbrev pub read_signed : Bytes → Option ℕ
read_signed [] = none
read_signed (c ∷ cs) =
    if c == 43 then read_some cs else if c == 45 then none else read_some (c ∷ cs)

unfoldable pub skip_space : Bytes → Bytes
skip_space [] = []
skip_space (c ∷ cs) = if is_space c then skip_space cs else c ∷ cs

abbrev pub in_int64 : Option ℕ → Option ℕ
in_int64 none = none
in_int64 (some n) = if ltb 0 n && leb n 9223372036854775807 then some n else none

unfoldable pub parse_positive_int : Bytes → Option ℕ
unfolding read_digits skip_space
parse_positive_int s = in_int64 (read_signed (skip_space s))

read_digits-snoc :
    (acc : ℕ) (xs : Bytes) (c v : ℕ)
    → read_digits acc xs ≡ some v
    → is_digit c ≡ true
    → read_digits acc (xs ++ c ∷ []) ≡ some (v * 10 + (c - 48))
unfolding read_digits
read_digits-snoc acc [] c v e d = ground (arith, e, d)
read_digits-snoc acc (x ∷ xs) c v e d =
    ground (arith, e, d, read_digits-snoc (acc * 10 + (x - 48)) xs c v)

read_digits-digits_of : (fuel n : ℕ) → n < 10 ^ fuel → read_digits 0 (digits_of fuel n) ≡ some n
unfolding digits_of read_digits
read_digits-digits_of zero n h = ground (arith, h)
read_digits-digits_of (suc fuel) n h = elim (Bool-cases (ltb n 10)) [
  | inl e ↦ rw (e, read_digits) (ground (arith, e))
  | inr e ↦
      let shorter : n / 10 < 10 ^ fuel = omega (arith, h, pow-suc 10 fuel) in
      let before = read_digits-digits_of fuel (n / 10) shorter in
      rw e (
        read_digits-snoc 0 (digits_of fuel (n / 10)) (48 + n % 10) (n / 10) before (ground arith)
        ∙ ap some (omega arith))
]

snoc_nonempty : (xs : Bytes) (c : ℕ) → (xs ++ c ∷ []) ≢ []
snoc_nonempty [] c e = cc
snoc_nonempty (x ∷ xs) c e = cc

digits_nonempty : (fuel n : ℕ) → digits_of (suc fuel) n ≢ []
unfolding digits_of
digits_nonempty fuel n = ground (arith, snoc_nonempty (digits_of fuel (n / 10)) (48 + n % 10))

read_signed-digits :
    (n : ℕ) (xs : Bytes)
    → xs ≢ []
    → read_digits 0 xs ≡ some n
    → read_signed (skip_space xs) ≡ some n
unfolding read_digits skip_space
read_signed-digits n [] h e = absurd (h refl)
read_signed-digits n (c ∷ cs) h e = ground (arith, e)

-- A number that was written is read back.
pub parse_positive_int-to_string :
    (n : ℕ) → 0 < n → n ≤ 9223372036854775807 → parse_positive_int (to_string n) ≡ some n
unfolding parse_positive_int to_string
parse_positive_int-to_string n h k =
    let digits = digits_of 20 n in
    let e : read_signed (skip_space digits) ≡ some n =
      read_signed-digits n digits (digits_nonempty 19 n)
        (read_digits-digits_of 20 n (omega arith)) in
    rw e (ground (arith, h, k))

pub to_string_injective : (m n : ℕ) → m < 10 ^ 20 → n < 10 ^ 20 → to_string m ≡ to_string n → m ≡ n
unfolding to_string
to_string_injective m n h k e =
    let a = read_digits-digits_of 20 m h in let b = read_digits-digits_of 20 n k in cc (a, b, e)
