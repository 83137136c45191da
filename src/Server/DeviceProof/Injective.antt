-- ===== src/Server/DeviceProof/Injective.antt =====
-- The signed message of a device proof determines its five parts.
use mathlib.Core.Path.{ap₂}
use jitong_app.Base.{
  ◌≡◌, refl, sym, ap, ◌∙◌, Bytes, [], ◌++◌, length, take, drop, take_exact, drop_exact, arith,
}
use jitong_app.Transport.Bits.{decode_length, IsWord}
use jitong_app.Server.DeviceProof.{field, label, message}

abbrev pub Fits : Bytes → Type 0
Fits b = IsWord (length b)

-- A field and what follows it.
abbrev read_field : Bytes → Bytes × Bytes
read_field b = (take (decode_length b) (drop 4 b), drop (decode_length b) (drop 4 b))

read_field-field : (x rest : Bytes) → Fits x → read_field (field x ++ rest) ≡ (x, rest)
unfolding field decode_length
read_field-field x rest h =
    let size : decode_length (field x ++ rest) ≡ length x = omega arith in
    rw size (
      ap₂ (λ (a b : Bytes). (a, b)) (take_exact (length x) x rest refl)
        (drop_exact (length x) x rest refl))

field_injective :
    (x y r s : Bytes) → Fits x → Fits y → field x ++ r ≡ field y ++ s → (x ≡ y) × (r ≡ s)
field_injective x y r s h k e =
    let p : (x, r) ≡ (y, s) =
      sym (read_field-field x r h) ∙ ap read_field e ∙ read_field-field y s k in
    (ap (λ (t : Bytes × Bytes). t.0) p, ap (λ (t : Bytes × Bytes). t.1) p)

label_injective : (a b : Bytes) → label ++ a ≡ label ++ b → a ≡ b
label_injective a b e = ap (drop (length label)) e

-- Two messages are equal only where the operation, the id of the secure channel, the device id, the
-- credential and the bound key are all equal, each shorter than 2 ^ 32 bytes.
pub message_injective :
    (op app device cred key op' app' device' cred' key' : Bytes)
    → Fits op
    → Fits op'
    → Fits app
    → Fits app'
    → Fits device
    → Fits device'
    → Fits cred
    → Fits cred'
    → Fits key
    → Fits key'
    → message op app device cred key ≡ message op' app' device' cred' key'
    → (op ≡ op') × (app ≡ app') × (device ≡ device') × (cred ≡ cred') × (key ≡ key')
unfolding message
message_injective op app device cred key op' app' device' cred' key' h1 h1' h2 h2' h3 h3' h4 h4' h5
      h5' e =
    let a = field_injective op op' _ _ h1 h1' (label_injective _ _ e) in
    let b = field_injective app app' _ _ h2 h2' a.1 in
    let c = field_injective device device' _ _ h3 h3' b.1 in
    let d = field_injective cred cred' _ _ h4 h4' c.1 in
    let last : field key ++ [] ≡ field key' ++ [] = ap (λ (t : Bytes). t ++ []) d.1 in
    (a.0, b.0, c.0, d.0, (field_injective key key' [] [] h5 h5' last).0)
