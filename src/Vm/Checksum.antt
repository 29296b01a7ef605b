-- ===== src/Vm/Checksum.antt =====
-- packages/vm/src/checksum.rs: the SHA-256 checksum of a Wasm blob, as its bytes, and its text.
use cosmwasm.Base.{ℕ, ◌+◌, ◌/◌, ◌%◌, ◌<◌, ◌≡◌, refl, [], ◌∷◌, ltb, if◌then◌else◌, arith}
use cosmwasm.Bytes.{Bytes, IsBytes}

-- `fmt::Display`: two lowercase hexadecimal digits for each byte, as the codes of the characters.
abbrev pub hex_digit : ℕ → ℕ
hex_digit n = if ltb n 10 then 48 + n else 87 + n

unfoldable pub to_hex : Bytes → Bytes
to_hex [] = []
to_hex (b ∷ rest) = hex_digit (b / 16) ∷ hex_digit (b % 16) ∷ to_hex rest

cons-head : {x y : ℕ} {a b : Bytes} → Path Bytes (x ∷ a) (y ∷ b) → x ≡ y
cons-head h = cc

cons-tail : {x y : ℕ} {a b : Bytes} → Path Bytes (x ∷ a) (y ∷ b) → Path Bytes a b
cons-tail h = cc

hex_digit_inj : (a b : ℕ) → a < 16 → b < 16 → hex_digit a ≡ hex_digit b → a ≡ b
hex_digit_inj a b p q h = ground arith

-- Two checksums of one text are the same.
pub to_hex_inj : (a b : Bytes) → IsBytes a → IsBytes b → to_hex a ≡ to_hex b → a ≡ b
unfolding to_hex
to_hex_inj [] [] p q h = refl
to_hex_inj [] (y ∷ b) p q h = cc
to_hex_inj (x ∷ a) [] p q h = cc
to_hex_inj (x ∷ a) (y ∷ b) p q h =
    let u =
      hex_digit_inj (x / 16) (y / 16) (omega (arith, p.0)) (omega (arith, q.0)) (cons-head h) in
    let v = hex_digit_inj (x % 16) (y % 16) (omega arith) (omega arith) (cons-head (cons-tail h)) in
    let e : x ≡ y = omega (arith, u, v) in cc (e, to_hex_inj a b p.1 q.1 (cons-tail (cons-tail h)))
