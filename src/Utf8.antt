-- ===== src/Utf8.antt =====
-- The strings of Rust as their bytes: which bytes are a string, `str::from_utf8`, and the bytes of a
-- native string, `str::as_bytes`.
use Prim.Native.Char.{code}
use Prim.Native.String.{String}
use cosmwasm.Base.{
  ℕ, zero, suc, ◌+◌, ◌/◌, ◌%◌, Bool, true, false, ◌&&◌, ◌||◌, [], ◌∷◌, ◌++◌, ltb, leb, ◌==◌,
  if◌then◌else◌,
}
use cosmwasm.Bytes.{Bytes}

-- How many bytes follow a first byte, and the bounds of the next one.
abbrev pub expected : ℕ → ℕ × ℕ × ℕ
expected b =
    if ltb b 128
    then (0, 128, 191)
    else if b == 224
    then (2, 160, 191)
    else if b == 237
    then (2, 128, 159)
    else if b == 240
    then (3, 144, 191)
    else if b == 244
    then (3, 128, 143)
    else if ltb b 224
    then (1, 128, 191)
    else if ltb b 240
    then (2, 128, 191)
    else (3, 128, 191)

abbrev pub is_first : ℕ → Bool
is_first b = leb 194 b && leb b 244

-- With so many bytes of a character to come, the next one within these bounds.
unfoldable pub is_utf8_from : ℕ → ℕ → ℕ → Bytes → Bool
is_utf8_from zero lo hi [] = true
is_utf8_from (suc n) lo hi [] = false
is_utf8_from zero lo hi (b ∷ bs) =
    let (n, lo', hi') = expected b in
    let rest = is_utf8_from n lo' hi' bs in (ltb b 128 || is_first b) && rest
is_utf8_from (suc n) lo hi (b ∷ bs) =
    let rest = is_utf8_from n 128 191 bs in (leb lo b && leb b hi) && rest

unfoldable pub is_utf8 : Bytes → Bool
unfolding is_utf8_from
is_utf8 bytes = is_utf8_from 0 128 191 bytes

abbrev pub utf8_of : ℕ → Bytes
utf8_of c =
    if ltb c 128
    then c ∷ []
    else if ltb c 2048
    then (192 + c / 64) ∷ (128 + c % 64) ∷ []
    else if ltb c 65536
    then (224 + c / 4096) ∷ (128 + c / 64 % 64) ∷ (128 + c % 64) ∷ []
    else (240 + c / 262144) ∷ (128 + c / 4096 % 64) ∷ (128 + c / 64 % 64) ∷ (128 + c % 64) ∷ []

unfoldable pub as_bytes : String → Bytes
as_bytes String.[] = []
as_bytes (String.◌∷◌ c s) = utf8_of (code c) ++ as_bytes s
