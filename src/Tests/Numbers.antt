-- ===== src/Tests/Numbers.antt =====
-- The theorems on numbers and on sections at concrete inputs.
use cosmwasm.Base.{ℕ, ◌*◌, ◌/◌, ◌^◌, ◌≡◌, [], ◌∷◌, returns, panics, ok, arith}
use cosmwasm.Bytes.{Bytes, to_be_bytes32}
use cosmwasm.Sections.{encode_sections, vm_encode_sections, decode_sections, split_tail}
use cosmwasm.Sections.RoundTrip.{decode_sections-encode_sections}
use cosmwasm.Sections.Malformed.{decoders_panic}
use cosmwasm.Math.Uint128
use cosmwasm.Math.Uint128.{max}
use cosmwasm.Math.Uint128.Ratio.{multiply_ratio_lem}
use cosmwasm.Math.Isqrt.{isqrt}
use cosmwasm.Math.Isqrt.Newton.{isqrt_lem, IsFloorSqrt}
use cosmwasm.Base.Call.{success}
use cosmwasm.Math.Decimal.{Decimal, sqrt, from_atomics, mul}
use cosmwasm.Math.Decimal.Sqrt.{sqrt_lem, IsRoot}
use cosmwasm.Math.Decimal.Atomics.{from_atomics_lem}
use cosmwasm.Math.Decimal.Ratio.{mul_lem}
use cosmwasm.Tests.Fixtures.{words, words-IsU256}

decode_sections-encode_sections_example :
    (d : Bytes) × (encode_sections ((1 ∷ 2 ∷ []) ∷ [] ∷ []) ≡ returns d)
    × (vm_encode_sections ((1 ∷ 2 ∷ []) ∷ [] ∷ []) ≡ ok d)
    × (decode_sections d ≡ returns ((1 ∷ 2 ∷ []) ∷ [] ∷ []))
decode_sections-encode_sections_example =
    decode_sections-encode_sections ((1 ∷ 2 ∷ []) ∷ [] ∷ []) (omega arith, (omega arith, tt))

decoders_panic_example :
    (decode_sections (9 ∷ 0 ∷ 0 ∷ 0 ∷ 2 ∷ []) ≡ panics)
    × (split_tail (9 ∷ 0 ∷ 0 ∷ 0 ∷ 2 ∷ []) ≡ panics)
unfolding to_be_bytes32
decoders_panic_example = decoders_panic (9 ∷ []) 2 (omega arith) (omega arith)

multiply_ratio_lem_example : Uint128.multiply_ratio words max 2 3 ≡ returns (max * 2 / 3)
multiply_ratio_lem_example =
    multiply_ratio_lem words-IsU256 max 2 3 (omega arith) (omega arith) (omega arith)

isqrt_lem_example : (r : ℕ) × (isqrt 8 99 ≡ returns r) × IsFloorSqrt 99 r
isqrt_lem_example = isqrt_lem 8 99 (omega arith) (omega arith)

sqrt_lem_example : (r : Decimal) × (sqrt (2 * 10 ^ 18) ≡ returns r) × IsRoot (2 * 10 ^ 18) r
sqrt_lem_example = sqrt_lem (2 * 10 ^ 18) (omega arith)

from_atomics_lem_example : from_atomics 1234 20 ≡ success 12
from_atomics_lem_example = from_atomics_lem 1234 20 (omega arith)

mul_lem_example : mul words (15 * 10 ^ 17) (3 * 10 ^ 18) ≡ returns (45 * 10 ^ 17)
mul_lem_example = mul_lem words-IsU256 (15 * 10 ^ 17) (3 * 10 ^ 18) (omega arith) (omega arith)
