-- ===== src/Math/Decimal/Atomics.antt =====
-- `from_atomics` of packages/std/src/math/decimal.rs against the exact number.
use native.Mathlib.Nat.{pow-le-pow_right}
use cosmwasm.Base.{ℕ, ◌-◌, ◌*◌, ◌/◌, ◌^◌, ◌≤◌, ◌<◌, ◌≡◌, ltb, if◌then◌else◌, arith}
use cosmwasm.Base.Call.{success, failure}
use cosmwasm.Math.Uint128.{Uint128}
use cosmwasm.Math.Decimal.{from_atomics, decimal_range_exceeded}

pow_small : (k : ℕ) → k ≤ 18 → 10 ^ k < 2 ^ 128
pow_small k h = let le : 10 ^ k ≤ 10 ^ 18 = pow-le-pow_right (omega arith) h in omega arith

pow_positive : (k : ℕ) → 0 < 10 ^ k
pow_positive k =
    let le : 10 ^ 0 ≤ 10 ^ k = pow-le-pow_right (omega arith) {i = 0} (omega arith) in omega arith

div_large : (a b : ℕ) → a < b → a / b ≡ 0
div_large a b h = grind arith

-- A 128-bit number of atomics with the given decimal places, as a number of 18 places: exact for up
-- to 18 places, a failure where that takes more than 128 bits, and rounded down for more places.
pub from_atomics_lem :
    (atomics : Uint128) (places : ℕ)
    → atomics < 2 ^ 128
    → from_atomics atomics places ≡ (
        if ltb 18 places
        then success (atomics / 10 ^ (places - 18))
        else if ltb (atomics * 10 ^ (18 - places)) (2 ^ 128)
        then success (atomics * 10 ^ (18 - places))
        else failure decimal_range_exceeded)
unfolding from_atomics
from_atomics_lem atomics places h = ground (
  arith,
  pow_small (18 - places),
  pow_positive (places - 18),
  div_large atomics (10 ^ (places - 18)),
)
