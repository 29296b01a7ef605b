-- ===== src/Math/Decimal.antt =====
-- packages/std/src/math/decimal.rs: `Decimal`, a fixed-point number with 18 fractional digits, as its
-- atomics. Text and JSON conversions are not here.
pub mod Atomics
pub mod Ratio
pub mod Sqrt
use cosmwasm.Base.{
  ℕ, zero, suc, ◌+◌, ◌-◌, ◌*◌, ◌^◌, Bool, true, false, Option, none, some, Outcome, returns, panics,
  ◌>>=◌, Result, ok, err, unwrap, unwrap_ok, ltb, ◌==◌, if◌then◌else◌, map_outcome,
}
use cosmwasm.Base.Call.{Call, success, failure, panic, try_into, run}
use cosmwasm.Math.Uint128
use cosmwasm.Math.Uint128.{Uint128}
use cosmwasm.Math.Uint256
use cosmwasm.Math.Uint256.{U256}
use cosmwasm.Math.Isqrt.{isqrt}

abbrev pub Decimal : Type 0
Decimal = Uint128

abbrev pub decimal_fractional : Uint128
decimal_fractional = 1_000_000_000_000_000_000

abbrev pub decimal_fractional_squared : Uint128
decimal_fractional_squared = 1_000_000_000_000_000_000_000_000_000_000_000_000

abbrev pub decimal_places : ℕ
decimal_places = 18

pub data DecimalRangeExceeded : Type 0 where
  decimal_range_exceeded : DecimalRangeExceeded

unfoldable pub percent : ℕ → Decimal
percent x = x * 10_000_000_000_000_000

unfoldable pub permille : ℕ → Decimal
permille x = x * 1_000_000_000_000_000

unfoldable pub from_atomics : Uint128 → ℕ → Call DecimalRangeExceeded Decimal
unfolding Uint128.checked_pow Uint128.checked_mul Uint128.checked_div
from_atomics atomics places =
    if ltb places decimal_places
    then elim (unwrap_ok (Uint128.checked_pow 10 (decimal_places - places))) [
      | returns factor ↦ try_into (λ e. decimal_range_exceeded) (Uint128.checked_mul atomics factor)
      | panics ↦ panic
    ]
    else if places == decimal_places
    then success atomics
    else elim (Uint128.checked_pow 10 (places - decimal_places)) [
      | ok factor ↦ run (unwrap_ok (Uint128.checked_div atomics factor))
      | err e ↦ success 0
    ]

unfoldable pub is_zero : Decimal → Bool
unfolding Uint128.is_zero
is_zero d = Uint128.is_zero d

unfoldable pub inv : Decimal → Outcome (Option Decimal)
unfolding is_zero Uint128.div
inv d =
    if is_zero d
    then returns none
    else map_outcome (λ q. some q) (Uint128.div decimal_fractional_squared d)

unfoldable pub add : Decimal → Decimal → Outcome Decimal
unfolding Uint128.add
add a b = Uint128.add a b

unfoldable pub sub : Decimal → Decimal → Outcome Decimal
unfolding Uint128.sub
sub a b = Uint128.sub a b

-- `impl ops::Div<Uint128> for Decimal`
unfoldable pub div : Decimal → Uint128 → Outcome Decimal
unfolding Uint128.div
div a b = Uint128.div a b

module _ (u : U256) where
  unfoldable pub from_ratio : Uint128 → Uint128 → Outcome Decimal
  unfolding Uint128.multiply_ratio Uint128.is_zero
  from_ratio numerator denominator =
      if Uint128.is_zero denominator
      then panics
      else Uint128.multiply_ratio u numerator decimal_fractional denominator

  unfoldable pub mul : Decimal → Decimal → Outcome Decimal
  unfolding Uint128.full_mul Uint256.div Uint256.from_u128 Uint256.try_into_uint128
  mul a b = do
    product ← Uint128.full_mul u a b
    quotient ← Uint256.div u product (Uint256.from_u128 u decimal_fractional)
    unwrap_ok (Uint256.try_into_uint128 u quotient)

  -- `impl ops::Mul<Decimal> for Uint128`
  unfoldable pub mul_uint128 : Uint128 → Decimal → Outcome Uint128
  unfolding Uint128.multiply_ratio Uint128.is_zero is_zero
  mul_uint128 a d =
      if Uint128.is_zero a
      then returns 0
      else if is_zero d
      then returns 0
      else Uint128.multiply_ratio u a d decimal_fractional

-- A precision is at most 9; the powers are of `u128`.
unfoldable pub sqrt_with_precision : Decimal → ℕ → Outcome (Option Decimal)
unfolding Uint128.checked_mul isqrt
sqrt_with_precision d precision = elim (Uint128.checked_mul d (100 ^ precision)) [
  | err e ↦ returns none
  | ok inner ↦ (do
    root ← isqrt 128 inner
    product ← unwrap_ok (Uint128.checked_mul root (10 ^ (9 - precision)))
    returns (some product))
]

-- The precisions from the given one down to zero, and `unwrap` where none is found.
unfoldable pub sqrt_from : ℕ → Decimal → Outcome Decimal
unfolding sqrt_with_precision
sqrt_from zero d = sqrt_with_precision d 0 >>= unwrap
sqrt_from (suc precision) d = do
  found ← sqrt_with_precision d (suc precision)
  elim found [ some r ↦ returns r | none ↦ sqrt_from precision d ]

unfoldable pub sqrt : Decimal → Outcome Decimal
unfolding sqrt_from
sqrt d = sqrt_from 9 d
