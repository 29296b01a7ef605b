-- ===== src/Math/Uint64.antt =====
-- packages/std/src/math/uint64.rs: `Uint64`, a wrapper of `u64`, whose value is a native number
-- below 2 ^ 64. JSON and text conversions are not here.
pub mod Agree
use cosmwasm.Base.{
  ℕ, ◌^◌, ◌-◌, Bool, Option, none, some, Outcome, returns, panics, ◌>>=◌, Result, ok, err, ok_or,
  unwrap, unwrap_ok, ltb, ◌==◌, if◌then◌else◌,
}
use cosmwasm.Errors.{OverflowError, OverflowOperation, DivideByZeroError}
use cosmwasm.Math.Words
use cosmwasm.Math.Uint128
use cosmwasm.Math.Uint128.{Uint128}

abbrev pub Uint64 : Type 0
Uint64 = ℕ

abbrev pub max : Uint64
max = 2 ^ 64 - 1

abbrev pub overflow_error : OverflowOperation → ℕ → ℕ → OverflowError
overflow_error op a b = record { operation = op; operand1 = a; operand2 = b }

abbrev pub divide_error : ℕ → DivideByZeroError
divide_error a = record { operand = a }

unfoldable pub is_zero : Uint64 → Bool
is_zero a = a == 0

unfoldable pub checked_add : Uint64 → Uint64 → Result OverflowError Uint64
checked_add a b = ok_or (Words.checked_add 64 a b) (overflow_error OverflowOperation.add a b)

unfoldable pub checked_sub : Uint64 → Uint64 → Result OverflowError Uint64
checked_sub a b = ok_or (Words.checked_sub a b) (overflow_error OverflowOperation.sub a b)

unfoldable pub checked_mul : Uint64 → Uint64 → Result OverflowError Uint64
checked_mul a b = ok_or (Words.checked_mul 64 a b) (overflow_error OverflowOperation.mul a b)

unfoldable pub checked_div : Uint64 → Uint64 → Result DivideByZeroError Uint64
checked_div a b = ok_or (Words.checked_div a b) (divide_error a)

-- On unsigned integers Euclidean division is division.
unfoldable pub checked_div_euclid : Uint64 → Uint64 → Result DivideByZeroError Uint64
checked_div_euclid a b = ok_or (Words.checked_div a b) (divide_error a)

unfoldable pub checked_rem : Uint64 → Uint64 → Result DivideByZeroError Uint64
checked_rem a b = ok_or (Words.checked_rem a b) (divide_error a)

unfoldable pub wrapping_add : Uint64 → Uint64 → Uint64
wrapping_add a b = Words.wrapping_add 64 a b

unfoldable pub wrapping_sub : Uint64 → Uint64 → Uint64
wrapping_sub a b = Words.wrapping_sub 64 a b

unfoldable pub wrapping_mul : Uint64 → Uint64 → Uint64
wrapping_mul a b = Words.wrapping_mul 64 a b

unfoldable pub wrapping_pow : Uint64 → ℕ → Uint64
wrapping_pow a exp = Words.wrapping_pow 64 a exp

unfoldable pub saturating_add : Uint64 → Uint64 → Uint64
saturating_add a b = Words.saturating_add 64 a b

unfoldable pub saturating_sub : Uint64 → Uint64 → Uint64
saturating_sub a b = Words.saturating_sub a b

unfoldable pub saturating_mul : Uint64 → Uint64 → Uint64
saturating_mul a b = Words.saturating_mul 64 a b

unfoldable pub saturating_pow : Uint64 → ℕ → Uint64
saturating_pow a exp = Words.saturating_pow 64 a exp

-- The operators panic where the checked operation has no value.
unfoldable pub add : Uint64 → Uint64 → Outcome Uint64
add a b = unwrap (Words.checked_add 64 a b)

unfoldable pub div : Uint64 → Uint64 → Outcome Uint64
div a b = unwrap (Words.checked_div a b)

unfoldable pub rem : Uint64 → Uint64 → Outcome Uint64
rem a b = unwrap (Words.checked_rem a b)

unfoldable pub shr : Uint64 → ℕ → Outcome Uint64
shr a n = unwrap (Words.checked_shr 64 a n)

unfoldable pub full_mul : Uint64 → ℕ → Outcome Uint128
unfolding Uint128.checked_mul
full_mul a rhs = unwrap_ok (Uint128.checked_mul a rhs)

unfoldable pub multiply_ratio : Uint64 → ℕ → ℕ → Outcome Uint64
unfolding full_mul Uint128.div Uint128.try_into_uint64
multiply_ratio a numerator denominator = if denominator == 0 then panics else (do
  product ← full_mul a numerator
  quotient ← Uint128.div product denominator
  unwrap_ok (Uint128.try_into_uint64 quotient))
