-- ===== src/Math/Uint128.antt =====
-- packages/std/src/math/uint128.rs: `Uint128`, a wrapper of `u128`. The value of a `Uint128` is a
-- native number below 2 ^ 128. JSON and text conversions are not here.
pub mod Agree
pub mod Ratio
use cosmwasm.Base.{
  ℕ, ◌^◌, ◌-◌, Bool, Option, none, some, List, [], ◌∷◌, Outcome, returns, panics, ◌>>=◌, Result, ok,
  err, ok_or, unwrap, unwrap_ok, ltb, ◌==◌, if◌then◌else◌,
}
use cosmwasm.Errors.{OverflowError, OverflowOperation, DivideByZeroError, ConversionOverflowError}
use cosmwasm.Math.Words
use cosmwasm.Math.Uint256
use cosmwasm.Math.Uint256.{U256}

abbrev pub Uint128 : Type 0
Uint128 = ℕ

abbrev pub max : Uint128
max = 2 ^ 128 - 1

unfoldable pub is_zero : Uint128 → Bool
is_zero a = a == 0

abbrev pub overflow_error : OverflowOperation → ℕ → ℕ → OverflowError
overflow_error op a b = record { operation = op; operand1 = a; operand2 = b }

abbrev pub divide_error : ℕ → DivideByZeroError
divide_error a = record { operand = a }

unfoldable pub checked_add : Uint128 → Uint128 → Result OverflowError Uint128
checked_add a b = ok_or (Words.checked_add 128 a b) (overflow_error OverflowOperation.add a b)

unfoldable pub checked_sub : Uint128 → Uint128 → Result OverflowError Uint128
checked_sub a b = ok_or (Words.checked_sub a b) (overflow_error OverflowOperation.sub a b)

unfoldable pub checked_mul : Uint128 → Uint128 → Result OverflowError Uint128
checked_mul a b = ok_or (Words.checked_mul 128 a b) (overflow_error OverflowOperation.mul a b)

unfoldable pub checked_pow : Uint128 → ℕ → Result OverflowError Uint128
checked_pow a exp = ok_or (Words.checked_pow 128 a exp) (overflow_error OverflowOperation.pow a exp)

unfoldable pub checked_div : Uint128 → Uint128 → Result DivideByZeroError Uint128
checked_div a b = ok_or (Words.checked_div a b) (divide_error a)

-- On unsigned integers Euclidean division is division.
unfoldable pub checked_div_euclid : Uint128 → Uint128 → Result DivideByZeroError Uint128
checked_div_euclid a b = ok_or (Words.checked_div a b) (divide_error a)

unfoldable pub checked_rem : Uint128 → Uint128 → Result DivideByZeroError Uint128
checked_rem a b = ok_or (Words.checked_rem a b) (divide_error a)

unfoldable pub wrapping_add : Uint128 → Uint128 → Uint128
wrapping_add a b = Words.wrapping_add 128 a b

unfoldable pub wrapping_sub : Uint128 → Uint128 → Uint128
wrapping_sub a b = Words.wrapping_sub 128 a b

unfoldable pub wrapping_mul : Uint128 → Uint128 → Uint128
wrapping_mul a b = Words.wrapping_mul 128 a b

unfoldable pub wrapping_pow : Uint128 → ℕ → Uint128
wrapping_pow a exp = Words.wrapping_pow 128 a exp

unfoldable pub saturating_add : Uint128 → Uint128 → Uint128
saturating_add a b = Words.saturating_add 128 a b

unfoldable pub saturating_sub : Uint128 → Uint128 → Uint128
saturating_sub a b = Words.saturating_sub a b

unfoldable pub saturating_mul : Uint128 → Uint128 → Uint128
saturating_mul a b = Words.saturating_mul 128 a b

unfoldable pub saturating_pow : Uint128 → ℕ → Uint128
saturating_pow a exp = Words.saturating_pow 128 a exp

-- The operators panic where the checked operation has no value.
unfoldable pub add : Uint128 → Uint128 → Outcome Uint128
add a b = unwrap (Words.checked_add 128 a b)

unfoldable pub sub : Uint128 → Uint128 → Outcome Uint128
sub a b = unwrap (Words.checked_sub a b)

unfoldable pub mul : Uint128 → Uint128 → Outcome Uint128
mul a b = unwrap (Words.checked_mul 128 a b)

unfoldable pub div : Uint128 → Uint128 → Outcome Uint128
div a b = unwrap (Words.checked_div a b)

unfoldable pub shr : Uint128 → ℕ → Outcome Uint128
shr a n = unwrap (Words.checked_shr 128 a n)

unfoldable pub rem : Uint128 → Uint128 → Outcome Uint128
rem a b = unwrap (Words.checked_rem a b)

-- `impl TryFrom<Uint128> for Uint64`
unfoldable pub try_into_uint64 : Uint128 → Result ConversionOverflowError ℕ
try_into_uint64 value =
    if ltb value (2 ^ 64)
    then ok value
    else err (record { source_type = "Uint128"; target_type = "Uint64"; value = value })

-- `impl Sum`: the fold by `Add::add`.
unfoldable pub sum_from : Outcome Uint128 → List Uint128 → Outcome Uint128
unfolding add
sum_from acc [] = acc
sum_from acc (x ∷ xs) = sum_from (acc >>= λ a. add a x) xs

unfoldable pub sum : List Uint128 → Outcome Uint128
unfolding sum_from
sum xs = sum_from (returns 0) xs

module _ (u : U256) where
  unfoldable pub full_mul : Uint128 → ℕ → Outcome u.Word
  unfolding Uint256.from_u128 Uint256.checked_mul
  full_mul a rhs =
      unwrap_ok (Uint256.checked_mul u (Uint256.from_u128 u a) (Uint256.from_u128 u rhs))

  unfoldable pub multiply_ratio : Uint128 → ℕ → ℕ → Outcome Uint128
  unfolding full_mul Uint256.div Uint256.from_u128 Uint256.try_into_uint128
  multiply_ratio a numerator denominator = if denominator == 0 then panics else (do
    product ← full_mul a numerator
    quotient ← Uint256.div u product (Uint256.from_u128 u denominator)
    unwrap_ok (Uint256.try_into_uint128 u quotient))
