-- ===== src/Math/Uint256.antt =====
-- The part of packages/std/src/math/uint256.rs that the 128-bit types call. `U256` is generated by
-- the macro of another package, so it enters as an interface: its words, its operations, and the
-- documented laws that they compute with the numbers that the words stand for.
use cosmwasm.Base.{
  ℕ, ◌*◌, ◌/◌, ◌^◌, ◌≤◌, ◌<◌, ◌≡◌, Option, none, some, Outcome, Result, ok_or, unwrap,
}
use cosmwasm.Errors.{OverflowError, mul, ConversionOverflowError}

pub record U256 : Type 1 where
  pub Word : Type 0
  pub value : Word → ℕ
  pub from_u128 : ℕ → Word
  pub checked_mul : Word → Word → Option Word
  pub checked_div : Word → Word → Option Word
  -- The low 128 bits, where the others are zero.
  pub to_u128 : Word → Option ℕ

pub record IsU256 (u : U256) : Type 0 where
  pub value-from_u128 : (n : ℕ) → n < 2 ^ 128 → u.value (u.from_u128 n) ≡ n
  pub checked_mul_fits :
      (x y : u.Word)
      → u.value x * u.value y < 2 ^ 256
      → (z : u.Word) × (u.checked_mul x y ≡ some z) × (u.value z ≡ u.value x * u.value y)
  pub checked_mul_overflows :
      (x y : u.Word) → 2 ^ 256 ≤ u.value x * u.value y → u.checked_mul x y ≡ none
  pub checked_div_lem :
      (x y : u.Word)
      → 0 < u.value y
      → (z : u.Word) × (u.checked_div x y ≡ some z) × (u.value z ≡ u.value x / u.value y)
  pub checked_div_zero : (x y : u.Word) → u.value y ≡ 0 → u.checked_div x y ≡ none
  pub to_u128_fits : (x : u.Word) → u.value x < 2 ^ 128 → u.to_u128 x ≡ some (u.value x)
  pub to_u128_overflows : (x : u.Word) → 2 ^ 128 ≤ u.value x → u.to_u128 x ≡ none

module _ (u : U256) where
  -- `Uint256::from(u128)`
  unfoldable pub from_u128 : ℕ → u.Word
  from_u128 val = u.from_u128 val

  unfoldable pub checked_mul : u.Word → u.Word → Result OverflowError u.Word
  checked_mul x y =
      ok_or (u.checked_mul x y)
        (record { operation = mul; operand1 = u.value x; operand2 = u.value y })

  -- `impl ops::Div`
  unfoldable pub div : u.Word → u.Word → Outcome u.Word
  div x y = unwrap (u.checked_div x y)

  -- `impl TryFrom<Uint256> for Uint128`
  unfoldable pub try_into_uint128 : u.Word → Result ConversionOverflowError ℕ
  try_into_uint128 x =
      ok_or (u.to_u128 x)
        (record { source_type = "Uint256"; target_type = "Uint128"; value = u.value x })
