-- ===== src/Math/Decimal/Ratio.antt =====
-- The products and the ratio of packages/std/src/math/decimal.rs against the exact ones.
use cosmwasm.Base.{
  ◌*◌, ◌/◌, ◌^◌, ◌<◌, ◌≡◌, refl, ◌∙◌, returns, panics, ltb, ◌==◌, if◌then◌else◌, arith,
}
use cosmwasm.Math.Uint128
use cosmwasm.Math.Uint128.{Uint128}
use cosmwasm.Math.Uint128.Ratio.{multiply_ratio_lem}
use cosmwasm.Math.Uint256.{U256, IsU256}
use cosmwasm.Math.Decimal.{Decimal, decimal_fractional, mul, from_ratio}

module _ {u : U256} (law : IsU256 u) where
  mul-multiply_ratio : (a b : Decimal) → mul u a b ≡ Uint128.multiply_ratio u a b decimal_fractional
  unfolding mul Uint128.multiply_ratio
  mul-multiply_ratio a b = refl

  -- On 128-bit atomics, over `U256` words that compute with numbers: the product of two decimals is
  -- the floor of the product of their atomics over 10 ^ 18 where that fits in 128 bits, and a panic
  -- where it does not.
  pub mul_lem :
      (a b : Decimal)
      → a < 2 ^ 128
      → b < 2 ^ 128
      → mul u a b ≡ (if ltb (a * b / 10 ^ 18) (2 ^ 128) then returns (a * b / 10 ^ 18) else panics)
  mul_lem a b ha hb =
      mul-multiply_ratio a b ∙ multiply_ratio_lem law a b decimal_fractional ha hb (omega arith)

  -- On 128-bit numbers, over `U256` words that compute with numbers: the ratio is the floor of the
  -- numerator times 10 ^ 18 over the denominator where that fits in 128 bits, and a panic where it
  -- does not, or where the denominator is zero.
  pub from_ratio_lem :
      (n d : Uint128)
      → n < 2 ^ 128
      → d < 2 ^ 128
      → from_ratio u n d ≡ (
          if d == 0
          then panics
          else if ltb (n * 10 ^ 18 / d) (2 ^ 128)
          then returns (n * 10 ^ 18 / d)
          else panics)
  unfolding from_ratio
  from_ratio_lem n d hn hd =
      ground (arith, multiply_ratio_lem law n decimal_fractional d hn (omega arith) hd)
