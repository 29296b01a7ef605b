-- ===== src/Math/Uint128/Ratio.antt =====
-- `full_mul` and `multiply_ratio` of packages/std/src/math/uint128.rs against the exact product and
-- the exact ratio.
use cosmwasm.Base.{
  ℕ, ◌*◌, ◌/◌, ◌^◌, ◌≤◌, ◌<◌, ◌≡◌, returns, panics, ltb, ◌==◌, if◌then◌else◌, arith, inl, inr,
  Bool-cases, ltb→lt, ltb→ge, ◌∙◌,
}
use mathlib.Core.Path.{ap₂}
use cosmwasm.Math.Uint256.{U256, IsU256}
use cosmwasm.Math.Uint128.{Uint128, full_mul, multiply_ratio}

product-lt : (a b : ℕ) → a < 2 ^ 128 → b < 2 ^ 128 → a * b < 2 ^ 256
product-lt a b ha hb =
    let below : a * b ≤ a * 2 ^ 128 = mul_le a b (2 ^ 128) (omega arith) in omega arith
  where
    mul_le : (x y z : ℕ) → y ≤ z → x * y ≤ x * z
    mul_le x y z h = grind arith

module _ {u : U256} (law : IsU256 u) where
  pub full_mul_lem :
      (a b : Uint128)
      → a < 2 ^ 128
      → b < 2 ^ 128
      → (z : u.Word) × (full_mul u a b ≡ returns z) × (u.value z ≡ a * b)
  unfolding full_mul
  full_mul_lem a b ha hb =
      let ea = law.value-from_u128 a ha in
      let eb = law.value-from_u128 b hb in
      let (z, done, e) =
        law.checked_mul_fits (u.from_u128 a) (u.from_u128 b) (rw (ea, eb) (product-lt a b ha hb)) in
      (z, rw done, rw (ea, eb) at e)

  -- On 128-bit numbers, over `U256` words that compute with numbers: the floor of a * n / d where it fits in 128 bits, and a panic where it
  -- does not, or where the denominator is zero.
  pub multiply_ratio_lem :
      (a n d : Uint128)
      → a < 2 ^ 128
      → n < 2 ^ 128
      → d < 2 ^ 128
      → multiply_ratio u a n d ≡ (
          if d == 0
          then panics
          else if ltb (a * n / d) (2 ^ 128)
          then returns (a * n / d)
          else panics)
  unfolding multiply_ratio
  multiply_ratio_lem a n d ha hn hd =
      let (product, done, e) = full_mul_lem a n ha hn in
      elim (Bool-cases (d == 0)) [
        | inl zero ↦ rw zero
        | inr nonzero ↦
            let ed = law.value-from_u128 d hd in
            let (quotient, divided, q) =
              law.checked_div_lem product (u.from_u128 d) (rw ed (ground arith)) in
            let value_q : u.value quotient ≡ a * n / d = q ∙ ap₂ (λ x y. x / y) e ed in
            rw (nonzero, done, divided)
              (elim (Bool-cases (ltb (a * n / d) (2 ^ 128))) [
                | inl fits ↦
                    rw (fits, law.to_u128_fits quotient (rw value_q (ltb→lt _ _ fits)), value_q)
                | inr large ↦
                    rw (large, law.to_u128_overflows quotient (rw value_q (ltb→ge _ _ large)))
              ])
      ]
