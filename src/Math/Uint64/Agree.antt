-- ===== src/Math/Uint64/Agree.antt =====
-- The families of operations of packages/std/src/math/uint64.rs against each other, and its ratio
-- against the exact one.
use cosmwasm.Base.{
  ℕ, ◌*◌, ◌+◌, ◌/◌, ◌^◌, ◌≤◌, ◌<◌, ◌≡◌, returns, panics, Result, ok, err, ltb, ◌==◌, if◌then◌else◌,
  arith,
}
use cosmwasm.Errors.{OverflowError, OverflowOperation}
use cosmwasm.Math.Uint64.{
  Uint64, max, overflow_error, checked_add, checked_sub, wrapping_add, wrapping_sub, saturating_add,
  saturating_sub, multiply_ratio,
}

-- What three families make of one pair of operands, as `Agrees` of the 128-bit type has it.
abbrev pub Agrees :
    (ℕ → Type 0)
    → (ℕ → Type 0)
    → Type 0
    → OverflowError
    → Result OverflowError ℕ
    → ℕ
    → ℕ
    → ℕ
    → Type 0
Agrees IsExact IsWrapped OutOfRange e (ok r) wrapped saturated bound =
    IsExact r × (r < 2 ^ 64) × (wrapped ≡ r) × (saturated ≡ r)
Agrees IsExact IsWrapped OutOfRange e (err e') wrapped saturated bound =
    OutOfRange × (e' ≡ e) × IsWrapped wrapped × (saturated ≡ bound)

-- Addition and subtraction of 64-bit numbers: where the checked operation has a value, it is the exact
-- one, and the wrapping and the saturating operation have the same; where it is an error, the exact
-- result takes more than 64 bits or is negative, the error names the operands, the wrapping result is
-- off by 2 ^ 64, and the saturating one is the maximum or zero.
pub operations-Agree :
    (a b : Uint64)
    → a < 2 ^ 64
    → b < 2 ^ 64
    → Agrees
        (λ r. r ≡ a + b)
        (λ r. r + 2 ^ 64 ≡ a + b)
        (2 ^ 64 ≤ a + b)
        (overflow_error OverflowOperation.add a b)
        (checked_add a b)
        (wrapping_add a b)
        (saturating_add a b)
        max
      × Agrees
          (λ r. r + b ≡ a)
          (λ r. r + b ≡ a + 2 ^ 64)
          (a < b)
          (overflow_error OverflowOperation.sub a b)
          (checked_sub a b)
          (wrapping_sub a b)
          (saturating_sub a b)
          0
unfolding checked_add checked_sub wrapping_add wrapping_sub saturating_add saturating_sub
operations-Agree a b ha hb = (ground arith, ground arith)

product-lt : (a b : ℕ) → a < 2 ^ 64 → b < 2 ^ 64 → a * b < 2 ^ 128
product-lt a b ha hb =
    let below : a * b ≤ a * 2 ^ 64 = mul_le a b (2 ^ 64) (omega arith) in omega arith
  where
    mul_le : (x y z : ℕ) → y ≤ z → x * y ≤ x * z
    mul_le x y z h = grind arith

-- On 64-bit a and n: the floor of a * n / d where it fits in 64 bits; a panic where it does not, or
-- where d is zero.
pub multiply_ratio64_lem :
    (a n d : Uint64)
    → a < 2 ^ 64
    → n < 2 ^ 64
    → multiply_ratio a n d ≡ (
        if d == 0 then panics else if ltb (a * n / d) (2 ^ 64) then returns (a * n / d) else panics)
unfolding multiply_ratio
multiply_ratio64_lem a n d ha hn = ground (arith, product-lt a n ha hn)
