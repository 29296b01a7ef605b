-- ===== src/Math/Uint128/Agree.antt =====
-- The families of operations of packages/std/src/math/uint128.rs against each other.
use cosmwasm.Base.{
  ℕ, ◌+◌, ◌*◌, ◌/◌, ◌%◌, ◌^◌, ◌<◌, ◌≤◌, ◌≡◌, refl, Outcome, returns, panics, Result, ok, err, ltb,
  if◌then◌else◌, arith, List, [], ◌∷◌,
}
use cosmwasm.Errors.{OverflowOperation, OverflowError}
use cosmwasm.Math.Uint128.{
  Uint128, max, divide_error, checked_add, checked_sub, checked_mul, checked_div, checked_rem,
  wrapping_add, wrapping_sub, wrapping_mul, saturating_add, saturating_sub, saturating_mul,
  overflow_error, add, sub, mul, div, rem, sum, sum_from,
}

-- What the four families make of one pair of operands: `IsExact` tells the exact result, `IsWrapped`
-- the one that is off by a wrap, and `OutOfRange` where there is no exact result of 128 bits.
abbrev pub Agrees :
    (ℕ → Type 0)
    → (ℕ → Type 0)
    → Type 0
    → OverflowError
    → Result OverflowError ℕ
    → ℕ
    → ℕ
    → Outcome ℕ
    → ℕ
    → Type 0
Agrees IsExact IsWrapped OutOfRange e (ok r) wrapped saturated op bound =
    IsExact r × (r < 2 ^ 128) × (wrapped ≡ r) × (saturated ≡ r) × (op ≡ returns r)
Agrees IsExact IsWrapped OutOfRange e (err e') wrapped saturated op bound =
    OutOfRange × (e' ≡ e) × IsWrapped wrapped × (saturated ≡ bound) × (op ≡ panics)

-- Addition of 128-bit numbers: where the checked operation has a value, it is the exact sum, and the
-- wrapping, the saturating and the panicking operation have the same; where it is an error, the sum
-- takes more than 128 bits, the error names the operands, and the others are the sum less 2 ^ 128,
-- the maximum, and a panic.
pub add-Agrees :
    (a b : Uint128)
    → a < 2 ^ 128
    → b < 2 ^ 128
    → Agrees
        (λ r. r ≡ a + b)
        (λ r. r + 2 ^ 128 ≡ a + b)
        (2 ^ 128 ≤ a + b)
        (overflow_error OverflowOperation.add a b)
        (checked_add a b)
        (wrapping_add a b)
        (saturating_add a b)
        (add a b)
        max
unfolding checked_add wrapping_add saturating_add add
add-Agrees a b ha hb = ground arith

-- Subtraction of 128-bit numbers: where the checked operation has a value, it is the exact difference,
-- and the wrapping, the saturating and the panicking operation have the same; where it is an error,
-- the first operand is the smaller one, the error names the operands, and the others are the
-- difference plus 2 ^ 128, zero, and a panic.
pub sub-Agrees :
    (a b : Uint128)
    → a < 2 ^ 128
    → b < 2 ^ 128
    → Agrees
        (λ r. r + b ≡ a)
        (λ r. r + b ≡ a + 2 ^ 128)
        (a < b)
        (overflow_error OverflowOperation.sub a b)
        (checked_sub a b)
        (wrapping_sub a b)
        (saturating_sub a b)
        (sub a b)
        0
unfolding checked_sub wrapping_sub saturating_sub sub
sub-Agrees a b ha hb = ground arith

-- Multiplication of 128-bit numbers: where the checked operation has a value, it is the exact product,
-- and the wrapping, the saturating and the panicking operation have the same; where it is an error,
-- the product takes more than 128 bits, the error names the operands, and the others are the product
-- less a multiple of 2 ^ 128, the maximum, and a panic.
pub mul-Agrees :
    (a b : Uint128)
    → a < 2 ^ 128
    → b < 2 ^ 128
    → Agrees
        (λ r. r ≡ a * b)
        (λ r. (r + a * b / 2 ^ 128 * 2 ^ 128 ≡ a * b) × (r < 2 ^ 128))
        (2 ^ 128 ≤ a * b)
        (overflow_error OverflowOperation.mul a b)
        (checked_mul a b)
        (wrapping_mul a b)
        (saturating_mul a b)
        (mul a b)
        max
unfolding checked_mul wrapping_mul saturating_mul mul
mul-Agrees a b ha hb = ground arith

-- On 128-bit numbers wrapping subtraction undoes wrapping addition, and the other way round.
pub wrapping_inverse :
    (a b : Uint128)
    → a < 2 ^ 128
    → b < 2 ^ 128
    → (wrapping_sub (wrapping_add a b) b ≡ a) × (wrapping_add (wrapping_sub a b) b ≡ a)
unfolding wrapping_add wrapping_sub
wrapping_inverse a b ha hb = (omega arith, omega arith)

-- By a nonzero number, the checked division and remainder have values that recombine to the
-- dividend, the remainder below the divisor, and the operators return the same values.
pub div-rem :
    (a b : Uint128)
    → 0 < b
    → (q : ℕ) × (r : ℕ) × (checked_div a b ≡ ok q)
      × (checked_rem a b ≡ ok r)
      × (q * b + r ≡ a)
      × (r < b)
      × (div a b ≡ returns q)
      × (rem a b ≡ returns r)
unfolding checked_div checked_rem div rem
div-rem a b h =
    (a / b, a % b, ground arith, ground arith, grind arith, grind arith, ground arith, ground arith)

-- By zero, the checked operations are errors that name the dividend, and the operators panic.
pub div-rem_zero :
    (a : Uint128)
    → (checked_div a 0 ≡ err (divide_error a))
      × (checked_rem a 0 ≡ err (divide_error a))
      × (div a 0 ≡ panics)
      × (rem a 0 ≡ panics)
unfolding checked_div checked_rem div rem
div-rem_zero a = (ground arith, ground arith, ground arith, ground arith)

-- The sum as an unbounded number.
unfoldable pub exact_sum : List ℕ → ℕ
exact_sum [] = 0
exact_sum (x ∷ xs) = x + exact_sum xs

sum_from-panics : (xs : List Uint128) → sum_from panics xs ≡ panics
unfolding sum_from
sum_from-panics [] = refl
sum_from-panics (x ∷ xs) = sum_from-panics xs

sum_from_lem :
    (acc : Uint128) (xs : List Uint128)
    → acc < 2 ^ 128
    → sum_from (returns acc) xs
      ≡ (if ltb (acc + exact_sum xs) (2 ^ 128) then returns (acc + exact_sum xs) else panics)
unfolding sum_from exact_sum
sum_from_lem acc [] h = ground arith
sum_from_lem acc (x ∷ xs) h = ground (arith, sum_from_lem (acc + x) xs, sum_from-panics xs)

-- The sum of a list is the exact sum where that fits in 128 bits, and panics where it does not.
pub sum_lem :
    (xs : List Uint128)
    → sum xs ≡ (if ltb (exact_sum xs) (2 ^ 128) then returns (exact_sum xs) else panics)
unfolding sum
sum_lem xs = ground (arith, sum_from_lem 0 xs)
