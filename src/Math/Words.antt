-- ===== src/Math/Words.antt =====
-- The arithmetic of Rust's unsigned integers of `w` bits. A value is a native number below 2 ^ w.
use cosmwasm.Base.{
  ℕ, ◌+◌, ◌-◌, ◌*◌, ◌/◌, ◌%◌, ◌^◌, Option, none, some, ltb, leb, ◌==◌, if◌then◌else◌,
}

module _ (w : ℕ) where
  abbrev pub in_range : ℕ → Option ℕ
  in_range n = if ltb n (2 ^ w) then some n else none

  abbrev pub max_value : ℕ
  max_value = 2 ^ w - 1

  abbrev pub checked_add : ℕ → ℕ → Option ℕ
  checked_add a b = in_range (a + b)

  abbrev pub checked_mul : ℕ → ℕ → Option ℕ
  checked_mul a b = in_range (a * b)

  abbrev pub checked_pow : ℕ → ℕ → Option ℕ
  checked_pow a n = in_range (a ^ n)

  abbrev pub checked_shr : ℕ → ℕ → Option ℕ
  checked_shr a n = if ltb n w then some (a / 2 ^ n) else none

  abbrev pub wrapping_add : ℕ → ℕ → ℕ
  wrapping_add a b = (a + b) % 2 ^ w

  abbrev pub wrapping_sub : ℕ → ℕ → ℕ
  wrapping_sub a b = (a + 2 ^ w - b) % 2 ^ w

  abbrev pub wrapping_mul : ℕ → ℕ → ℕ
  wrapping_mul a b = a * b % 2 ^ w

  abbrev pub wrapping_pow : ℕ → ℕ → ℕ
  wrapping_pow a n = a ^ n % 2 ^ w

  abbrev pub saturate : ℕ → ℕ
  saturate n = if ltb n (2 ^ w) then n else max_value

  abbrev pub saturating_add : ℕ → ℕ → ℕ
  saturating_add a b = saturate (a + b)

  abbrev pub saturating_mul : ℕ → ℕ → ℕ
  saturating_mul a b = saturate (a * b)

  abbrev pub saturating_pow : ℕ → ℕ → ℕ
  saturating_pow a n = saturate (a ^ n)

abbrev pub checked_sub : ℕ → ℕ → Option ℕ
checked_sub a b = if leb b a then some (a - b) else none

abbrev pub checked_div : ℕ → ℕ → Option ℕ
checked_div a b = if b == 0 then none else some (a / b)

abbrev pub checked_rem : ℕ → ℕ → Option ℕ
checked_rem a b = if b == 0 then none else some (a % b)

-- Truncated subtraction is the saturating one.
abbrev pub saturating_sub : ℕ → ℕ → ℕ
saturating_sub a b = a - b
