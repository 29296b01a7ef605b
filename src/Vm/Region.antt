-- ===== src/Vm/Region.antt =====
-- packages/vm/src/memory.rs: the check of a region that a contract describes.
use cosmwasm.Base.{
  ℕ, ◌+◌, ◌-◌, ◌^◌, ◌≤◌, ◌<◌, ◌≡◌, ◌↔◌, Result, ok, err, ltb, ◌==◌, if◌then◌else◌, arith,
}

-- The three fields are `u32`.
pub record Region : Type 0 where
  pub offset : ℕ
  pub capacity : ℕ
  pub length : ℕ

pub data RegionValidationError : Type 0 where
  zero_offset : RegionValidationError
  length_exceeds_capacity : ℕ → ℕ → RegionValidationError
  out_of_range : ℕ → ℕ → RegionValidationError

unfoldable pub validate_region : Region → Result RegionValidationError (Unit {0})
validate_region r =
    if r.offset == 0
    then err zero_offset
    else if ltb r.capacity r.length
    then err (length_exceeds_capacity r.length r.capacity)
    else if ltb (2 ^ 32 - 1 - r.offset) r.capacity
    then err (out_of_range r.offset r.capacity)
    else ok tt

-- A region with a `u32` offset passes exactly if it does not begin at address zero, its length is at
-- most its capacity, and the end of its capacity, the offset plus the capacity, is below 2 ^ 32.
pub validate_region_iff :
    (r : Region)
    → r.offset < 2 ^ 32
    → (validate_region r ≡ ok tt)
      ↔ ((0 < r.offset) × (r.length ≤ r.capacity) × (r.offset + r.capacity < 2 ^ 32))
unfolding validate_region
validate_region_iff r h = (λ e. ground arith, λ p. ground arith)
