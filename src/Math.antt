-- ===== src/Math.antt =====
-- packages/std/src/math: integers of fixed width, the integer square root and decimals.
pub mod Words
pub mod Uint256
pub mod Uint128
pub mod Uint64
pub mod Isqrt
pub mod Decimal
