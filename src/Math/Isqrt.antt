-- ===== src/Math/Isqrt.antt =====
-- packages/std/src/math/isqrt.rs: the integer square root by Newton's iteration, for an unsigned
-- type of `w` bits, whose addition and division panic as the source's operators do.
pub mod Newton
use cosmwasm.Base.{
  ℕ, zero, suc, ◌+◌, ◌/◌, Outcome, returns, panics, ◌>>=◌, unwrap, true, false, ltb, if◌then◌else◌,
}
use cosmwasm.Math.Words.{checked_add, checked_div}

module _ (w n : ℕ) where
  -- `(x0 + self / x0) >> 1`
  unfoldable pub average : ℕ → Outcome ℕ
  average x = do
    quotient ← unwrap (checked_div n x)
    total ← unwrap (checked_add w x quotient)
    returns (total / 2)

  -- `while x1 < x0 { x0 = x1; x1 = … }`, on fuel.
  unfoldable pub newton : ℕ → ℕ → ℕ → Outcome ℕ
  newton zero x0 x1 = panics
  newton (suc fuel) x0 x1 = elim (ltb x1 x0) [
    | true ↦ average x1 >>= λ x. newton fuel x1 x
    | false ↦ returns x0
  ]

  unfoldable pub isqrt : Outcome ℕ
  unfolding average newton
  isqrt =
      let x0 = n / 2 in if ltb 0 x0 then (average x0 >>= λ x1. newton (suc x0) x0 x1) else returns n
