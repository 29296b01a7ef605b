-- ===== src/Math/Decimal/Sqrt.antt =====
-- `sqrt` of packages/std/src/math/decimal.rs against the square root.
use cosmwasm.Base.{
  ℕ, zero, suc, ◌+◌, ◌-◌, ◌*◌, ◌^◌, ◌≤◌, ◌<◌, ◌≡◌, ap, some, none, returns, ltb, arith, inl, inr,
  Bool-cases, ltb→lt, ltb→ge,
}
use native.Mathlib.Decide.{dec_le}
use cosmwasm.Math.Isqrt.Newton.{isqrt_lem, IsFloorSqrt}
use cosmwasm.Math.Decimal.{Decimal, sqrt_with_precision, sqrt_from, sqrt}

-- `r` is the square root of `d`, rounded down by less than 10 ^ -9.
abbrev pub IsRoot : Decimal → Decimal → Type 0
IsRoot d r = (r * r ≤ d * 10 ^ 18) × (d * 10 ^ 18 < (r + 10 ^ 9) * (r + 10 ^ 9))

powers :
    (p : ℕ)
    → p ≤ 9
    → (100 ^ p * (10 ^ (9 - p) * 10 ^ (9 - p)) ≡ 10 ^ 18)
      × (0 < 10 ^ (9 - p))
      × (10 ^ (9 - p) ≤ 10 ^ 9)
powers zero h = (omega arith, omega arith, omega arith)
powers (suc zero) h = (omega arith, omega arith, omega arith)
powers (suc (suc zero)) h = (omega arith, omega arith, omega arith)
powers (suc (suc (suc zero))) h = (omega arith, omega arith, omega arith)
powers (suc (suc (suc (suc zero)))) h = (omega arith, omega arith, omega arith)
powers (suc (suc (suc (suc (suc zero))))) h = (omega arith, omega arith, omega arith)
powers (suc (suc (suc (suc (suc (suc zero)))))) h = (omega arith, omega arith, omega arith)
powers (suc (suc (suc (suc (suc (suc (suc zero))))))) h = (omega arith, omega arith, omega arith)
powers (suc (suc (suc (suc (suc (suc (suc (suc zero)))))))) h =
    (omega arith, omega arith, omega arith)
powers (suc (suc (suc (suc (suc (suc (suc (suc (suc zero))))))))) h =
    (omega arith, omega arith, omega arith)
powers (suc (suc (suc (suc (suc (suc (suc (suc (suc (suc p)))))))))) h = absurd (omega arith)

mul_mono : (a b c d : ℕ) → a ≤ b → c ≤ d → a * c ≤ b * d
mul_mono a b c d h k = grind arith

mul_mono_lt : (a b c : ℕ) → a < b → 0 < c → a * c < b * c
mul_mono_lt a b c h k = grind arith

root_small : (r : ℕ) → r * r < 2 ^ 128 → r < 2 ^ 64
root_small r h = elim (dec_le (2 ^ 64) r) [
  | yes big ↦ absurd (omega (arith, mul_mono (2 ^ 64) r (2 ^ 64) r big big))
  | no small ↦ omega arith
]

square_mul : (r k : ℕ) → (r * k) * (r * k) ≡ (r * r) * (k * k)
square_mul r k = grind arith

-- m and k are 100 ^ p and 10 ^ (9 - p).
scaled-IsRoot :
    (d r m k : ℕ)
    → IsFloorSqrt (d * m) r
    → m * (k * k) ≡ 10 ^ 18
    → 0 < k
    → k ≤ 10 ^ 9
    → IsRoot d (r * k)
scaled-IsRoot d r m k (low, high) e pos small =
    let whole : (d * m) * (k * k) ≡ d * 10 ^ 18 = grind (arith, ap (λ x. d * x) e) in
    let pos2 : 0 < k * k = grind arith in
    let up : (r + 1) * k ≤ r * k + 10 ^ 9 = grind arith in
    (
      omega (
        arith,
        whole,
        square_mul r k,
        mul_mono (r * r) (d * m) (k * k) (k * k) low (omega arith),
      ),
      omega (
        arith,
        whole,
        square_mul (r + 1) k,
        mul_mono_lt (d * m) ((r + 1) * (r + 1)) (k * k) high pos2,
        mul_mono ((r + 1) * k) (r * k + 10 ^ 9) ((r + 1) * k) (r * k + 10 ^ 9) up up,
      ),
    )

-- The result of one precision: none where the product takes more than 128 bits, else the root.
sqrt_with_precision-none :
    (d p : ℕ) → 2 ^ 128 ≤ d * 100 ^ p → sqrt_with_precision d p ≡ returns none
unfolding sqrt_with_precision
sqrt_with_precision-none d p h = ground arith

sqrt_with_precision-some :
    (d p : ℕ)
    → p ≤ 9
    → d * 100 ^ p < 2 ^ 128
    → (r : Decimal) × (sqrt_with_precision d p ≡ returns (some r)) × IsRoot d r
unfolding sqrt_with_precision
sqrt_with_precision-some d p hp h =
    let (root, done, floor) = isqrt_lem 128 (d * 100 ^ p) h (omega arith) in
    let (e, pos, small) = powers p hp in
    let root_lt = root_small root (omega (arith, floor.0)) in
    let fits : root * 10 ^ (9 - p) < 2 ^ 128 =
      omega (arith, mul_mono root (2 ^ 64) (10 ^ (9 - p)) (10 ^ 9) (omega arith) small) in
    (
      root * 10 ^ (9 - p),
      ground arith,
      scaled-IsRoot d root (100 ^ p) (10 ^ (9 - p)) floor e pos small,
    )

sqrt_from_lem :
    (p d : ℕ) → p ≤ 9 → d < 2 ^ 128 → (r : Decimal) × (sqrt_from p d ≡ returns r) × IsRoot d r
unfolding sqrt_from
sqrt_from_lem zero d hp h =
    let (r, done, root) = sqrt_with_precision-some d 0 hp (omega arith) in (r, rw done, root)
sqrt_from_lem (suc p) d hp h = elim (Bool-cases (ltb (d * 100 ^ suc p) (2 ^ 128))) [
  | inl fits ↦
      let (r, done, root) = sqrt_with_precision-some d (suc p) hp (ltb→lt _ _ fits) in
      (r, rw done, root)
  | inr large ↦
      let (r, done, root) = sqrt_from_lem p d (omega arith) h in
      (r, rw (sqrt_with_precision-none d (suc p) (ltb→ge _ _ large)) done, root)
]

-- For 128-bit atomics no operation panics, and the result r is the square root of d rounded down by
-- less than 10 ^ -9: in atomics, r * r ≤ d * 10 ^ 18 < (r + 10 ^ 9) * (r + 10 ^ 9).
pub sqrt_lem : (d : Decimal) → d < 2 ^ 128 → (r : Decimal) × (sqrt d ≡ returns r) × IsRoot d r
unfolding sqrt
sqrt_lem d h = sqrt_from_lem 9 d (omega arith) h
