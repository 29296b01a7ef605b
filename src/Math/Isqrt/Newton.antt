-- ===== src/Math/Isqrt/Newton.antt =====
-- Newton's iteration of packages/std/src/math/isqrt.rs against the floor of the square root.
use cosmwasm.Base.{
  ℕ, zero, suc, ◌+◌, ◌-◌, ◌*◌, ◌/◌, ◌^◌, ◌≤◌, ◌<◌, ◌≡◌, Outcome, returns, true, false, ltb, arith,
  inl, inr, Bool-cases, ltb→lt, ltb→ge, ap, ◌∙◌, ◌>>=◌,
}
use native.Mathlib.Decide.{dec_le}
use cosmwasm.Math.Isqrt.{average, newton, isqrt}

-- `r` is the floor of the square root of `n`.
abbrev pub IsFloorSqrt : ℕ → ℕ → Type 0
IsFloorSqrt n r = (r * r ≤ n) × (n < (r + 1) * (r + 1))

four_mul_le : (x d : ℕ) → 4 * (x * (x + d)) ≤ (x + (x + d)) * (x + (x + d))
four_mul_le x d = omega arith

am_gm : (x s : ℕ) → 4 * (x * s) ≤ (x + s) * (x + s)
am_gm x s = elim (dec_le x s) [
  | yes h ↦ let e : s ≡ x + (s - x) = omega arith in rw e (four_mul_le x (s - x))
  | no h ↦ let e : x ≡ s + (x - s) = omega arith in rw e (omega (arith, four_mul_le s (x - s)))
]

lt_mul_div : (n x : ℕ) → 0 < x → n < x * (n / x + 1)
lt_mul_div n x h = grind arith

square_mono : (a b : ℕ) → a ≤ b → a * a ≤ b * b
square_mono a b h = grind arith

-- The mean of x and n / x does not fall below the root.
above_root : (n x : ℕ) → 0 < x → n < ((x + n / x) / 2 + 1) * ((x + n / x) / 2 + 1)
above_root n x h =
    let y = (x + n / x) / 2 in
    let bound : x + (n / x + 1) ≤ 2 * (y + 1) = omega arith in
    let squares = square_mono (x + (n / x + 1)) (2 * (y + 1)) bound in
    omega (arith, squares, am_gm x (n / x + 1), lt_mul_div n x h)

-- What the iteration keeps of its current value.
record Holds (n x : ℕ) : Type 0 where
  positive : 0 < x
  half : 2 * x ≤ n
  above : n < (x + 1) * (x + 1)

div_mul_le : (n x : ℕ) → n / x * x ≤ n
div_mul_le n x = grind arith

quotient_ge : (n x : ℕ) → 0 < x → 2 * x ≤ n → 2 ≤ n / x
quotient_ge n x p h = grind arith

abbrev mean : ℕ → ℕ → ℕ
mean n x = (x + n / x) / 2

mul_mono : (q x : ℕ) → 2 ≤ x → q * 2 ≤ q * x
mul_mono q x h = grind arith

total-lt : (m n x : ℕ) → n < m → 4 < m → Holds n x → x + n / x < m
total-lt m n x hn hm h = elim (dec_le 2 x) [
  | yes big ↦ omega (arith, mul_mono (n / x) x big, div_mul_le n x, h.half)
  | no small ↦
      let one : x ≡ 1 = omega (arith, h.positive) in
      let few : n < (1 + 1) * (1 + 1) = rw one at (h.above) in
      omega (arith, div_mul_le n x, rw one at (div_mul_le n x))
]

mean-Holds : (n x : ℕ) → Holds n x → mean n x < x → Holds n (mean n x)
mean-Holds n x h lt = record {
  positive = omega (arith, h.positive, quotient_ge n x h.positive h.half);
  half = omega (arith, h.half);
  above = above_root n x h.positive;
}

le_of_mean : (n x : ℕ) → x ≤ mean n x → x * x ≤ n
le_of_mean n x h = let q : x ≤ n / x = omega arith in omega (arith, mul_le q, div_mul_le n x)
  where
    mul_le : {a b : ℕ} → a ≤ b → a * a ≤ b * a
    mul_le {a} {b} k = grind arith

le_square : (x : ℕ) → 0 < x → x ≤ x * x
le_square x h = grind arith

above_half : (n : ℕ) → 0 < n / 2 → n < (n / 2 + 1) * (n / 2 + 1)
above_half n h = omega (arith, le_square (n / 2) h)

small_root : (n : ℕ) → n ≤ 1 → IsFloorSqrt n n
small_root zero h = (omega arith, omega arith)
small_root (suc zero) h = (omega arith, omega arith)
small_root (suc (suc n)) h = absurd (omega arith)

module _ (w n : ℕ) (fits : n < 2 ^ w) (wide : 4 < 2 ^ w) where
  average_lem : (x : ℕ) → Holds n x → average w n x ≡ returns (mean n x)
  unfolding average
  average_lem x h = ground (arith, h.positive, total-lt (2 ^ w) n x fits wide h)

  newton_more :
      (fuel x0 x1 : ℕ)
      → ltb x1 x0 ≡ true
      → newton w n (suc fuel) x0 x1 ≡ (average w n x1 >>= λ x. newton w n fuel x1 x)
  unfolding newton
  newton_more fuel x0 x1 h = rw (h, newton)

  newton_stop : (fuel x0 x1 : ℕ) → ltb x1 x0 ≡ false → newton w n (suc fuel) x0 x1 ≡ returns x0
  unfolding newton
  newton_stop fuel x0 x1 h = rw (h, newton)

  newton_lem :
      (fuel x : ℕ)
      → Holds n x
      → x < fuel
      → (r : ℕ) × (newton w n fuel x (mean n x) ≡ returns r) × IsFloorSqrt n r
  newton_lem zero x h lt = absurd (omega arith)
  newton_lem (suc fuel) x h lt = elim (Bool-cases (ltb (mean n x) x)) [
    | inl less ↦
        let y = mean n x in
        let h' = mean-Holds n x h (ltb→lt y x less) in
        let (r, done, root) = newton_lem fuel y h' (omega (arith, ltb→lt y x less)) in
        (
          r,
          newton_more fuel x y less
              ∙ ap (λ (a : Outcome ℕ). a >>= λ z. newton w n fuel y z) (average_lem y h')
              ∙ done,
          root,
        )
    | inr stop ↦ (
      x,
      newton_stop fuel x (mean n x) stop,
      (le_of_mean n x (ltb→ge (mean n x) x stop), h.above),
    )
  ]

  half-Holds : 0 < n / 2 → Holds n (n / 2)
  half-Holds h = record { positive = h; half = omega arith; above = above_half n h }

  -- For every n of a type of w bits, with 4 < 2 ^ w, the loop ends, no operation panics, and the
  -- result r satisfies r * r ≤ n < (r + 1) * (r + 1).
  pub isqrt_lem : (r : ℕ) × (isqrt w n ≡ returns r) × IsFloorSqrt n r
  unfolding isqrt
  isqrt_lem = elim (Bool-cases (ltb 0 (n / 2))) [
    | inl big ↦
        let h = half-Holds (ltb→lt 0 (n / 2) big) in
        let (r, done, root) = newton_lem (suc (n / 2)) (n / 2) h (omega arith) in
        (r, rw (big, average_lem (n / 2) h) done, root)
    | inr small ↦ (n, rw small, small_root n (omega (arith, ltb→ge 0 (n / 2) small)))
  ]
