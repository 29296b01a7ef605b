-- ===== src/Queue/Int32.antt =====
-- `i32`: its values, its order and its addition, which panics on overflow, as the contracts are
-- built with overflow checks.
use cosmwasm.Base.{
  ℕ, suc, ◌+◌, ◌-◌, ◌^◌, Bool, true, false, Outcome, returns, panics, ltb, if◌then◌else◌,
}

pub data ℤ : Type 0 where
  pos negsuc : ℕ → ℤ

infixl 60 ◌+ℤ◌
unfoldable pub ◌+ℤ◌ : ℤ → ℤ → ℤ
pos a +ℤ pos b = pos (a + b)
pos a +ℤ negsuc b = if ltb b a then pos (a - suc b) else negsuc (b - a)
negsuc a +ℤ pos b = if ltb a b then pos (b - suc a) else negsuc (a - b)
negsuc a +ℤ negsuc b = negsuc (suc (a + b))

unfoldable pub lt_ℤ : ℤ → ℤ → Bool
lt_ℤ (pos a) (pos b) = ltb a b
lt_ℤ (pos a) (negsuc b) = false
lt_ℤ (negsuc a) (pos b) = true
lt_ℤ (negsuc a) (negsuc b) = ltb b a

unfoldable pub is_i32 : ℤ → Bool
is_i32 (pos a) = ltb a (2 ^ 31)
is_i32 (negsuc a) = ltb a (2 ^ 31)

unfoldable pub add_i32 : ℤ → ℤ → Outcome ℤ
unfolding ◌+ℤ◌ is_i32
add_i32 a b = let c = a +ℤ b in if is_i32 c then returns c else panics
