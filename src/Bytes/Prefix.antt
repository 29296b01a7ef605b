-- ===== src/Bytes/Prefix.antt =====
-- The laws of the prefix test.
use cosmwasm.Base.{◌≡◌, refl, none, some, [], ◌∷◌, ◌++◌, arith}
use cosmwasm.Bytes.{Bytes, strip}

pub strip-append : (p k : Bytes) → strip p (p ++ k) ≡ some k
unfolding strip
strip-append [] k = refl
strip-append (x ∷ p) k = ground (arith, strip-append p k)

pub eq_of_strip : (p j k : Bytes) → strip p j ≡ some k → j ≡ p ++ k
unfolding strip
eq_of_strip [] j k h = ground arith
eq_of_strip (x ∷ p) [] k h = cc
eq_of_strip (x ∷ p) (y ∷ j) k h = ground (arith, eq_of_strip p j k)

pub append_cancel : (p a b : Bytes) → p ++ a ≡ p ++ b → a ≡ b
append_cancel [] a b h = h
append_cancel (x ∷ p) a b h = append_cancel p a b (cc)

-- Stripping two prefixes in turn is stripping their concatenation.
pub strip-strip : (p q j k : Bytes) → strip p j ≡ some k → strip (p ++ q) j ≡ strip q k
unfolding strip
strip-strip [] q j k h = ground arith
strip-strip (x ∷ p) q [] k h = cc
strip-strip (x ∷ p) q (y ∷ j) k h = ground (arith, strip-strip p q j k)

pub strip-none : (p q j : Bytes) → strip p j ≡ none → strip (p ++ q) j ≡ none
unfolding strip
strip-none [] q j h = cc
strip-none (x ∷ p) q [] h = refl
strip-none (x ∷ p) q (y ∷ j) h = ground (arith, strip-none p q j)
