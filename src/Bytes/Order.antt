-- ===== src/Bytes/Order.antt =====
-- The laws of the order of byte strings.
use Prim.Native.Nat.Ordering.{lt, eq, gt}
use cosmwasm.Base.{◌≡◌, refl, [], ◌∷◌, ◌++◌, arith}
use cosmwasm.Bytes.{Bytes, cmp}

pub cmp_refl : (a : Bytes) → cmp a a ≡ eq
unfolding cmp
cmp_refl [] = refl
cmp_refl (x ∷ xs) = ground (arith, cmp_refl xs)

pub eq_of_cmp : (a b : Bytes) → cmp a b ≡ eq → a ≡ b
unfolding cmp
eq_of_cmp [] [] h = refl
eq_of_cmp [] (y ∷ ys) h = cc
eq_of_cmp (x ∷ xs) [] h = cc
eq_of_cmp (x ∷ xs) (y ∷ ys) h = ground (arith, eq_of_cmp xs ys)

pub gt_of_lt : (a b : Bytes) → cmp a b ≡ lt → cmp b a ≡ gt
unfolding cmp
gt_of_lt [] [] h = cc
gt_of_lt [] (y ∷ ys) h = refl
gt_of_lt (x ∷ xs) [] h = cc
gt_of_lt (x ∷ xs) (y ∷ ys) h = ground (arith, gt_of_lt xs ys)

pub lt_of_gt : (a b : Bytes) → cmp a b ≡ gt → cmp b a ≡ lt
unfolding cmp
lt_of_gt [] [] h = cc
lt_of_gt [] (y ∷ ys) h = cc
lt_of_gt (x ∷ xs) [] h = refl
lt_of_gt (x ∷ xs) (y ∷ ys) h = ground (arith, lt_of_gt xs ys)

pub lt_trans : (a b c : Bytes) → cmp a b ≡ lt → cmp b c ≡ lt → cmp a c ≡ lt
unfolding cmp
lt_trans [] [] c h k = cc
lt_trans [] (y ∷ ys) [] h k = cc
lt_trans [] (y ∷ ys) (z ∷ zs) h k = refl
lt_trans (x ∷ xs) [] c h k = cc
lt_trans (x ∷ xs) (y ∷ ys) [] h k = cc
lt_trans (x ∷ xs) (y ∷ ys) (z ∷ zs) h k = ground (arith, lt_trans xs ys zs)

-- Strings behind one prefix compare as what follows it.
pub cmp-append : (p a b : Bytes) → cmp (p ++ a) (p ++ b) ≡ cmp a b
unfolding cmp
cmp-append [] a b = refl
cmp-append (x ∷ p) a b = ground (arith, cmp-append p a b)
