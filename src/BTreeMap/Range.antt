-- ===== src/BTreeMap/Range.antt =====
-- The range of the map of packages/std/src/storage.rs with its bounds the wrong way round.
use Prim.Native.Nat.Ordering.{gt}
use cosmwasm.Base.{◌≡◌, refl, some, [], ◌∷◌, false, arith}
use cosmwasm.Bytes.{Bytes, cmp, within}
use cosmwasm.Bytes.Order.{gt_of_lt, lt_of_gt, eq_of_cmp, lt_trans}
use cosmwasm.BTreeMap.{BTreeMap, range}

within_empty : (a b k : Bytes) → cmp a b ≡ gt → within (some a) (some b) k ≡ false
within_empty a b k h =
    ground (arith, lt_of_gt a b, eq_of_cmp k a, lt_of_gt k a, gt_of_lt k b, lt_trans b a k)

pub range_empty : (a b : Bytes) (m : BTreeMap) → cmp a b ≡ gt → range (some a) (some b) m ≡ []
unfolding range
range_empty a b [] h = refl
range_empty a b (r ∷ m) h = rw (within_empty a b r.0 h) (range_empty a b m h)
