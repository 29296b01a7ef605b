-- ===== src/Storage.antt =====
-- The storage of a contract: the trait `Storage` of packages/std/src/traits.rs as an interface
-- with its laws, and `Order` of packages/std/src/iterator.rs.

pub mod Access
use cosmwasm.Base.{
  ℕ, ◌≡◌, refl, ◌≢◌, Option, none, some, List, [], map, reverse, All, Outcome, returns, Result, ok,
  err, ◌==◌, if◌then◌else◌,
}
use cosmwasm.Bytes.{Bytes, IsBytes}
use cosmwasm.BTreeMap.{Record, BTreeMap, IsSorted}
use cosmwasm.BTreeMap

pub data Order : Type 0 where
  ascending descending : Order

-- `StdError::generic_err("Order must be 1 or 2")`
pub data InvalidOrder : Type 0 where
  must_be_1_or_2 : InvalidOrder

-- The `Order` that an `i32` on the wasm boundary stands for; the `i32` is given by its bits.
unfoldable pub order_of_i32 : ℕ → Result InvalidOrder Order
order_of_i32 value =
    if value == 1 then ok ascending else if value == 2 then ok descending else err must_be_1_or_2

unfoldable pub i32_of_order : Order → ℕ
i32_of_order ascending = 1
i32_of_order descending = 2

-- The number that an order is sent as is read as the same order.
pub order_roundtrip : (o : Order) → order_of_i32 (i32_of_order o) ≡ ok o
unfolding order_of_i32 i32_of_order
order_roundtrip ascending = refl
order_roundtrip descending = refl

-- The trait. An iterator is the list of what its `next` gives, and each item may panic.
pub record Storage (S : Type 0) : Type 0 where
  pub get : S → Bytes → Option Bytes
  pub range : S → Option Bytes → Option Bytes → Order → List (Outcome Record)
  pub set : S → Bytes → Bytes → Outcome S
  pub remove : S → Bytes → S

-- The records of an iterator over a sorted map, in the given order.
abbrev pub in_order : Order → List Record → List Record
in_order ascending l = l
in_order descending l = reverse l

-- What the trait's documentation promises, read on the sorted map that the storage stands for.
pub record IsStorage {S : Type 0} (ops : Storage S) : Type 1 where
  pub IsValid : S → Type 0
  pub view : S → BTreeMap
  pub view-IsSorted : (s : S) → IsValid s → IsSorted (view s)
  pub get-view : (s : S) (k : Bytes) → ops.get s k ≡ BTreeMap.get k (view s)
  pub range-view :
      (s : S) (a b : Option Bytes) (o : Order)
      → IsValid s
      → ops.range s a b o ≡ map returns (in_order o (BTreeMap.range a b (view s)))
  pub set-view :
      (s : S) (k v : Bytes)
      → IsValid s
      → v ≢ []
      → (s' : S) × (ops.set s k v ≡ returns s')
        × IsValid s'
        × (view s' ≡ BTreeMap.insert k v (view s))
  pub remove-view :
      (s : S) (k : Bytes)
      → IsValid s
      → IsValid (ops.remove s k) × (view (ops.remove s k) ≡ BTreeMap.erase k (view s))
