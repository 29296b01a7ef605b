-- ===== src/Namespace.antt =====
-- packages/storage/src/namespace_helpers.rs: reads and writes behind a raw key prefix. The callers
-- hand over any storage that implements the trait.
pub mod Subset
pub mod UpperBound
pub mod Iterate
pub mod Carry
use Prim.Native.Nat.Ordering.{lt}
use cosmwasm.Base.{
  ℕ, ◌+◌, ◌≡◌, Bool, Option, none, some, List, [], ◌∷◌, ◌++◌, map, reverse, Outcome, returns,
  panics, ◌>>=◌, length, drop, ltb, ◌==◌, if◌then◌else◌,
}
use cosmwasm.Bytes.{Bytes}
use cosmwasm.BTreeMap.{Record}
use cosmwasm.Storage.{Storage, Order}

unfoldable pub concat : Bytes → Bytes → Bytes
concat namespace key = namespace ++ key

-- `key[namespace.len()..]` panics where the key is the shorter one.
unfoldable pub trim : Bytes → Bytes → Outcome Bytes
trim namespace key =
    if ltb (length key) (length namespace) then panics else returns (drop (length namespace) key)

-- The loop from the last byte down: 255 becomes 0 and the loop goes on; any other byte goes up by
-- one and ends it. The bytes stand in the order in which the loop meets them.
unfoldable pub bump : Bytes → Bytes
bump [] = []
bump (b ∷ rest) = if b == 255 then 0 ∷ bump rest else (b + 1) ∷ rest

unfoldable pub namespace_upper_bound : Bytes → Bytes
unfolding bump
namespace_upper_bound input = reverse (bump (reverse input))

-- The key of an iterator's item, with the prefix cut off.
unfoldable pub trim_item : Bytes → Outcome Record → Outcome Record
unfolding trim
trim_item prefix item = do r ← item; k ← trim prefix r.0; returns (k, r.1)

abbrev pub range_start : Bytes → Option Bytes → Bytes
range_start namespace none = namespace
range_start namespace (some s) = namespace ++ s

abbrev pub range_end : Bytes → Option Bytes → Bytes
range_end namespace none = namespace_upper_bound namespace
range_end namespace (some e) = namespace ++ e

module _ {S : Type 0} (storage_ops : Storage S) where
  unfoldable pub get_with_prefix : S → Bytes → Bytes → Option Bytes
  unfolding concat
  get_with_prefix storage namespace key = storage_ops.get storage (concat namespace key)

  unfoldable pub set_with_prefix : S → Bytes → Bytes → Bytes → Outcome S
  unfolding concat
  set_with_prefix storage namespace key value = storage_ops.set storage (concat namespace key) value

  unfoldable pub remove_with_prefix : S → Bytes → Bytes → S
  unfolding concat
  remove_with_prefix storage namespace key = storage_ops.remove storage (concat namespace key)

  unfoldable pub range_with_prefix :
      S → Bytes → Option Bytes → Option Bytes → Order → List (Outcome Record)
  unfolding trim_item
  range_with_prefix storage namespace start end order = map (trim_item namespace) (
      storage_ops.range storage (some (range_start namespace start))
        (some (range_end namespace end)) order)
