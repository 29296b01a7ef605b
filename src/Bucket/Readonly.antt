-- ===== src/Bucket/Readonly.antt =====
-- `ReadonlyBucket` of packages/storage/src/bucket.rs.
use cosmwasm.Base.{Option, List, map, Outcome, map_outcome}
use cosmwasm.Bytes.{Bytes}
use cosmwasm.Storage.{Storage, Order}
use cosmwasm.Errors.{StdResult}
use cosmwasm.Serde.{Serde}
use cosmwasm.TypeHelpers.{may_deserialize, must_deserialize, deserialize_kv}
use cosmwasm.LengthPrefixed.{to_length_prefixed, to_length_prefixed_nested}
use cosmwasm.Namespace.{get_with_prefix, range_with_prefix}

pub record ReadonlyBucket (S : Type 0) : Type 0 where
  pub storage : S
  pub prefix : Bytes

module _ {S : Type 0} where
  unfoldable pub new : S → Bytes → Outcome (ReadonlyBucket S)
  new storage namespace =
      map_outcome (λ prefix. record { storage = storage; prefix = prefix })
        (to_length_prefixed namespace)

  unfoldable pub multilevel : S → List Bytes → Outcome (ReadonlyBucket S)
  multilevel storage namespaces =
      map_outcome (λ prefix. record { storage = storage; prefix = prefix })
        (to_length_prefixed_nested namespaces)

  -- The alias `bucket_read`.
  unfoldable pub bucket_read : S → Bytes → Outcome (ReadonlyBucket S)
  unfolding new
  bucket_read storage namespace = new storage namespace

module _ {S T : Type 0} (ops : Storage S) (c : Serde T) where
  unfoldable pub load : ReadonlyBucket S → Bytes → StdResult T
  unfolding must_deserialize get_with_prefix
  load b key = must_deserialize c (get_with_prefix ops b.storage b.prefix key)

  unfoldable pub may_load : ReadonlyBucket S → Bytes → StdResult (Option T)
  unfolding may_deserialize get_with_prefix
  may_load b key = may_deserialize c (get_with_prefix ops b.storage b.prefix key)

  unfoldable pub range :
      ReadonlyBucket S
      → Option Bytes
      → Option Bytes
      → Order
      → List (Outcome (StdResult (Bytes × T)))
  range b start end order =
      map (map_outcome (deserialize_kv c))
        (range_with_prefix ops b.storage b.prefix start end order)
