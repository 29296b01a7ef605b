-- ===== src/Bucket.antt =====
-- packages/storage/src/bucket.rs: a map of typed values behind a namespace.
pub mod Readonly
pub mod Laws
use cosmwasm.Base.{Option, List, map, Outcome, returns, panics, Result, ok, err, map_outcome}
use cosmwasm.Base
use cosmwasm.Base.Call.{Call, success, failure, panic, ◌>>=◌, ◌>>◌, try, try_into, run, map_failure}
use cosmwasm.Bytes.{Bytes}
use cosmwasm.BTreeMap.{Record}
use cosmwasm.Storage.{Storage, Order}
use cosmwasm.Errors.{StdError, StdResult}
use cosmwasm.Serde.{Serde}
use cosmwasm.TypeHelpers.{may_deserialize, must_deserialize, deserialize_kv}
use cosmwasm.LengthPrefixed.{to_length_prefixed, to_length_prefixed_nested}
use cosmwasm.Namespace.{get_with_prefix, set_with_prefix, remove_with_prefix, range_with_prefix}

pub record Bucket (S : Type 0) : Type 0 where
  pub storage : S
  pub prefix : Bytes

module _ {S : Type 0} where
  unfoldable pub new : S → Bytes → Outcome (Bucket S)
  new storage namespace =
      map_outcome (λ prefix. record { storage = storage; prefix = prefix })
        (to_length_prefixed namespace)

  unfoldable pub multilevel : S → List Bytes → Outcome (Bucket S)
  multilevel storage namespaces =
      map_outcome (λ prefix. record { storage = storage; prefix = prefix })
        (to_length_prefixed_nested namespaces)

  -- The alias `bucket`.
  unfoldable pub bucket : S → Bytes → Outcome (Bucket S)
  unfolding new
  bucket storage namespace = new storage namespace

module _ {S T : Type 0} (ops : Storage S) (c : Serde T) where
  -- The bucket after the call comes with a success; a failure has written nothing.
  unfoldable pub save : Bucket S → Bytes → T → Call StdError (Bucket S)
  unfolding set_with_prefix
  save b key value = do
    bytes ← try (c.to_vec value)
    storage ← run (set_with_prefix ops b.storage b.prefix key bytes)
    success (record b { storage = storage })

  unfoldable pub load : Bucket S → Bytes → StdResult T
  unfolding must_deserialize get_with_prefix
  load b key = must_deserialize c (get_with_prefix ops b.storage b.prefix key)

  unfoldable pub may_load : Bucket S → Bytes → StdResult (Option T)
  unfolding may_deserialize get_with_prefix
  may_load b key = may_deserialize c (get_with_prefix ops b.storage b.prefix key)

  unfoldable pub range :
      Bucket S → Option Bytes → Option Bytes → Order → List (Outcome (StdResult (Bytes × T)))
  range b start end order =
      map (map_outcome (deserialize_kv c))
        (range_with_prefix ops b.storage b.prefix start end order)

  -- `action` may fail with an error of its own type, into which `StdError` converts.
  unfoldable pub update :
      {E : Type 0}
      → (StdError → E)
      → Bucket S
      → Bytes
      → (Option T → Call E T)
      → Call E (T × Bucket S)
  unfolding may_load save
  update from b key action = do
    input ← try_into from (may_load b key)
    output ← action input
    b' ← map_failure from (save b key output)
    success (output, b')

module _ {S : Type 0} (ops : Storage S) where
  unfoldable pub remove : Bucket S → Bytes → Bucket S
  unfolding remove_with_prefix
  remove b key = record b { storage = remove_with_prefix ops b.storage b.prefix key }
