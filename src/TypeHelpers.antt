-- ===== src/TypeHelpers.antt =====
-- packages/storage/src/type_helpers.rs: reading a stored value of a type.
use cosmwasm.Base.{Option, none, some, ok, err, and_then}
use cosmwasm.Bytes.{Bytes}
use cosmwasm.BTreeMap.{Record}
use cosmwasm.Errors.{StdResult, not_found}
use cosmwasm.Serde.{Serde}

module _ {T : Type 0} (c : Serde T) where
  unfoldable pub may_deserialize : Option Bytes → StdResult (Option T)
  may_deserialize none = ok none
  may_deserialize (some data') = and_then (c.from_slice data') (λ t. ok (some t))

  unfoldable pub must_deserialize : Option Bytes → StdResult T
  must_deserialize none = err (not_found c.type_name)
  must_deserialize (some data') = c.from_slice data'

  unfoldable pub deserialize_kv : Record → StdResult (Bytes × T)
  deserialize_kv (k, v) = and_then (c.from_slice v) (λ t. ok (k, t))
