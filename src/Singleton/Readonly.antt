-- ===== src/Singleton/Readonly.antt =====
-- `ReadonlySingleton` of packages/storage/src/singleton.rs.
use cosmwasm.Base.{Option, Outcome, map_outcome}
use cosmwasm.Bytes.{Bytes}
use cosmwasm.Storage.{Storage}
use cosmwasm.Errors.{StdResult}
use cosmwasm.Serde.{Serde}
use cosmwasm.TypeHelpers.{may_deserialize, must_deserialize}
use cosmwasm.LengthPrefixed.{to_length_prefixed}

pub record ReadonlySingleton (S : Type 0) : Type 0 where
  pub storage : S
  pub key : Bytes

module _ {S : Type 0} where
  unfoldable pub new : S → Bytes → Outcome (ReadonlySingleton S)
  new storage key =
      map_outcome (λ raw. record { storage = storage; key = raw }) (to_length_prefixed key)

  -- The alias `singleton_read`.
  unfoldable pub singleton_read : S → Bytes → Outcome (ReadonlySingleton S)
  unfolding new
  singleton_read storage key = new storage key

module _ {S T : Type 0} (ops : Storage S) (c : Serde T) where
  unfoldable pub load : ReadonlySingleton S → StdResult T
  unfolding must_deserialize
  load s = must_deserialize c (ops.get s.storage s.key)

  unfoldable pub may_load : ReadonlySingleton S → StdResult (Option T)
  unfolding may_deserialize
  may_load s = may_deserialize c (ops.get s.storage s.key)
