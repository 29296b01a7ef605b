-- ===== src/Singleton.antt =====
-- packages/storage/src/singleton.rs: one typed value at the raw key of a name.
pub mod Readonly
pub mod Laws
use cosmwasm.Base.{Option, Outcome, map_outcome}
use cosmwasm.Base.Call.{Call, success, ◌>>=◌, try, try_into, run, map_failure}
use cosmwasm.Bytes.{Bytes}
use cosmwasm.Storage.{Storage}
use cosmwasm.Errors.{StdError, StdResult}
use cosmwasm.Serde.{Serde}
use cosmwasm.TypeHelpers.{may_deserialize, must_deserialize}
use cosmwasm.LengthPrefixed.{to_length_prefixed}

pub record Singleton (S : Type 0) : Type 0 where
  pub storage : S
  pub key : Bytes

module _ {S : Type 0} where
  unfoldable pub new : S → Bytes → Outcome (Singleton S)
  new storage key =
      map_outcome (λ raw. record { storage = storage; key = raw }) (to_length_prefixed key)

  -- The alias `singleton`.
  unfoldable pub singleton : S → Bytes → Outcome (Singleton S)
  unfolding new
  singleton storage key = new storage key

module _ {S T : Type 0} (ops : Storage S) (c : Serde T) where
  unfoldable pub save : Singleton S → T → Call StdError (Singleton S)
  save s value = do
    bytes ← try (c.to_vec value)
    storage ← run (ops.set s.storage s.key bytes)
    success (record s { storage = storage })

  unfoldable pub load : Singleton S → StdResult T
  unfolding must_deserialize
  load s = must_deserialize c (ops.get s.storage s.key)

  unfoldable pub may_load : Singleton S → StdResult (Option T)
  unfolding may_deserialize
  may_load s = may_deserialize c (ops.get s.storage s.key)

  unfoldable pub update :
      {E : Type 0} → (StdError → E) → Singleton S → (T → Call E T) → Call E (T × Singleton S)
  unfolding load save
  update from s action = do
    input ← try_into from (load s)
    output ← action input
    s' ← map_failure from (save s output)
    success (output, s')

module _ {S : Type 0} (ops : Storage S) where
  unfoldable pub remove : Singleton S → Singleton S
  remove s = record s { storage = ops.remove s.storage s.key }
