-- ===== src/Prefixed.antt =====
-- packages/storage/src/prefixed_storage.rs: a storage behind the raw prefix of a namespace, which
-- implements the trait `Storage` itself.
pub mod Readonly
pub mod Refine
pub mod Isolation
pub mod NoNamespaces
use cosmwasm.Base.{Option, List, Outcome, returns, panics, ◌>>=◌}
use cosmwasm.Bytes.{Bytes}
use cosmwasm.BTreeMap.{Record}
use cosmwasm.Storage.{Storage, Order}
use cosmwasm.LengthPrefixed.{to_length_prefixed, to_length_prefixed_nested}
use cosmwasm.Namespace.{get_with_prefix, set_with_prefix, remove_with_prefix, range_with_prefix}

pub record PrefixedStorage (S : Type 0) : Type 0 where
  pub storage : S
  pub prefix : Bytes

pub record ReadonlyPrefixedStorage (S : Type 0) : Type 0 where
  pub storage : S
  pub prefix : Bytes

module _ {S : Type 0} where
  unfoldable pub new : S → Bytes → Outcome (PrefixedStorage S)
  new storage namespace = do
    prefix ← to_length_prefixed namespace
    returns (record { storage = storage; prefix = prefix })

  unfoldable pub multilevel : S → List Bytes → Outcome (PrefixedStorage S)
  multilevel storage namespaces = do
    prefix ← to_length_prefixed_nested namespaces
    returns (record { storage = storage; prefix = prefix })

  -- The alias `prefixed`.
  unfoldable pub prefixed : S → Bytes → Outcome (PrefixedStorage S)
  unfolding new
  prefixed storage namespace = new storage namespace

module _ {S : Type 0} (storage_ops : Storage S) where
  unfoldable pub get : PrefixedStorage S → Bytes → Option Bytes
  unfolding get_with_prefix
  get s key = get_with_prefix storage_ops s.storage s.prefix key

  unfoldable pub set : PrefixedStorage S → Bytes → Bytes → Outcome (PrefixedStorage S)
  unfolding set_with_prefix
  set s key value = do
    storage ← set_with_prefix storage_ops s.storage s.prefix key value
    returns (record s { storage = storage })

  unfoldable pub remove : PrefixedStorage S → Bytes → PrefixedStorage S
  unfolding remove_with_prefix
  remove s key = record s { storage = remove_with_prefix storage_ops s.storage s.prefix key }

  unfoldable pub range :
      PrefixedStorage S → Option Bytes → Option Bytes → Order → List (Outcome Record)
  range s start end order = range_with_prefix storage_ops s.storage s.prefix start end order

  -- `impl Storage for PrefixedStorage`
  unfoldable pub prefixed_storage : Storage (PrefixedStorage S)
  prefixed_storage = record { get = get; range = range; set = set; remove = remove }
