-- ===== src/Prefixed/Readonly.antt =====
-- `ReadonlyPrefixedStorage` of packages/storage/src/prefixed_storage.rs. Its writes are
-- `unimplemented!()`: they panic.
use cosmwasm.Base.{Option, List, Outcome, returns, panics, ◌>>=◌}
use cosmwasm.Bytes.{Bytes}
use cosmwasm.BTreeMap.{Record}
use cosmwasm.Storage.{Storage, Order}
use cosmwasm.LengthPrefixed.{to_length_prefixed, to_length_prefixed_nested}
use cosmwasm.Namespace.{get_with_prefix, range_with_prefix}
use cosmwasm.Prefixed.{ReadonlyPrefixedStorage}

module _ {S : Type 0} where
  unfoldable pub new : S → Bytes → Outcome (ReadonlyPrefixedStorage S)
  new storage namespace = do
    prefix ← to_length_prefixed namespace
    returns (record { storage = storage; prefix = prefix })

  unfoldable pub multilevel : S → List Bytes → Outcome (ReadonlyPrefixedStorage S)
  multilevel storage namespaces = do
    prefix ← to_length_prefixed_nested namespaces
    returns (record { storage = storage; prefix = prefix })

  -- The alias `prefixed_read`.
  unfoldable pub prefixed_read : S → Bytes → Outcome (ReadonlyPrefixedStorage S)
  unfolding new
  prefixed_read storage namespace = new storage namespace

  unfoldable pub set :
      ReadonlyPrefixedStorage S → Bytes → Bytes → Outcome (ReadonlyPrefixedStorage S)
  set s key value = panics

  unfoldable pub remove : ReadonlyPrefixedStorage S → Bytes → Outcome (ReadonlyPrefixedStorage S)
  remove s key = panics

module _ {S : Type 0} (storage_ops : Storage S) where
  unfoldable pub get : ReadonlyPrefixedStorage S → Bytes → Option Bytes
  unfolding get_with_prefix
  get s key = get_with_prefix storage_ops s.storage s.prefix key

  unfoldable pub range :
      ReadonlyPrefixedStorage S → Option Bytes → Option Bytes → Order → List (Outcome Record)
  range s start end order = range_with_prefix storage_ops s.storage s.prefix start end order
