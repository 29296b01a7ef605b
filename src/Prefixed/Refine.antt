-- ===== src/Prefixed/Refine.antt =====
-- packages/storage/src/prefixed_storage.rs as an instance of the storage interface, over the part of
-- the map that lies under its prefix.
use cosmwasm.Base.{◌≡◌, ◌≢◌, ◌∙◌, ap, true, Option, [], ◌++◌, map, returns}
use cosmwasm.Bytes.{Bytes}
use cosmwasm.BTreeMap
use cosmwasm.BTreeMap.{Record}
use cosmwasm.Storage.{Storage, IsStorage, Order, in_order}
use cosmwasm.Namespace.Subset.{under, get-under, under-insert, under-erase, under-IsSorted}
use cosmwasm.Namespace.UpperBound.{ends_low}
use cosmwasm.Namespace.Iterate.{range_with_prefix_lem}
use cosmwasm.Prefixed.{PrefixedStorage, get, set, remove, range, prefixed_storage}

module _ {S : Type 0} {ops : Storage S} (law : IsStorage ops) where
  -- The storage below is valid, and the prefix is not empty and does not end in 255.
  pub record IsValid (s : PrefixedStorage S) : Type 0 where
    pub below : law.IsValid s.storage
    pub low : ends_low s.prefix ≡ true

  abbrev pub view : PrefixedStorage S → BTreeMap.BTreeMap
  view s = under s.prefix (law.view s.storage)

  pub get-view : (s : PrefixedStorage S) (k : Bytes) → get ops s k ≡ BTreeMap.get k (view s)
  unfolding get
  get-view s k = law.get-view s.storage _ ∙ get-under s.prefix k (law.view s.storage)

  -- Over a valid storage, and behind a prefix that is not empty and does not end in 255, an
  -- iterator gives the records of the part of the map under the prefix between the bounds, in order,
  -- and no item panics.
  pub range-view :
      (s : PrefixedStorage S) (a b : Option Bytes) (o : Order)
      → IsValid s
      → range ops s a b o ≡ map returns (in_order o (BTreeMap.range a b (view s)))
  unfolding range
  range-view s a b o h = range_with_prefix_lem law s.storage s.prefix a b o h.below h.low

  -- Over a valid storage, and behind a prefix that is not empty and does not end in 255, a value
  -- that is not empty is set: that inserts it into the part of the map under the prefix, and the
  -- storage stays valid.
  pub set-view :
      (s : PrefixedStorage S) (k v : Bytes)
      → IsValid s
      → v ≢ []
      → (s' : PrefixedStorage S) × (set ops s k v ≡ returns s')
        × IsValid s'
        × (view s' ≡ BTreeMap.insert k v (view s))
  unfolding set
  set-view s k v h n =
      let (t, done, valid, e) = law.set-view s.storage (s.prefix ++ k) v h.below n in
      (
        record s { storage = t },
        rw done,
        record { below = valid; low = h.low },
        ap (under s.prefix) e
            ∙ under-insert s.prefix k v (law.view s.storage) (law.view-IsSorted s.storage h.below),
      )

  -- Over a valid storage, and behind a prefix that is not empty and does not end in 255, a
  -- removal erases the key from the part of the map under the prefix, and the storage stays valid.
  pub remove-view :
      (s : PrefixedStorage S) (k : Bytes)
      → IsValid s
      → IsValid (remove ops s k) × (view (remove ops s k) ≡ BTreeMap.erase k (view s))
  unfolding remove
  remove-view s k h =
      let (valid, e) = law.remove-view s.storage (s.prefix ++ k) h.below in
      (
        record { below = valid; low = h.low },
        ap (under s.prefix) e ∙ under-erase s.prefix k (law.view s.storage),
      )

  unfoldable pub prefixed_storage-IsStorage : IsStorage (prefixed_storage ops)
  unfolding prefixed_storage
  prefixed_storage-IsStorage = record {
    IsValid = IsValid;
    view = view;
    view-IsSorted = λ s h. under-IsSorted s.prefix _ (law.view-IsSorted s.storage h.below);
    get-view = get-view;
    range-view = range-view;
    set-view = set-view;
    remove-view = remove-view;
  }
