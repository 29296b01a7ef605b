-- ===== src/Tests/Namespaces.antt =====
-- The theorems on namespaces at two small stores.
use cosmwasm.Base.{ℕ, ◌≡◌, refl, ap, none, List, [], ◌∷◌, map, returns, arith, Any, map_outcome}
use cosmwasm.Bytes.{Bytes, cmp, strip}
use cosmwasm.Namespace.UpperBound.{ends_low}
use cosmwasm.BTreeMap
use cosmwasm.BTreeMap.{IsSorted}
use cosmwasm.Storage.{ascending, descending}
use cosmwasm.Memory
use cosmwasm.Memory.{
  MemoryStorage, memory_storage, memory_storage-IsStorage, memory_range_lem, IsValid,
}
use cosmwasm.LengthPrefixed.{
  encode_length, extend_prefixes, to_length_prefixed, to_length_prefixed_nested,
}
use cosmwasm.LengthPrefixed.Decode.{nested_prefix_unique}
use cosmwasm.Namespace.{range_with_prefix}
use cosmwasm.Namespace.Subset.{under}
use cosmwasm.Namespace.Iterate.{range_with_prefix_lem}
use cosmwasm.Namespace.Carry.{range_with_prefix_panics, IsPanic}
use cosmwasm.Prefixed
use cosmwasm.Prefixed.{PrefixedStorage, prefixed_storage}
use cosmwasm.Prefixed.Refine
use cosmwasm.Prefixed.Refine.{range-view, set-view, remove-view}
use cosmwasm.Prefixed.NoNamespaces.{multilevel_lists_nothing}
use cosmwasm.Prefixed.Isolation.{writes_are_isolated, multilevel_is_nested}

-- Two records in the namespace A and one in the namespace B.
abbrev store : MemoryStorage
store = record {
  entries =
      (0 ∷ 1 ∷ 65 ∷ 7 ∷ [], 1 ∷ [])
      ∷ (0 ∷ 1 ∷ 65 ∷ 8 ∷ [], 2 ∷ [])
      ∷ (0 ∷ 1 ∷ 66 ∷ 7 ∷ [], 3 ∷ [])
      ∷ [];
}

store-IsValid : memory_storage-IsStorage.IsValid store
unfolding memory_storage-IsStorage cmp
store-IsValid = record { sorted = ((refl, (refl, tt)), ((refl, tt), (tt, tt))) }

abbrev prefix_a : Bytes
prefix_a = 0 ∷ 1 ∷ 65 ∷ []

range_with_prefix_lem_example :
    range_with_prefix memory_storage store prefix_a none none descending
    ≡ map returns ((8 ∷ [], 2 ∷ []) ∷ (7 ∷ [], 1 ∷ []) ∷ [])
unfolding memory_storage-IsStorage under BTreeMap.range ends_low strip
range_with_prefix_lem_example =
    range_with_prefix_lem memory_storage-IsStorage store prefix_a none none descending store-IsValid
      refl

-- The prefix 1, 255 and the key 2.
abbrev shorter : MemoryStorage
shorter = record { entries = (2 ∷ [], 9 ∷ []) ∷ [] }

shorter-IsValid : memory_storage-IsStorage.IsValid shorter
unfolding memory_storage-IsStorage
shorter-IsValid = record { sorted = (tt, tt) }

range_with_prefix_panics_example :
    Any IsPanic (range_with_prefix memory_storage shorter (1 ∷ 255 ∷ []) none none ascending)
unfolding memory_storage Memory.get BTreeMap.get cmp
range_with_prefix_panics_example =
    range_with_prefix_panics memory_storage-IsStorage shorter [] 1 ascending {v = 9 ∷ []}
      shorter-IsValid (omega arith) refl

nested_prefix_unique_example :
    ◌≡◌ {A = List Bytes} ((65 ∷ []) ∷ (66 ∷ []) ∷ []) ((65 ∷ []) ∷ (66 ∷ []) ∷ [])
    × ◌≡◌ {A = Bytes} (7 ∷ []) (7 ∷ [])
unfolding to_length_prefixed_nested encode_length extend_prefixes
nested_prefix_unique_example =
    nested_prefix_unique ((65 ∷ []) ∷ (66 ∷ []) ∷ []) ((65 ∷ []) ∷ (66 ∷ []) ∷ []) (7 ∷ []) (7 ∷ [])
      refl refl refl refl

abbrev first : Bytes → ℕ
first [] = 0
first (b ∷ bs) = b

abbrev area : Bytes → PrefixedStorage MemoryStorage
area p = record { storage = store; prefix = p }

abbrev area_a : PrefixedStorage MemoryStorage
area_a = area prefix_a

area_a-IsValid : Refine.IsValid memory_storage-IsStorage area_a
unfolding ends_low
area_a-IsValid = record { below = store-IsValid; low = refl }

abbrev area_b : PrefixedStorage MemoryStorage
area_b = area (0 ∷ 1 ∷ 66 ∷ [])

-- After the value 4 is written at the key 8 of the namespace A.
abbrev written : PrefixedStorage MemoryStorage
written = record {
  storage = record {
    entries =
        (0 ∷ 1 ∷ 65 ∷ 7 ∷ [], 1 ∷ [])
        ∷ (0 ∷ 1 ∷ 65 ∷ 8 ∷ [], 4 ∷ [])
        ∷ (0 ∷ 1 ∷ 66 ∷ 7 ∷ [], 3 ∷ [])
        ∷ [];
  };
  prefix = prefix_a;
}

writes_are_isolated_example :
    (under (0 ∷ 1 ∷ 66 ∷ []) (memory_storage-IsStorage.view written.storage)
      ≡ under (0 ∷ 1 ∷ 66 ∷ []) (memory_storage-IsStorage.view store))
    × (under
          (0 ∷ 1 ∷ 66 ∷ [])
          (memory_storage-IsStorage.view (Prefixed.remove memory_storage area_a (8 ∷ [])).storage)
        ≡ under (0 ∷ 1 ∷ 66 ∷ []) (memory_storage-IsStorage.view store))
unfolding Prefixed.new Prefixed.set to_length_prefixed memory_storage Memory.set encode_length
    BTreeMap.insert cmp
writes_are_isolated_example =
    writes_are_isolated memory_storage-IsStorage store (65 ∷ []) (66 ∷ []) (8 ∷ []) (4 ∷ []) area_a
      written area_b store-IsValid (λ e. omega (arith, ap first e)) (λ e. cc) refl refl refl

abbrev nested : PrefixedStorage (PrefixedStorage MemoryStorage)
nested = record { storage = area_a; prefix = 0 ∷ 1 ∷ 66 ∷ [] }

abbrev flat : PrefixedStorage MemoryStorage
flat = area (0 ∷ 1 ∷ 65 ∷ 0 ∷ 1 ∷ 66 ∷ [])

multilevel_is_nested_example :
    (Prefixed.get (prefixed_storage memory_storage) nested (7 ∷ [])
      ≡ Prefixed.get memory_storage flat (7 ∷ []))
    × ((Prefixed.remove (prefixed_storage memory_storage) nested (7 ∷ [])).storage.storage
        ≡ (Prefixed.remove memory_storage flat (7 ∷ [])).storage)
    × (map_outcome
          (λ (t : PrefixedStorage (PrefixedStorage MemoryStorage)). t.storage.storage)
          (Prefixed.set (prefixed_storage memory_storage) nested (7 ∷ []) (5 ∷ []))
        ≡ map_outcome
            (λ (t : PrefixedStorage MemoryStorage). t.storage)
            (Prefixed.set memory_storage flat (7 ∷ []) (5 ∷ [])))
unfolding Prefixed.new Prefixed.multilevel to_length_prefixed to_length_prefixed_nested
    encode_length extend_prefixes
multilevel_is_nested_example =
    multilevel_is_nested memory_storage store (65 ∷ []) (66 ∷ []) (7 ∷ []) area_a flat nested refl
      refl refl (5 ∷ [])

multilevel_lists_nothing_example :
    (Prefixed.get memory_storage (area []) (0 ∷ 1 ∷ 65 ∷ 8 ∷ [])
      ≡ memory_storage.get store (0 ∷ 1 ∷ 65 ∷ 8 ∷ []))
    × (Prefixed.range memory_storage (area []) none none ascending ≡ [])
unfolding Prefixed.multilevel to_length_prefixed_nested extend_prefixes
multilevel_lists_nothing_example =
    multilevel_lists_nothing memory_storage-IsStorage store (area []) (0 ∷ 1 ∷ 65 ∷ 8 ∷ [])
      ascending store-IsValid refl
