-- ===== src/Tests/Values.antt =====
-- The theorems on typed values, over an empty memory storage.
use cosmwasm.Base.{ℕ, ◌+◌, ◌^◌, ◌<◌, ◌≡◌, refl, Option, none, some, [], ◌∷◌, ok, arith}
use cosmwasm.Base.Call.{Call, success}
use cosmwasm.Bytes.{Bytes, cmp}
use cosmwasm.BTreeMap
use cosmwasm.Memory
use cosmwasm.Memory.{MemoryStorage, memory_storage, memory_storage-IsStorage}
use cosmwasm.Errors.{StdError}
use cosmwasm.Bucket
use cosmwasm.Bucket.{Bucket}
use cosmwasm.Bucket.Laws.{load-save, update_lem}
use cosmwasm.Singleton
use cosmwasm.Singleton.{Singleton}
use cosmwasm.Sequence.{currval}
use cosmwasm.Sequence.Count.{after_calls, after_calls_count}
use cosmwasm.Tests.Fixtures.{codec, codec-IsSerde, unary}

abbrev prefix : Bytes
prefix = 0 ∷ 1 ∷ 65 ∷ []

abbrev empty : Bucket MemoryStorage
empty = record { storage = record { entries = [] }; prefix = prefix }

empty-IsValid : memory_storage-IsStorage.IsValid empty.storage
unfolding memory_storage-IsStorage
empty-IsValid = record { sorted = tt }

-- After the value 2 is saved at the key 7.
abbrev with_two : Bucket MemoryStorage
with_two = record {
  storage = record { entries = (0 ∷ 1 ∷ 65 ∷ 7 ∷ [], 1 ∷ 1 ∷ 0 ∷ []) ∷ [] };
  prefix = prefix;
}

with_two-IsValid : memory_storage-IsStorage.IsValid with_two.storage
unfolding memory_storage-IsStorage
with_two-IsValid = record { sorted = (tt, tt) }

load-save_example :
    (Bucket.load memory_storage codec with_two (7 ∷ []) ≡ ok 2)
    × (Bucket.may_load memory_storage codec with_two (8 ∷ [])
        ≡ Bucket.may_load memory_storage codec empty (8 ∷ []))
unfolding Bucket.save memory_storage Memory.set BTreeMap.insert
load-save_example =
    load-save memory_storage-IsStorage codec-IsSerde empty with_two (7 ∷ []) (8 ∷ []) 2
      empty-IsValid refl (λ e. cc)

-- One more than the value, or 2 for no value.
abbrev bump : Option ℕ → Call StdError ℕ
bump none = success 2
bump (some n) = success (n + 1)

update_lem_example :
    (old : Option ℕ) × (Bucket.may_load memory_storage codec empty (7 ∷ []) ≡ ok old)
    × (bump old ≡ success 2)
    × (Bucket.load memory_storage codec with_two (7 ∷ []) ≡ ok 2)
unfolding Bucket.update Bucket.may_load Bucket.save memory_storage Memory.get Memory.set
    BTreeMap.get BTreeMap.insert
update_lem_example =
    update_lem memory_storage-IsStorage codec-IsSerde (λ e. e) empty with_two (7 ∷ []) bump 2
      empty-IsValid refl

abbrev unset : Singleton MemoryStorage
unset = record { storage = record { entries = [] }; key = prefix }

abbrev two : Singleton MemoryStorage
two = record { storage = record { entries = (prefix, 1 ∷ 1 ∷ 0 ∷ []) ∷ [] }; key = prefix }

two-IsValid : memory_storage-IsStorage.IsValid two.storage
unfolding memory_storage-IsStorage
two-IsValid = record { sorted = (tt, tt) }

total : (n : ℕ) → n < 2 ^ 64 → (b : Bytes) × (codec.to_vec n ≡ ok b)
total n h = (unary n, refl)

after_calls_count_example :
    (seq' : Singleton MemoryStorage) × (after_calls memory_storage codec 5 two ≡ success seq')
    × memory_storage-IsStorage.IsValid seq'.storage
    × (currval memory_storage codec seq' ≡ ok 7)
unfolding currval memory_storage Memory.get BTreeMap.get cmp Singleton.may_load
after_calls_count_example =
    after_calls_count memory_storage-IsStorage codec-IsSerde total 5 2 two two-IsValid refl
      (omega arith)
