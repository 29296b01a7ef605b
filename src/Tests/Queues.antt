-- ===== src/Tests/Queues.antt =====
-- The theorems on the contract queue, over the memory storage and a codec for its items.
use cosmwasm.Base.{
  zero, suc, ◌≡◌, ◌≢◌, refl, none, some, List, [], ◌∷◌, ok, err, and_then, returns, arith,
}
use cosmwasm.Base.Call.{success, run}
use cosmwasm.Bytes.{Bytes, cmp}
use cosmwasm.Errors.{StdResult, not_found}
use cosmwasm.Serde.{Serde, IsSerde}
use cosmwasm.Memory.{MemoryStorage, memory_storage, memory_storage-IsStorage}
use cosmwasm.Queue.Int32.{ℤ, pos, negsuc}
use cosmwasm.Queue.Items.{Item, sum_from, query_list}
use cosmwasm.Queue.{
  ExecuteMsg, enqueue_value, dequeue_value, migrate, query_count, query_sum, query_reducer,
}
use cosmwasm.Queue.Fifo.{Fifo, answers, enqueued}
use cosmwasm.Queue.Refine.{Holds}
use cosmwasm.Queue.History.{run_queue, run_all, Follows, run_refines, run_is_fifo}
use cosmwasm.Queue.Migrate.{migrate_lem}
use cosmwasm.Queue.Queries.{counters, queries_lem, query_list_lem}
use cosmwasm.Tests.Fixtures.{unary, from_unary, from_unary-unary}

-- The sign, and a number in base one.
abbrev encode : ℤ → Bytes
encode (pos n) = 0 ∷ unary n
encode (negsuc n) = 1 ∷ unary n

abbrev decode : Bytes → StdResult Item
decode [] = err (not_found "Item")
decode (zero ∷ rest) = and_then (from_unary rest) (λ n. ok (record { value = pos n }))
decode (suc b ∷ rest) = and_then (from_unary rest) (λ n. ok (record { value = negsuc n }))

abbrev item_codec : Serde Item
item_codec = record { type_name = "Item"; to_vec = λ i. ok (encode i.value); from_slice = decode }

decode-encode : (v : ℤ) → decode (encode v) ≡ ok (record { value = v })
decode-encode (pos n) = rw (from_unary-unary n) refl
decode-encode (negsuc n) = rw (from_unary-unary n) refl

encode-nonempty : (v : ℤ) → encode v ≢ []
encode-nonempty (pos n) = λ e. cc
encode-nonempty (negsuc n) = λ e. cc

item_codec-IsSerde : IsSerde item_codec
item_codec-IsSerde = record {
  read_back = λ t b e. cc (decode-encode t.value);
  nonempty = λ t b e n. encode-nonempty t.value (cc);
}

-- A queue of 3 and -1, from the key 31 on.
abbrev two : Fifo
two = record { first = 31; values = pos 3 ∷ negsuc 0 ∷ [] }

abbrev two_stored : MemoryStorage
two_stored = record { entries = (31 ∷ [], encode (pos 3)) ∷ (32 ∷ [], encode (negsuc 0)) ∷ [] }

abbrev HoldsItems : MemoryStorage → Fifo → Type 0
HoldsItems =
    Holds memory_storage memory_storage-IsStorage item_codec item_codec-IsSerde encode (λ v. refl)

two-Holds : HoldsItems two_stored two
unfolding memory_storage-IsStorage cmp
two-Holds = record {
  valid = record { sorted = ((refl, tt), (tt, tt)) };
  view = refl;
  bound = omega arith;
}

abbrev calls : List ExecuteMsg
calls = dequeue_value ∷ enqueue_value (pos 5) ∷ dequeue_value ∷ []

run_refines_example :
    Follows memory_storage memory_storage-IsStorage item_codec item_codec-IsSerde encode
      (λ v. refl)
      (run_all memory_storage item_codec calls two_stored)
      (run_queue calls two)
run_refines_example =
    run_refines memory_storage memory_storage-IsStorage item_codec item_codec-IsSerde encode
      (λ v. refl) calls two_stored two two-Holds

run_is_fifo_example :
    (s' : MemoryStorage) × (run_all memory_storage item_codec calls two_stored
      ≡ success (some (encode (pos 3)) ∷ none ∷ some (encode (negsuc 0)) ∷ [], s'))
unfolding answers
run_is_fifo_example =
    run_is_fifo memory_storage memory_storage-IsStorage item_codec item_codec-IsSerde encode
      (λ v. refl) calls two_stored two two-Holds (unfold enqueued in omega arith)

migrate_lem_example :
    (s' : MemoryStorage) × (migrate memory_storage item_codec two_stored ≡ success s')
    × HoldsItems s' (record { first = 0; values = pos 100 ∷ pos 101 ∷ pos 102 ∷ [] })
migrate_lem_example =
    migrate_lem memory_storage memory_storage-IsStorage item_codec item_codec-IsSerde encode
      (λ v. refl) two_stored two-Holds.valid

queries_lem_example :
    (query_count memory_storage item_codec two_stored ≡ success 2)
    × (query_sum memory_storage item_codec two_stored
        ≡ run (sum_from (pos 0) (pos 3 ∷ negsuc 0 ∷ [])))
    × (query_reducer memory_storage item_codec two_stored ≡ counters two.values two.values)
queries_lem_example =
    queries_lem memory_storage memory_storage-IsStorage item_codec item_codec-IsSerde encode
      (λ v. refl) two_stored two two-Holds

query_list_lem_example :
    query_list memory_storage two_stored
    ≡ returns (record { empty = []; early = 31 ∷ []; late = 32 ∷ [] })
query_list_lem_example =
    query_list_lem memory_storage memory_storage-IsStorage item_codec item_codec-IsSerde encode
      (λ v. refl) two_stored two two-Holds
