-- ===== src/Queue.antt =====
-- contracts/queue/src/contract.rs: a queue of integers, one entry of the storage for each, under
-- keys of one byte. The contract is built with overflow checks.
pub mod Int32
pub mod Items
pub mod Fifo
pub mod Keys
pub mod Refine
pub mod History
pub mod Migrate
pub mod Queries
use cosmwasm.Base.{ℕ, ◌%◌, ◌^◌, Option, none, some, List, [], ◌∷◌, length, Outcome}
use cosmwasm.Base.Call.{Call, success, ◌>>=◌, try, run}
use cosmwasm.Bytes.{Bytes}
use cosmwasm.BTreeMap.{Record}
use cosmwasm.Storage.{Storage, ascending, descending}
use cosmwasm.Serde.{Serde}
use cosmwasm.Errors.{StdError}
use cosmwasm.Queue.Int32.{ℤ, pos}
use cosmwasm.Queue.Items.{Item, next, items, new_key, sum_from, sum_above}

pub data ExecuteMsg : Type 0 where
  enqueue_value : ℤ → ExecuteMsg
  dequeue_value : ExecuteMsg

module _ {S : Type 0} (ops : Storage S) (json : Serde Item) where
  unfoldable pub enqueue : ℤ → S → Call StdError S
  unfolding next new_key
  enqueue value s = do
    last_item ← run (next (ops.range s none none descending))
    key ← run (new_key last_item)
    new_value ← try (json.to_vec (record { value = value }))
    run (ops.set s (key ∷ []) new_value)

  unfoldable pub handle_enqueue : ℤ → S → Call StdError (Option Bytes × S)
  unfolding enqueue
  handle_enqueue value s = do s' ← enqueue value s; success (none, s')

  -- The `data` of the response, and the storage.
  unfoldable pub handle_dequeue : S → Call StdError (Option Bytes × S)
  unfolding next
  handle_dequeue s = do
    first ← run (next (ops.range s none none ascending))
    elim first [
      | none ↦ success (none, s)
      | some (key, value) ↦ success (some value, ops.remove s key)
    ]

  unfoldable pub execute : ExecuteMsg → S → Call StdError (Option Bytes × S)
  unfolding handle_enqueue handle_dequeue
  execute (enqueue_value value) s = handle_enqueue value s
  execute dequeue_value s = handle_dequeue s

  -- The loop of `migrate` over the keys.
  unfoldable pub remove_all : List Record → S → S
  remove_all [] s = s
  remove_all ((key, _) ∷ rest) s = remove_all rest (ops.remove s key)

  unfoldable pub migrate : S → Call StdError S
  unfolding items remove_all enqueue
  migrate s = do
    keys ← run (items (ops.range s none none ascending))
    s1 ← enqueue (pos 100) (remove_all keys s)
    s2 ← enqueue (pos 101) s1
    enqueue (pos 102) s2

  unfoldable pub query_count : S → Call StdError ℕ
  unfolding items
  query_count s = do
    rs ← run (items (ops.range s none none ascending))
    success (length rs % 2 ^ 32)

  -- The values of an iterator, up to the first that does not parse.
  unfoldable pub parse_all : List (Outcome Record) → Call StdError (List ℤ)
  parse_all [] = success []
  parse_all (item ∷ rest) = do
    r ← run item
    i ← try (json.from_slice r.1)
    values ← parse_all rest
    success (i.value ∷ values)

  unfoldable pub query_sum : S → Call StdError ℤ
  unfolding parse_all sum_from
  query_sum s = do
    values ← parse_all (ops.range s none none ascending)
    run (sum_from (pos 0) values)

  -- The outer loop of `query_reducer`.
  unfoldable pub reduce : S → List (Outcome Record) → Call StdError (List (ℤ × ℤ))
  unfolding sum_above
  reduce s [] = success []
  reduce s (item ∷ rest) = do
    r ← run item
    i ← try (json.from_slice r.1)
    sum ← run (sum_above json i.value (pos 0) (ops.range s none none ascending))
    counters ← reduce s rest
    success ((i.value, sum) ∷ counters)

  unfoldable pub query_reducer : S → Call StdError (List (ℤ × ℤ))
  unfolding reduce
  query_reducer s = reduce s (ops.range s none none ascending)
