-- ===== src/Vm/Testing.antt =====
-- packages/vm/src/testing/storage.rs: the storage that tests of contracts run on, with iterators
-- that hold what is left to give.
pub mod View
pub mod Iterate
pub mod Api
use Prim.Native.Nat.Ordering.{gt}
use cosmwasm.Base.{
  ℕ, zero, suc, ◌+◌, ◌%◌, ◌^◌, Bool, true, false, Option, none, some, List, [], ◌∷◌, ◌++◌, length,
  drop, Outcome, returns, panics, Result, ok, err, ltb, ◌==◌, if◌then◌else◌,
}
use cosmwasm.Bytes.{Bytes, cmp}
use cosmwasm.BTreeMap
use cosmwasm.BTreeMap.{Record, BTreeMap}
use cosmwasm.Storage.{Order, in_order}
use cosmwasm.Vm.Errors.{BackendError, iterator_does_not_exist}
use cosmwasm.Vm.Gas.{GasInfo, with_cost, with_externally_used, free, add_assign}

abbrev pub gas_cost_last_iteration : ℕ
gas_cost_last_iteration = 37

abbrev pub gas_cost_range : ℕ
gas_cost_range = 11

-- `data` and `position`
pub record Iter : Type 0 where
  pub records : List Record
  pub position : ℕ

-- The `HashMap` of the iterators is the list of its entries.
pub record MockStorage : Type 0 where
  pub entries : BTreeMap
  pub iterators : List (ℕ × Iter)

unfoldable pub new : MockStorage
new = record { entries = []; iterators = [] }

-- An answer of the backend, the gas that it took, and the storage after it.
abbrev pub Answer : Type 0 → Type 0
Answer A = (Result BackendError A × GasInfo) × MockStorage

unfoldable pub find : ℕ → List (ℕ × Iter) → Option Iter
find id [] = none
find id ((i, it) ∷ rest) = if i == id then some it else find id rest

-- `HashMap::insert`
unfoldable pub put : ℕ → Iter → List (ℕ × Iter) → List (ℕ × Iter)
put id new_iter [] = (id, new_iter) ∷ []
put id new_iter ((i, it) ∷ rest) =
    if i == id then (id, new_iter) ∷ rest else (i, it) ∷ put id new_iter rest

unfoldable pub get : MockStorage → Bytes → Result BackendError (Option Bytes) × GasInfo
unfolding with_externally_used
get s key = (ok (BTreeMap.get key s.entries), with_externally_used (length key))

unfoldable pub set : MockStorage → Bytes → Bytes → Answer (Unit {0})
unfolding with_externally_used
set s key value = (
  (ok tt, with_externally_used (length key + length value)),
  record s { entries = BTreeMap.insert key value s.entries },
)

unfoldable pub remove : MockStorage → Bytes → Answer (Unit {0})
unfolding with_externally_used
remove s key = (
  (ok tt, with_externally_used (length key)),
  record s { entries = BTreeMap.erase key s.entries },
)

-- `start > end`, where both are given.
is_inverted : Option Bytes → Option Bytes → Bool
is_inverted (some start) (some end) = elim (cmp start end) [ gt ↦ true | _ ↦ false ]
is_inverted _ _ = false

-- What a new iterator will give.
unfoldable pub values : MockStorage → Option Bytes → Option Bytes → Order → List Record
unfolding is_inverted
values s start end order =
    if is_inverted start end then [] else in_order order (BTreeMap.range start end s.entries)

-- The number of iterators must be a `u32`; the next one wraps around.
unfoldable pub scan : MockStorage → Option Bytes → Option Bytes → Order → Outcome (Answer ℕ)
unfolding values put with_externally_used
scan s start end order =
    let last_id = length s.iterators in
    let new_id = (last_id + 1) % 2 ^ 32 in
    let iter : Iter = record { records = values s start end order; position = 0 } in
    if ltb last_id (2 ^ 32)
    then returns (
      (ok new_id, with_externally_used gas_cost_range),
      record s { iterators = put new_id iter s.iterators },
    )
    else panics

-- The record at the position, and what is charged for it.
unfoldable pub next_of : ℕ → Iter → MockStorage → Answer (Option Record)
unfolding put with_cost with_externally_used
next_of iterator_id iterator s = elim (drop iterator.position iterator.records) [
  | item ∷ rest ↦ (
    (ok (some item), with_cost (length item.0 + length item.1)),
    record s {
      iterators =
          put iterator_id (record iterator { position = suc iterator.position }) s.iterators;
    },
  )
  | [] ↦ ((ok none, with_externally_used gas_cost_last_iteration), s)
]

unfoldable pub next : MockStorage → ℕ → Answer (Option Record)
unfolding find next_of free
next s iterator_id = elim (find iterator_id s.iterators) [
  | none ↦ ((err (iterator_does_not_exist iterator_id), free), s)
  | some iterator ↦ next_of iterator_id iterator s
]

-- The loop of `all`, on fuel, with the records and the gas so far.
unfoldable pub all_from :
    ℕ → MockStorage → ℕ → List Record → GasInfo → Outcome (Answer (List Record))
unfolding next add_assign
all_from zero s iterator_id out total = panics
all_from (suc fuel) s iterator_id out total =
    let answer = next s iterator_id in
    let total' = add_assign total answer.0.1 in
    elim answer.0.0 [
      | err e ↦ returns ((err e, total'), answer.1)
      | ok none ↦ returns ((ok out, total'), answer.1)
      | ok (some v) ↦ all_from fuel answer.1 iterator_id (out ++ (v ∷ [])) total'
    ]

unfoldable pub all : ℕ → MockStorage → ℕ → Outcome (Answer (List Record))
unfolding all_from free
all fuel s iterator_id = all_from fuel s iterator_id [] free
