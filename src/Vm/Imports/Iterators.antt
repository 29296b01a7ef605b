-- ===== src/Vm/Imports/Iterators.antt =====
-- packages/vm/src/imports.rs: the imports for iterators over the storage.
pub mod Next
pub mod Scan
use cosmwasm.Base.{ℕ, Option, none, some, List, [], ◌∷◌, Result, ok, err, ◌==◌, if◌then◌else◌}
use cosmwasm.Base.Call.{success, failure, panic}
use cosmwasm.Bytes.{Bytes}
use cosmwasm.BTreeMap.{Record}
use cosmwasm.Storage.{Order, order_of_i32}
use cosmwasm.Sections.{vm_encode_sections}
use cosmwasm.Vm.Errors.{VmError, BackendError, invalid_order, conversion_err}
use cosmwasm.Vm.Gas.{GasInfo}
use cosmwasm.Vm.Environment.{
  Action, Host, pure, fail, ◌>>=◌, ◌>>◌, with_storage_from_context, process_gas_info,
}
use cosmwasm.Vm.Imports.{read_region, write_to_contract, max_length_db_key, of_backend}

-- What the backend's storage gives besides reads and writes.
pub record Iterators (S : Type 0) : Type 0 where
  pub scan : S → Option Bytes → Option Bytes → Order → (Result BackendError ℕ × GasInfo) × S
  pub next : S → ℕ → (Result BackendError (Option Record) × GasInfo) × S

-- `unwrap_or_else` of two empty strings.
abbrev pub or_empty : Option Record → List Bytes
or_empty none = [] ∷ [] ∷ []
or_empty (some (key, value)) = key ∷ value ∷ []

module _ {W S Q : Type 0} (host : Host W S Q) (iterators : Iterators S) where
  unfoldable pub maybe_read_region : ℕ → ℕ → Action W S Q (Option Bytes)
  unfolding read_region
  maybe_read_region ptr max_length =
      if ptr == 0
      then pure none
      else (read_region host ptr max_length >>= λ bytes. pure (some bytes))

  abbrev pub read_order : ℕ → Action W S Q Order
  read_order order = elim (order_of_i32 order) [
    | ok o ↦ pure o
    | err x ↦ fail (invalid_order order)
  ]

  unfoldable pub do_db_scan : ℕ → ℕ → ℕ → Action W S Q ℕ
  unfolding maybe_read_region order_of_i32 with_storage_from_context process_gas_info
  do_db_scan start_ptr end_ptr order = do
    start ← maybe_read_region start_ptr max_length_db_key
    end ← maybe_read_region end_ptr max_length_db_key
    order' ← read_order order
    answer ←
        with_storage_from_context
          (λ store. let (a, s) = iterators.scan store start end order' in (ok a, s))
    process_gas_info host answer.1
    of_backend answer.0

  abbrev pub encoded : List Bytes → Action W S Q Bytes
  encoded sections = elim (vm_encode_sections sections) [
    | ok data' ↦ pure data'
    | err x ↦ fail (conversion_err x.input)
  ]

  unfoldable pub do_db_next : ℕ → Action W S Q ℕ
  unfolding with_storage_from_context process_gas_info write_to_contract vm_encode_sections
  do_db_next iterator_id = do
    answer ←
        with_storage_from_context
          (λ store. let (a, s) = iterators.next store iterator_id in (ok a, s))
    process_gas_info host answer.1
    item ← of_backend answer.0
    out_data ← encoded (or_empty item)
    write_to_contract host out_data
