-- ===== src/Vm/Imports/Addresses.antt =====
-- packages/vm/src/imports.rs: the imports for addresses. A string is its bytes.
pub mod RoundTrip
use Prim.Native.String.{String}
use cosmwasm.Base.{
  ℕ, ◌*◌, List, [], ◌∷◌, Bool, true, false, not, Result, ok, err, Outcome, if◌then◌else◌,
}
use cosmwasm.Base.Call.{success, failure, panic}
use cosmwasm.Bytes.{Bytes}
use cosmwasm.Utf8.{is_utf8, as_bytes}
use cosmwasm.Vm.Errors.{
  BackendError, from_backend, user_err, unknown, foreign_panic, bad_argument, invalid_utf8,
  out_of_gas, iterator_does_not_exist,
}
use cosmwasm.Vm.Gas.{GasInfo}
use cosmwasm.Vm.Environment.{Action, Host, pure, fail, ◌>>=◌, ◌>>◌, process_gas_info}
use cosmwasm.Vm.Imports.{read_region, write_region, write_to_contract, of_outcome}

-- `BackendApi`, whose calls may panic.
pub record BackendApi : Type 0 where
  pub canonical_address : Bytes → Outcome (Result BackendError Bytes × GasInfo)
  pub human_address : Bytes → Outcome (Result BackendError Bytes × GasInfo)

abbrev pub max_length_canonical_address : ℕ
max_length_canonical_address = 64

abbrev pub max_length_human_address : ℕ
max_length_human_address = 256

abbrev pub is_empty : Bytes → Bool
is_empty [] = true
is_empty (b ∷ bs) = false

module _ {W S Q : Type 0} (host : Host W S Q) (api : BackendApi) where
  -- What an import returns for an answer of the API, given what it does with a value.
  unfoldable pub answer_with : (Bytes → Action W S Q ℕ) → Result BackendError Bytes → Action W S Q ℕ
  unfolding write_to_contract as_bytes
  answer_with done (ok value) = done value
  answer_with done (err (user_err msg)) = write_to_contract host (as_bytes msg)
  answer_with done (err (unknown msg)) = fail (from_backend (unknown msg))
  answer_with done (err foreign_panic) = fail (from_backend foreign_panic)
  answer_with done (err bad_argument) = fail (from_backend bad_argument)
  answer_with done (err invalid_utf8) = fail (from_backend invalid_utf8)
  answer_with done (err out_of_gas) = fail (from_backend out_of_gas)
  answer_with done (err (iterator_does_not_exist id)) =
      fail (from_backend (iterator_does_not_exist id))

  -- The canonical address of a string that the contract gives, and what is done with it.
  unfoldable pub with_canonical : (Bytes → Action W S Q ℕ) → ℕ → Action W S Q ℕ
  unfolding read_region process_gas_info write_to_contract answer_with is_utf8 as_bytes
  with_canonical done source_ptr = do
    source_data ← read_region host source_ptr max_length_human_address
    if is_empty source_data
        then write_to_contract host (as_bytes "Input is empty")
        else if not (is_utf8 source_data)
        then write_to_contract host (as_bytes "Input is not valid UTF-8")
        else (do
          answer ← of_outcome (api.canonical_address source_data)
          process_gas_info host answer.1
          answer_with done answer.0)

  unfoldable pub do_addr_validate : ℕ → Action W S Q ℕ
  unfolding with_canonical
  do_addr_validate source_ptr = with_canonical (λ _. pure 0) source_ptr

  -- `write_region(destination_ptr, …)?` and then 0.
  unfoldable pub write_back : ℕ → Bytes → Action W S Q ℕ
  unfolding write_region
  write_back destination_ptr value = write_region host destination_ptr value >> pure 0

  unfoldable pub do_addr_canonicalize : ℕ → ℕ → Action W S Q ℕ
  unfolding with_canonical write_back
  do_addr_canonicalize source_ptr destination_ptr =
      with_canonical (write_back destination_ptr) source_ptr

  unfoldable pub do_addr_humanize : ℕ → ℕ → Action W S Q ℕ
  unfolding read_region process_gas_info answer_with write_back
  do_addr_humanize source_ptr destination_ptr = do
    canonical ← read_region host source_ptr max_length_canonical_address
    answer ← of_outcome (api.human_address canonical)
    process_gas_info host answer.1
    answer_with (write_back destination_ptr) answer.0
