-- ===== src/Vm/Imports.antt =====
-- packages/vm/src/imports.rs: the imports that a contract calls for its storage and for the
-- querier, and limits of the regions. Its children Iterators, Addresses and Signatures have the others,
-- but for the import for debugging, which only prints.
pub mod Storage
pub mod Signatures
pub mod Iterators
pub mod Addresses
use cosmwasm.Base.{
  ℕ, ◌+◌, ◌*◌, Option, none, some, List, [], ◌∷◌, Bool, true, false, Result, ok, err, Outcome,
  returns, panics, length, ◌==◌, if◌then◌else◌, ltb, ◌^◌, ◌%◌, ◌/◌,
}
use cosmwasm.Base.Call.{Call, success, failure, panic}
use cosmwasm.Bytes.{Bytes}
use cosmwasm.Sections.{to_u32, decode_sections}
use cosmwasm.Vm.Errors.{
  VmError, BackendError, write_access_denied, zero_address, conversion_err, from_backend,
}
use cosmwasm.Vm.Gas.{GasInfo, GasConfig, with_cost}
use cosmwasm.Vm.Environment.{
  Environment, Action, Host, pure, fail, lift, ◌>>=◌, ◌>>◌, expect, with_wasm_instance,
  with_storage_from_context, with_querier_from_context, call_function1, get_gas_left,
  process_gas_info,
}
use cosmwasm.Vm.Crypto.{
  CryptoError, secp256k1_verify_code, ed25519_verify_code, ed25519_batch_verify_code,
  recover_pubkey_code, code, invalid_recovery_param, to_high_half, to_low_half,
}

abbrev pub max_length_db_key : ℕ
max_length_db_key = 64 * 1024

abbrev pub max_length_db_value : ℕ
max_length_db_value = 128 * 1024

abbrev pub max_length_query_chain_request : ℕ
max_length_query_chain_request = 64 * 1024

abbrev pub max_length_ed25519_signature : ℕ
max_length_ed25519_signature = 64

abbrev pub max_length_ed25519_message : ℕ
max_length_ed25519_message = 128 * 1024

abbrev pub max_count_ed25519_batch : ℕ
max_count_ed25519_batch = 256

-- Of packages/crypto/src: lengths of a hash, a signature and a public key.
abbrev pub message_hash_max_len : ℕ
message_hash_max_len = 32

abbrev pub ecdsa_signature_len : ℕ
ecdsa_signature_len = 64

abbrev pub ecdsa_pubkey_max_len : ℕ
ecdsa_pubkey_max_len = 65

abbrev pub eddsa_pubkey_len : ℕ
eddsa_pubkey_len = 32

module _ {W S Q : Type 0} where
  abbrev pub of_backend : {A : Type 0} → Result BackendError A → Action W S Q A
  of_backend (ok a) = pure a
  of_backend (err e) = fail (from_backend e)

  abbrev of_conversion : {A : Type 0} → ℕ → Option A → Action W S Q A
  of_conversion input none = fail (conversion_err input)
  of_conversion input (some a) = pure a

  abbrev pub of_outcome : {A : Type 0} → Outcome A → Action W S Q A
  of_outcome (returns a) e = (success a, e)
  of_outcome panics e = (panic, e)

  abbrev read_environment : Action W S Q (Environment W S Q)
  read_environment e = (success e, e)

  -- `to_u32(input.len())?`
  abbrev length_u32 : Bytes → Action W S Q ℕ
  length_u32 input =
      if ltb (length input) (2 ^ 32)
      then pure (length input)
      else fail (conversion_err (length input))

module _ {W S Q : Type 0} (host : Host W S Q) where
  -- `env.memory()` panics without an instance; then the region is read.
  unfoldable pub read_region : ℕ → ℕ → Action W S Q Bytes
  read_region ptr max_length e = elim (e.wasm_instance) [
    | none ↦ (panic, e)
    | some w ↦ lift (host.read_region w ptr max_length) e
  ]

  unfoldable pub write_region : ℕ → Bytes → Action W S Q (Unit {0})
  write_region ptr bytes e = elim (e.wasm_instance) [
    | none ↦ (panic, e)
    | some w ↦ elim (host.write_region w ptr bytes) [
      | ok w' ↦ (success tt, record e { wasm_instance = some w' })
      | err x ↦ (failure x, e)
    ]
  ]

  unfoldable pub write_to_contract : Bytes → Action W S Q ℕ
  unfolding write_region call_function1
  write_to_contract input = do
    out_size ← length_u32 input
    result ← call_function1 host "allocate" (out_size ∷ [])
    target_ptr ← of_conversion out_size result
    if target_ptr == 0
        then fail zero_address
        else (write_region target_ptr input >> pure target_ptr)

  unfoldable pub do_db_read : ℕ → Action W S Q ℕ
  unfolding read_region with_storage_from_context process_gas_info write_to_contract
  do_db_read key_ptr = do
    key ← read_region key_ptr max_length_db_key
    answer ← with_storage_from_context (λ store. (ok (host.get store key), store))
    process_gas_info host answer.1
    value ← of_backend answer.0
    elim value [ none ↦ pure 0 | some bytes ↦ write_to_contract bytes ]

  unfoldable pub do_db_write : ℕ → ℕ → Action W S Q (Unit {0})
  unfolding read_region with_storage_from_context process_gas_info
  do_db_write key_ptr value_ptr = do
    env ← read_environment
    if env.storage_readonly then fail write_access_denied else (do
      key ← read_region key_ptr max_length_db_key
      value ← read_region value_ptr max_length_db_value
      answer ←
          with_storage_from_context (λ store. let (a, s) = host.set store key value in (ok a, s))
      process_gas_info host answer.1
      of_backend answer.0)

  unfoldable pub do_db_remove : ℕ → Action W S Q (Unit {0})
  unfolding read_region with_storage_from_context process_gas_info
  do_db_remove key_ptr = do
    env ← read_environment
    if env.storage_readonly then fail write_access_denied else (do
      key ← read_region key_ptr max_length_db_key
      answer ← with_storage_from_context (λ store. let (a, s) = host.remove store key in (ok a, s))
      process_gas_info host answer.1
      of_backend answer.0)

  -- The querier's answer comes serialized.
  unfoldable pub do_query_chain : ℕ → Action W S Q ℕ
  unfolding read_region with_querier_from_context process_gas_info write_to_contract get_gas_left
  do_query_chain request_ptr = do
    request ← read_region request_ptr max_length_query_chain_request
    gas_remaining ← get_gas_left host
    answer ←
        with_querier_from_context
          (λ querier. let (a, q) = host.query_raw querier request gas_remaining in (ok a, q))
    process_gas_info host answer.1
    serialized ← of_backend answer.0
    write_to_contract serialized
