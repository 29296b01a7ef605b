-- ===== src/Vm/Imports/Signatures.antt =====
-- packages/vm/src/imports.rs: the imports that verify signatures.
pub mod Batch
use cosmwasm.Base.{
  ℕ, ◌+◌, ◌*◌, ◌%◌, ◌^◌, List, Bool, true, false, Result, ok, err, Outcome, length, ◌==◌, ltb,
  if◌then◌else◌,
}
use cosmwasm.Base.Call.{Call, success, failure, panic}
use cosmwasm.Bytes.{Bytes}
use cosmwasm.Sections.{decode_sections}
use cosmwasm.Vm.Gas.{GasInfo, GasConfig, with_cost}
use cosmwasm.Vm.Environment.{Environment, Action, Host, pure, ◌>>=◌, ◌>>◌, process_gas_info}
use cosmwasm.Vm.Crypto.{
  CryptoError, invalid_recovery_param, code, secp256k1_verify_code, ed25519_verify_code,
  ed25519_batch_verify_code, recover_pubkey_code, to_high_half, to_low_half,
}
use cosmwasm.Vm.Imports.{
  read_region, write_to_contract, of_outcome, read_environment, message_hash_max_len,
  ecdsa_signature_len, ecdsa_pubkey_max_len, eddsa_pubkey_len, max_length_ed25519_message,
  max_length_ed25519_signature, max_count_ed25519_batch,
}

-- The functions of the package cosmwasm-crypto that the imports call.
pub record Verifier : Type 0 where
  pub secp256k1_verify : Bytes → Bytes → Bytes → Result CryptoError Bool
  pub secp256k1_recover_pubkey : Bytes → Bytes → ℕ → Result CryptoError Bytes
  pub ed25519_verify : Bytes → Bytes → Bytes → Result CryptoError Bool
  pub ed25519_batch_verify : List Bytes → List Bytes → List Bytes → Result CryptoError Bool

-- The price of a batch: per signature, less for one public key, and one verification at least.
unfoldable pub batch_cost : GasConfig → ℕ → ℕ → ℕ
batch_cost config signatures public_keys =
    let one =
      if public_keys == 1
      then config.ed25519_batch_verify_one_pubkey_cost
      else config.ed25519_batch_verify_cost in
    let gas_cost = one * signatures % 2 ^ 64 in
    if ltb gas_cost config.ed25519_verify_cost then config.ed25519_verify_cost else gas_cost

module _ {W S Q : Type 0} (host : Host W S Q) (v : Verifier) where
  unfoldable pub do_secp256k1_verify : ℕ → ℕ → ℕ → Action W S Q ℕ
  unfolding read_region process_gas_info with_cost secp256k1_verify_code
  do_secp256k1_verify hash_ptr signature_ptr pubkey_ptr = do
    hash ← read_region host hash_ptr message_hash_max_len
    signature ← read_region host signature_ptr ecdsa_signature_len
    pubkey ← read_region host pubkey_ptr ecdsa_pubkey_max_len
    env ← read_environment
    process_gas_info host (with_cost env.gas_config.secp256k1_verify_cost)
    of_outcome (secp256k1_verify_code (v.secp256k1_verify hash signature pubkey))

  unfoldable pub do_secp256k1_recover_pubkey : ℕ → ℕ → ℕ → Action W S Q ℕ
  unfolding read_region process_gas_info with_cost recover_pubkey_code write_to_contract code
      to_high_half to_low_half
  do_secp256k1_recover_pubkey hash_ptr signature_ptr recover_param = do
    hash ← read_region host hash_ptr message_hash_max_len
    signature ← read_region host signature_ptr ecdsa_signature_len
    env ← read_environment
    if ltb recover_param (2 ^ 8)
        then (do
          process_gas_info host (with_cost env.gas_config.secp256k1_recover_pubkey_cost)
          elim (v.secp256k1_recover_pubkey hash signature recover_param) [
            | ok pubkey ↦
                write_to_contract host pubkey >>= λ pubkey_ptr. pure (to_low_half pubkey_ptr)
            | err e ↦ of_outcome (recover_pubkey_code e) >>= λ n. pure (to_high_half n)
          ])
        else pure (code invalid_recovery_param * 2 ^ 32)

  unfoldable pub do_ed25519_verify : ℕ → ℕ → ℕ → Action W S Q ℕ
  unfolding read_region process_gas_info with_cost ed25519_verify_code
  do_ed25519_verify message_ptr signature_ptr pubkey_ptr = do
    message ← read_region host message_ptr max_length_ed25519_message
    signature ← read_region host signature_ptr max_length_ed25519_signature
    pubkey ← read_region host pubkey_ptr eddsa_pubkey_len
    env ← read_environment
    process_gas_info host (with_cost env.gas_config.ed25519_verify_cost)
    of_outcome (ed25519_verify_code (v.ed25519_verify message signature pubkey))

  unfoldable pub do_ed25519_batch_verify : ℕ → ℕ → ℕ → Action W S Q ℕ
  unfolding read_region process_gas_info with_cost ed25519_batch_verify_code batch_cost
      decode_sections
  do_ed25519_batch_verify messages_ptr signatures_ptr public_keys_ptr = do
    messages_data ←
        read_region host messages_ptr ((max_length_ed25519_message + 4) * max_count_ed25519_batch)
    signatures_data ←
        read_region host signatures_ptr
          ((max_length_ed25519_signature + 4) * max_count_ed25519_batch)
    public_keys_data ←
        read_region host public_keys_ptr ((eddsa_pubkey_len + 4) * max_count_ed25519_batch)
    messages ← of_outcome (decode_sections messages_data)
    signatures ← of_outcome (decode_sections signatures_data)
    public_keys ← of_outcome (decode_sections public_keys_data)
    env ← read_environment
    process_gas_info host
        (with_cost (batch_cost env.gas_config (length signatures) (length public_keys)))
    of_outcome (ed25519_batch_verify_code (v.ed25519_batch_verify messages signatures public_keys))
