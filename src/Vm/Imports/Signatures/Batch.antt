-- ===== src/Vm/Imports/Signatures/Batch.antt =====
-- What `do_ed25519_batch_verify` does with the regions that a contract hands it.
use cosmwasm.Base.{
  ℕ, ◌+◌, ◌-◌, ◌*◌, ◌^◌, ◌<◌, ◌≡◌, ◌++◌, ◌∷◌, [], ◌∙◌, refl, sym, ap, ◌⊎◌, inl, inr, max, List,
  some, Result, ok, err, Outcome, returns, panics, Bool, true, false, length, leb, leb→le, leb→gt,
  Bool-cases, if◌then◌else◌, arith,
}
use mathlib.Core.Path.{subst}
use cosmwasm.Base.Call.{Call, success, failure, panic, run}
use cosmwasm.Bytes.{Bytes, to_be_bytes32}
use cosmwasm.Sections.{decode_sections}
use cosmwasm.Sections.Malformed.{decoders_panic}
use cosmwasm.Vm.Errors.{VmError, gas_depletion}
use cosmwasm.Vm.Gas.{GasConfig, with_cost}
use cosmwasm.Vm.Environment.{Environment, Host}
use cosmwasm.Vm.Environment.Accounting.{IsMetered, charged, process_gas_info_lem}
use cosmwasm.Vm.Crypto.{
  CryptoError, invalid_hash_format, invalid_signature_format, invalid_pubkey_format,
  invalid_recovery_param, batch_err, generic_err, code, ed25519_batch_verify_code,
}
use cosmwasm.Vm.Imports.{
  read_region, eddsa_pubkey_len, max_length_ed25519_message, max_length_ed25519_signature,
  max_count_ed25519_batch, of_outcome,
}
use cosmwasm.Vm.Imports.Signatures.{Verifier, batch_cost, do_ed25519_batch_verify}

-- The price of a batch: the rate for each signature, and one verification at least.
abbrev rate : GasConfig → List Bytes → ℕ
rate config (k ∷ []) = config.ed25519_batch_verify_one_pubkey_cost
rate config keys = config.ed25519_batch_verify_cost

abbrev pub price : GasConfig → List Bytes → List Bytes → ℕ
price config signatures keys = max config.ed25519_verify_cost (rate config keys * length signatures)

-- What a result says of a verification.
abbrev pub Reports : Result CryptoError Bool → Call VmError ℕ → Type 0
Reports (ok true) r = r ≡ success 0
Reports (ok false) r = r ≡ success 1
Reports (err invalid_hash_format) r = r ≡ panic
Reports (err invalid_recovery_param) r = r ≡ panic
Reports (err invalid_signature_format) r = r ≡ success 4
Reports (err invalid_pubkey_format) r = r ≡ success 5
Reports (err (batch_err msg)) r = r ≡ success 7
Reports (err (generic_err msg)) r = r ≡ success 10

reports : (x : Result CryptoError Bool) → Reports x (run (ed25519_batch_verify_code x))
unfolding ed25519_batch_verify_code code
reports (ok true) = refl
reports (ok false) = refl
reports (err invalid_hash_format) = refl
reports (err invalid_recovery_param) = refl
reports (err invalid_signature_format) = refl
reports (err invalid_pubkey_format) = refl
reports (err (batch_err msg)) = refl
reports (err (generic_err msg)) = refl

batch_cost_lem :
    (config : GasConfig) (signatures keys : List Bytes)
    → price config signatures keys < 2 ^ 64
    → batch_cost config (length signatures) (length keys) ≡ price config signatures keys
unfolding batch_cost
batch_cost_lem config signatures [] h = ground arith
batch_cost_lem config signatures (k ∷ []) h = ground arith
batch_cost_lem config signatures (k ∷ j ∷ keys) h = ground arith

module _ {W S Q : Type 0} where
  verified :
      {b : Bool} (o : Outcome ℕ) (c : Environment W S Q) {r : Call VmError ℕ}
      {e' : Environment W S Q}
      → b ≡ true
      → (if b then of_outcome o c else (failure gas_depletion, c)) ≡ (r, e')
      → (run o ≡ r) × (c ≡ e')
  verified (returns n) c t h = ground arith
  verified panics c t h = ground arith

  depleted :
      {b : Bool} (o : Outcome ℕ) (c : Environment W S Q) {r : Call VmError ℕ}
      {e' : Environment W S Q}
      → b ≡ false
      → (if b then of_outcome o c else (failure gas_depletion, c)) ≡ (r, e')
      → (failure gas_depletion ≡ r) × (c ≡ e')
  depleted o c f h = ground arith

module _ {W S Q : Type 0} (host : Host W S Q) (v : Verifier) (e : Environment W S Q) (w : W)
    (messages_ptr signatures_ptr public_keys_ptr : ℕ)
    (messages_data signatures_data keys_data : Bytes) (running : e.wasm_instance ≡ some w)
    (messages_region : host.read_region w messages_ptr
        ((max_length_ed25519_message + 4) * max_count_ed25519_batch)
      ≡ ok messages_data)
    (signatures_region : host.read_region w signatures_ptr
        ((max_length_ed25519_signature + 4) * max_count_ed25519_batch)
      ≡ ok signatures_data)
    (keys_region : host.read_region w public_keys_ptr
        ((eddsa_pubkey_len + 4) * max_count_ed25519_batch)
      ≡ ok keys_data) where
  -- A contract that runs, whose regions of signatures and keys can be read, and whose region of
  -- messages can be read and ends in the four bytes of a number above the count of the bytes before
  -- them makes the import panic, with no gas charged.
  pub do_ed25519_batch_verify_panics :
      (front : Bytes) (n : ℕ)
      → n < 2 ^ 32
      → length front < n
      → messages_data ≡ front ++ to_be_bytes32 n
      → do_ed25519_batch_verify host v messages_ptr signatures_ptr public_keys_ptr e ≡ (panic, e)
  unfolding do_ed25519_batch_verify read_region
  do_ed25519_batch_verify_panics front n fits beyond h =
      ground (arith, (decoders_panic front n fits beyond).0)

  -- Along the path that decodes.
  do_ed25519_batch_verify_lem :
      (metered : IsMetered host) (messages signatures keys : List Bytes)
      → decode_sections messages_data ≡ returns messages
      → decode_sections signatures_data ≡ returns signatures
      → decode_sections keys_data ≡ returns keys
      → batch_cost e.gas_config (length signatures) (length keys) < 2 ^ 64
      → do_ed25519_batch_verify host v messages_ptr signatures_ptr public_keys_ptr e ≡ (
          if leb (batch_cost e.gas_config (length signatures) (length keys)) (host.gas_left w)
          then of_outcome
              (ed25519_batch_verify_code (v.ed25519_batch_verify messages signatures keys))
              (charged metered e w
                (with_cost (batch_cost e.gas_config (length signatures) (length keys)))
                running)
          else (
            failure gas_depletion,
            charged metered e w
                (with_cost (batch_cost e.gas_config (length signatures) (length keys)))
                running,
          ))
  unfolding do_ed25519_batch_verify read_region with_cost
  do_ed25519_batch_verify_lem metered messages signatures keys hm hs hk small = ground (
    arith,
    process_gas_info_lem metered e w
        (with_cost (batch_cost e.gas_config (length signatures) (length keys))) running,
  )

  -- For a running contract whose three regions can be read and decode, over a host that gives back the
  -- gas that was set, and a price that is a `u64`. The price is that of a single verification, or, if
  -- more, that of the number of signatures, at the lower rate if there is exactly one key. Either less
  -- was left than the price: then the result is a gas depletion and nothing is left. Or what is left and
  -- the price add up to what was left, and the result reports the verification: 0 for valid, 1 for not
  -- valid, the number of the error, or a panic for the two errors that cannot occur.
  pub do_ed25519_batch_verify-Reports :
      (metered : IsMetered host) (messages signatures keys : List Bytes)
      → decode_sections messages_data ≡ returns messages
      → decode_sections signatures_data ≡ returns signatures
      → decode_sections keys_data ≡ returns keys
      → price e.gas_config signatures keys < 2 ^ 64
      → (e' : Environment W S Q) (r : Call VmError ℕ)
      → do_ed25519_batch_verify host v messages_ptr signatures_ptr public_keys_ptr e ≡ (r, e')
      → (w' : W) × (e'.wasm_instance ≡ some w')
        × (((r ≡ failure gas_depletion)
              × (host.gas_left w < price e.gas_config signatures keys)
              × (host.gas_left w' ≡ 0))
            ⊎ (Reports (v.ed25519_batch_verify messages signatures keys) r
                × (host.gas_left w' + price e.gas_config signatures keys ≡ host.gas_left w)))
  unfolding with_cost
  do_ed25519_batch_verify-Reports metered messages signatures keys hm hs hk small e' r h =
      let cost = batch_cost e.gas_config (length signatures) (length keys) in
      let same : cost ≡ price e.gas_config signatures keys =
        batch_cost_lem e.gas_config signatures keys small in
      let run =
        sym (
          do_ed25519_batch_verify_lem metered messages signatures keys hm hs hk
            (omega (arith, same)))
        ∙ h in
      let left = metered.read_back w (host.gas_left w - 0 - cost) in
      elim (Bool-cases (leb cost (host.gas_left w))) [
        | inl t ↦
            let (ran, now) = verified _ _ t run in
            (
              host.set_gas w (host.gas_left w - 0 - cost),
              ap (λ x. x.wasm_instance) (sym now),
              inr (subst (Reports _) ran (reports _), omega (arith, same, left, leb→le _ _ t)),
            )
        | inr f ↦
            let (ran, now) = depleted _ _ f run in
            (
              host.set_gas w (host.gas_left w - 0 - cost),
              ap (λ x. x.wasm_instance) (sym now),
              inl (
                sym ran,
                omega (arith, same, leb→gt _ _ f),
                omega (arith, same, left, leb→gt _ _ f),
              ),
            )
      ]
