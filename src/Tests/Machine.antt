-- ===== src/Tests/Machine.antt =====
-- The theorems on the VM with a host that meters by a number: five units are left, and a call of
-- the host takes three and four more externally.
use cosmwasm.Base.{
  ℕ, ◌+◌, ◌<◌, Outcome, returns, panics, ◌⊎◌, inl, inr, ◌^◌, ◌≡◌, refl, none, some, [], ◌∷◌, ok,
  Bool, true, false, arith, ◌==◌, if◌then◌else◌,
}
use cosmwasm.Base.Call.{Call, success, failure, panic}
use cosmwasm.Bytes.{Bytes, to_be_bytes32}
use cosmwasm.Sections.{decode_sections}
use cosmwasm.Memory
use cosmwasm.Memory.{MemoryStorage}
use cosmwasm.BTreeMap
use cosmwasm.Vm.Errors.{VmError, gas_depletion}
use cosmwasm.Vm.Gas.{GasInfo, default_config, with_cost}
use cosmwasm.Vm.Environment.{Environment, Host, process_gas_info}
use cosmwasm.Vm.Environment.Accounting.{
  process_gas_info_conserves, process_gas_info_wraps, charged, IsMetered,
}
use cosmwasm.Vm.Crypto.{ed25519_batch_verify_code}
use cosmwasm.Vm.Imports.{do_db_write}
use cosmwasm.Vm.Imports.Storage.{Wrote, do_db_write-Wrote}
use cosmwasm.Vm.Imports.Signatures.{Verifier, batch_cost, do_ed25519_batch_verify}
use cosmwasm.Vm.Imports.Signatures.Batch.{
  do_ed25519_batch_verify_panics, price, Reports, do_ed25519_batch_verify-Reports,
}
use cosmwasm.Tests.Fixtures.{host, host-IsMetered, cost}

-- A running contract with the given gas left, of a limit of 100 units, and whether it may write.
abbrev running : ℕ → Bool → Environment ℕ MemoryStorage (Unit {0})
running gas readonly = record {
  gas_config = default_config;
  gas_state = record { gas_limit = 100; externally_used_gas = 20 };
  storage = some (record { entries = [] });
  storage_readonly = readonly;
  querier = none;
  wasm_instance = some gas;
}

process_gas_info_conserves_example :
    (e' : Environment ℕ MemoryStorage (Unit {0})) × (w' : ℕ) × (e'.wasm_instance ≡ some w')
    × (e'.gas_state.gas_limit ≡ 100)
    × (e'.storage ≡ some (record { entries = [] }))
    × (e'.querier ≡ none)
    × (((process_gas_info host cost (running 50 false) ≡ (success tt, e'))
          × (w' + e'.gas_state.externally_used_gas + 3 ≡ 70))
        ⊎ ((process_gas_info host cost (running 50 false) ≡ (failure gas_depletion, e'))
            × (50 < 7)
            × (w' ≡ 0)))
process_gas_info_conserves_example =
    process_gas_info_conserves host-IsMetered (running 50 false) 50 cost refl (omega arith)
      (omega arith)

abbrev huge : GasInfo
huge = record { cost = 2 ^ 63; externally_used = 2 ^ 63 }

process_gas_info_wraps_example :
    process_gas_info host huge (running 5 false)
    ≡ (success tt, charged host-IsMetered (running 5 false) 5 huge refl)
process_gas_info_wraps_example =
    process_gas_info_wraps host-IsMetered (running 5 false) 5 huge refl (omega arith) (omega arith)
      (omega arith) (omega arith) (omega arith)

abbrev stored : MemoryStorage
stored = record { entries = (1 ∷ [], 2 ∷ []) ∷ [] }

after_write : Environment ℕ MemoryStorage (Unit {0})
after_write = record {
  gas_config = default_config;
  gas_state = record { gas_limit = 100; externally_used_gas = 24 };
  storage = some stored;
  storage_readonly = false;
  querier = none;
  wasm_instance = some 43;
}

Outcome-cases : (o : Outcome MemoryStorage) → ((s : MemoryStorage) × (o ≡ returns s)) ⊎ (o ≡ panics)
Outcome-cases (returns s) = inl (s, refl)
Outcome-cases panics = inr refl

small :
    (s : MemoryStorage) (k v : Bytes)
    → (host.set s k v).0.1.externally_used + (host.set s k v).0.1.cost < 2 ^ 64
small s k v = elim (Outcome-cases (Memory.set s k v)) [
  | inl (s', e) ↦ rw (host, e) (omega arith)
  | inr e ↦ rw (host, e) (omega arith)
]

do_db_write-Wrote_example : Wrote host 1 2 (running 50 false) after_write
unfolding after_write do_db_write Memory.set BTreeMap.insert
do_db_write-Wrote_example =
    do_db_write-Wrote host-IsMetered (running 50 false) after_write 1 2 small refl

-- Every signature is valid.
abbrev accepting : Verifier
accepting = record {
  secp256k1_verify = λ h s k. ok true;
  secp256k1_recover_pubkey = λ h s p. ok (4 ∷ []);
  ed25519_verify = λ m s k. ok true;
  ed25519_batch_verify = λ m s k. ok true;
}

-- The region at address 1 has messages of a wrong length, the others have one section each.
abbrev reading : Host ℕ MemoryStorage (Unit {0})
reading = record host {
  read_region =
      λ w ptr max. ok (if ptr == 1 then 9 ∷ 0 ∷ 0 ∷ 0 ∷ 2 ∷ [] else 9 ∷ 0 ∷ 0 ∷ 0 ∷ 1 ∷ []);
}

do_ed25519_batch_verify_panics_example :
    do_ed25519_batch_verify reading accepting 1 2 3 (running 5 false) ≡ (panic, running 5 false)
unfolding to_be_bytes32
do_ed25519_batch_verify_panics_example =
    do_ed25519_batch_verify_panics reading accepting (running 5 false) 5 1 2 3
      (9 ∷ 0 ∷ 0 ∷ 0 ∷ 2 ∷ []) (9 ∷ 0 ∷ 0 ∷ 0 ∷ 1 ∷ []) (9 ∷ 0 ∷ 0 ∷ 0 ∷ 1 ∷ []) refl refl refl refl
      (9 ∷ []) 2 (omega arith) (omega arith) refl

reading-IsMetered : IsMetered reading
reading-IsMetered = record { read_back = λ w n. refl }

abbrev paid : Environment ℕ MemoryStorage (Unit {0})
paid = record (running 70000000000 false) { wasm_instance = some 7000000000 }

do_ed25519_batch_verify-Reports_example :
    (w' : ℕ) × (paid.wasm_instance ≡ some w')
    × ((Path (Call VmError ℕ) (success 0) (failure gas_depletion)
          × (70000000000 < price default_config ((9 ∷ []) ∷ []) ((9 ∷ []) ∷ []))
          × (w' ≡ 0))
        ⊎ (Reports (ok true) (success 0)
            × (w' + price default_config ((9 ∷ []) ∷ []) ((9 ∷ []) ∷ []) ≡ 70000000000)))
unfolding decode_sections batch_cost default_config with_cost do_ed25519_batch_verify
    ed25519_batch_verify_code
do_ed25519_batch_verify-Reports_example =
    do_ed25519_batch_verify-Reports reading accepting (running 70000000000 false) 70000000000 2 3 4
      (9 ∷ 0 ∷ 0 ∷ 0 ∷ 1 ∷ []) (9 ∷ 0 ∷ 0 ∷ 0 ∷ 1 ∷ []) (9 ∷ 0 ∷ 0 ∷ 0 ∷ 1 ∷ []) refl refl refl refl
      reading-IsMetered ((9 ∷ []) ∷ []) ((9 ∷ []) ∷ []) ((9 ∷ []) ∷ []) refl refl refl (omega arith)
      paid (success 0) refl
