-- ===== src/Vm/Imports/Addresses/RoundTrip.antt =====
-- An address on its way through both imports, over the backend for tests.
use cosmwasm.Base.{
  ℕ, ◌-◌, err, ◌≤◌, ◌≡◌, ◌≢◌, refl, some, true, false, [], ◌∷◌, All, length, ok, arith,
}
use cosmwasm.Base.Call.{Call, success, failure}
use cosmwasm.Bytes.{Bytes}
use cosmwasm.Utf8.{is_utf8}
use cosmwasm.Mock.RoundTrip.{canonical_of}
use cosmwasm.Vm.Errors.{VmError}
use cosmwasm.Vm.Gas.{with_cost}
use cosmwasm.Vm.Environment.{Environment, Host}
use cosmwasm.Vm.Environment.Accounting.{charged, IsMetered, process_gas_info_lem}
use cosmwasm.Vm.Testing.Api.{
  default_api, canonical_address, human_address, gas_cost_canonicalize, gas_cost_humanize,
  human_address-canonical_address,
}
use cosmwasm.Vm.Imports.{write_region}
use cosmwasm.Vm.Imports.Addresses.{
  BackendApi, max_length_human_address, max_length_canonical_address, is_empty, with_canonical,
  answer_with, write_back, do_addr_canonicalize, do_addr_humanize,
}

abbrev pub mock_api : BackendApi
mock_api = record {
  canonical_address = canonical_address default_api;
  human_address = human_address default_api;
}

not_empty : (human : Bytes) → 3 ≤ length human → is_empty human ≡ false
not_empty [] h = absurd (omega arith)
not_empty (b ∷ bs) h = refl

-- The instance pays `cost`, and then the host writes the bytes to the region: 0 with the instance
-- after the write, or the error of the write.
abbrev pub stored :
    {W S Q : Type 0} {host : Host W S Q} (metered : IsMetered host) (e : Environment W S Q) (w : W)
    (cost : ℕ) (running : e.wasm_instance ≡ some w) (ptr : ℕ) (bytes : Bytes)
    → Call VmError ℕ × Environment W S Q
stored {host = host} metered e w cost running ptr bytes =
    let paid = charged metered e w (with_cost cost) running in
    elim (host.write_region (host.set_gas w (host.gas_left w - cost)) ptr bytes) [
      | ok w' ↦ (success 0, record paid { wasm_instance = some w' })
      | err x ↦ (failure x, paid)
    ]

module _ {W S Q : Type 0} {host : Host W S Q} (metered : IsMetered host) (e e' : Environment W S Q)
    (w w' : W) (running : e.wasm_instance ≡ some w) (running' : e'.wasm_instance ≡ some w')
    (source destination source' destination' : ℕ) (human : Bytes) where
  -- Over the API for tests and a host that gives back the gas that was set. A running contract gives
  -- a string of three to 54 bytes without NUL, and has the gas: the import takes the cost of the API
  -- from the gas left, and then the host writes the string's canonical address to the destination; the
  -- result is 0, or the error of that write. If a running contract gives these bytes to the other
  -- import, and has the gas, then that takes its cost and writes the string, with the same results.
  pub do_addr_humanize-do_addr_canonicalize :
      is_utf8 human ≡ true
      → All (λ b. b ≢ 0) human
      → 3 ≤ length human
      → length human ≤ 54
      → host.read_region w source max_length_human_address ≡ ok human
      → host.read_region w' source' max_length_canonical_address ≡ ok (canonical_of human)
      → gas_cost_canonicalize ≤ host.gas_left w
      → gas_cost_humanize ≤ host.gas_left w'
      → (do_addr_canonicalize host mock_api source destination e
          ≡ stored metered e w gas_cost_canonicalize running destination (canonical_of human))
        × (do_addr_humanize host mock_api source' destination' e'
            ≡ stored metered e' w' gas_cost_humanize running' destination' human)
  unfolding do_addr_canonicalize do_addr_humanize with_canonical answer_with with_cost write_back
      write_region
  do_addr_humanize-do_addr_canonicalize utf8 nonzero least most given given' enough enough' =
      let (to, back) = human_address-canonical_address human utf8 nonzero least most in
      let paid =
        process_gas_info_lem metered e w (with_cost gas_cost_canonicalize) running (omega arith) in
      let paid' =
        process_gas_info_lem metered e' w' (with_cost gas_cost_humanize) running' (omega arith) in
      (ground (arith, to, paid, not_empty human least), ground (arith, back, paid'))
