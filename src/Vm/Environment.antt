-- ===== src/Vm/Environment.antt =====
-- packages/vm/src/environment.rs: the data that the imports of a running contract share. The Wasm
-- instance, the storage and the querier of the host are given by the interface `Host`; a call into
-- the contract may run any import, so it may change the whole environment.
pub mod Accounting
use Prim.Native.String.{String}
use cosmwasm.Base.{
  ℕ, zero, suc, ◌-◌, Option, none, some, List, [], ◌∷◌, Bool, true, false, Result, ok, err, ltb,
  if◌then◌else◌, length, ◌==◌,
}
use cosmwasm.Base.Call.{Call, success, failure, panic}
use cosmwasm.Bytes.{Bytes}
use cosmwasm.Vm.Errors.{
  VmError, BackendError, gas_depletion, uninitialized_context_data, result_mismatch,
}
use cosmwasm.Vm.Gas.{GasInfo, GasConfig, GasState, default_config, with_limit, add64}

-- `ContextData`, with the gas prices of the `Environment` that shares it. W is the Wasm instance,
-- S the storage, Q the querier.
pub record Environment (W S Q : Type 0) : Type 0 where
  pub gas_config : GasConfig
  pub gas_state : GasState
  pub storage : Option S
  pub storage_readonly : Bool
  pub querier : Option Q
  pub wasm_instance : Option W

-- The result of an import, and the environment after it, also where it fails.
abbrev pub Action : Type 0 → Type 0 → Type 0 → Type 0 → Type 0
Action W S Q A = Environment W S Q → Call VmError A × Environment W S Q

module _ {W S Q A : Type 0} where
  abbrev pub pure : A → Action W S Q A
  pure a e = (success a, e)

  abbrev pub fail : VmError → Action W S Q A
  fail x e = (failure x, e)

  abbrev pub lift : Result VmError A → Action W S Q A
  lift (ok a) = pure a
  lift (err x) = fail x

infixl 5 ◌>>=◌ ◌>>◌
abbrev pub ◌>>=◌ : {W S Q A B : Type 0} → Action W S Q A → (A → Action W S Q B) → Action W S Q B
◌>>=◌ m f e =
    let (r, e') = m e in
    elim r [ success a ↦ f a e' | failure x ↦ (failure x, e') | panic ↦ (panic, e') ]

abbrev pub ◌>>◌ : {W S Q A B : Type 0} → Action W S Q A → Action W S Q B → Action W S Q B
m >> k = m >>= λ _. k

-- What the modelled code calls and does not implement. An answer of the backend is a result and
-- the gas that it took.
pub record Host (W S Q : Type 0) : Type 0 where
  pub gas_left : W → ℕ
  pub set_gas : W → ℕ → W
  pub read_region : W → ℕ → ℕ → Result VmError Bytes
  pub write_region : W → ℕ → Bytes → Result VmError W
  -- `call_function(name, args)`: the values that the contract returns, each by the `u32` that it
  -- converts to, if any.
  pub call_function : String → List ℕ → Action W S Q (List (Option ℕ))
  pub get : S → Bytes → Result BackendError (Option Bytes) × GasInfo
  pub set : S → Bytes → Bytes → (Result BackendError (Unit {0}) × GasInfo) × S
  pub remove : S → Bytes → (Result BackendError (Unit {0}) × GasInfo) × S
  pub query_raw : Q → Bytes → ℕ → (Result BackendError Bytes × GasInfo) × Q

module _ {W S Q : Type 0} where
  -- `Environment::new`
  unfoldable pub new : ℕ → Environment W S Q
  unfolding default_config with_limit
  new gas_limit = record {
    gas_config = default_config;
    gas_state = with_limit gas_limit;
    storage = none;
    storage_readonly = true;
    querier = none;
    wasm_instance = none;
  }

  unfoldable pub set_wasm_instance : Option W → Action W S Q (Unit {0})
  set_wasm_instance w e = (success tt, record e { wasm_instance = w })

  unfoldable pub set_storage_readonly : Bool → Action W S Q (Unit {0})
  set_storage_readonly new_value e = (success tt, record e { storage_readonly = new_value })

  unfoldable pub move_in : S → Q → Action W S Q (Unit {0})
  move_in storage querier e =
      (success tt, record e { storage = some storage; querier = some querier })

  unfoldable pub move_out : Action W S Q (Option S × Option Q)
  move_out e = (success (e.storage, e.querier), record e { storage = none; querier = none })

  -- The callback gets the instance and may replace it.
  unfoldable pub with_wasm_instance : {A : Type 0} → (W → Result VmError A × W) → Action W S Q A
  with_wasm_instance callback e = elim (e.wasm_instance) [
    | none ↦ (failure (uninitialized_context_data "wasmer_instance"), e)
    | some w ↦ let (r, w') = callback w in lift r (record e { wasm_instance = some w' })
  ]

  -- `.expect(…)` on a result.
  abbrev pub expect : {A : Type 0} → Action W S Q A → Action W S Q A
  expect m e =
      let (r, e') = m e in
      elim r [ success a ↦ (success a, e') | failure x ↦ (panic, e') | panic ↦ (panic, e') ]

  unfoldable pub with_storage_from_context :
      {A : Type 0} → (S → Result VmError A × S) → Action W S Q A
  with_storage_from_context callback e = elim (e.storage) [
    | none ↦ (failure (uninitialized_context_data "storage"), e)
    | some s ↦ let (r, s') = callback s in lift r (record e { storage = some s' })
  ]

  unfoldable pub with_querier_from_context :
      {A : Type 0} → (Q → Result VmError A × Q) → Action W S Q A
  with_querier_from_context callback e = elim (e.querier) [
    | none ↦ (failure (uninitialized_context_data "querier"), e)
    | some q ↦ let (r, q') = callback q in lift r (record e { querier = some q' })
  ]

module _ {W S Q : Type 0} (host : Host W S Q) where
  unfoldable pub get_gas_left : Action W S Q ℕ
  unfolding with_wasm_instance
  get_gas_left = expect (with_wasm_instance (λ w. (ok (host.gas_left w), w)))

  unfoldable pub set_gas_left : ℕ → Action W S Q (Unit {0})
  unfolding with_wasm_instance
  set_gas_left new_value = expect (with_wasm_instance (λ w. (ok tt, host.set_gas w new_value)))

  unfoldable pub decrease_gas_left : ℕ → Action W S Q (Unit {0})
  unfolding with_wasm_instance
  decrease_gas_left amount = with_wasm_instance (λ w.
      let remaining = host.gas_left w in
      if ltb remaining amount
      then (err gas_depletion, host.set_gas w 0)
      else (ok tt, host.set_gas w (remaining - amount)))

  unfoldable pub call_function : String → List ℕ → Action W S Q (List (Option ℕ))
  call_function name args e = elim (e.wasm_instance) [
    | none ↦ (failure (uninitialized_context_data "wasmer_instance"), e)
    | some w ↦ host.call_function name args e
  ]

  unfoldable pub call_function0 : String → List ℕ → Action W S Q (Unit {0})
  unfolding call_function
  call_function0 name args = do
    result ← call_function name args
    if length result == 0 then pure tt else fail (result_mismatch 0 (length result))

  abbrev first_of_one : List (Option ℕ) → Action W S Q (Option ℕ)
  first_of_one [] = fail (result_mismatch 1 0)
  first_of_one (v ∷ []) = pure v
  first_of_one (v ∷ w ∷ rest) = fail (result_mismatch 1 (length (v ∷ w ∷ rest)))

  unfoldable pub call_function1 : String → List ℕ → Action W S Q (Option ℕ)
  unfolding call_function
  call_function1 name args = call_function name args >>= first_of_one

  -- `gas_state.externally_used_gas += info.externally_used`
  abbrev pub use_externally : ℕ → Action W S Q (Unit {0})
  use_externally n e = (
    success tt,
    record e {
      gas_state = record {
        gas_limit = e.gas_state.gas_limit;
        externally_used_gas = add64 e.gas_state.externally_used_gas n;
      };
    },
  )

  unfoldable pub process_gas_info : GasInfo → Action W S Q (Unit {0})
  unfolding get_gas_left set_gas_left
  process_gas_info info = do
    gas_left ← get_gas_left
    use_externally info.externally_used
    set_gas_left (gas_left - info.externally_used - info.cost)
    if ltb gas_left (add64 info.externally_used info.cost) then fail gas_depletion else pure tt
