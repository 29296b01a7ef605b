-- ===== src/Vm/Compatibility.antt =====
-- packages/vm/src/compatibility.rs: which wasm code the VM takes. The source is compiled with the
-- feature "iterator". No name in the constants needs an escape in its `Debug` form.
pub mod Described
pub mod Names
pub mod Dots
pub mod Demands
pub mod Accepts
pub mod Ends
use Prim.Native.String.{String, ◌++◌}
use text.Mathlib.Text.{◌==◌}
use cosmwasm.Base.{
  ℕ, ◌+◌, Bool, true, false, ◌&&◌, not, Option, none, some, List, [], ◌∷◌, map, Result, ok, err,
  Outcome, returns, ltb, if◌then◌else◌,
}
use cosmwasm.Base.Call.{Call, success, failure, panic, ◌>>=◌, ◌>>◌, try, run}
use cosmwasm.Bytes.{Bytes}
use cosmwasm.Vm.Errors.{VmError, static_validation_err}
use cosmwasm.Vm.Text.{StringSet, collect, contains, is_subset, difference, to_decimal}
use cosmwasm.Vm.Limited.{set_to_string_limited}
use cosmwasm.Vm.StaticAnalysis.{
  Limits, Kind, function, table, memory, global, ImportEntry, Module, deserialize_wasm, entries,
  exported_function_names,
}
use cosmwasm.Vm.Features.{required_features_from_module}

abbrev pub supported_imports : List String
supported_imports =
    "env.db_read" ∷ "env.db_write" ∷ "env.db_remove" ∷ "env.addr_validate" ∷ "env.addr_canonicalize"
    ∷ "env.addr_humanize" ∷ "env.secp256k1_verify" ∷ "env.secp256k1_recover_pubkey"
    ∷ "env.ed25519_verify" ∷ "env.ed25519_batch_verify" ∷ "env.debug" ∷ "env.query_chain"
    ∷ "env.db_scan" ∷ "env.db_next" ∷ []

abbrev pub required_exports : List String
required_exports = "allocate" ∷ "deallocate" ∷ "instantiate" ∷ []

abbrev pub interface_version_prefix : String
interface_version_prefix = "interface_version_"

abbrev pub supported_interface_version : String
supported_interface_version = "interface_version_8"

abbrev pub memory_limit : ℕ
memory_limit = 512

-- `{:?}` of a slice of strings.
unfoldable pub debug_rest : List String → String
debug_rest [] = "]"
debug_rest (s ∷ ss) = ", \"" ++ s ++ "\"" ++ debug_rest ss

unfoldable pub debug_list : List String → String
unfolding debug_rest
debug_list [] = "[]"
debug_list (s ∷ ss) = "[\"" ++ s ++ "\"" ++ debug_rest ss

abbrev refuse : String → Call VmError (Unit {0})
refuse msg = failure (static_validation_err msg)

unfoldable pub check_limits : Limits → Call VmError (Unit {0})
check_limits limits =
    if ltb memory_limit limits.initial
    then refuse
        ("Wasm contract memory's minimum must not exceed " ++ to_decimal memory_limit ++ " pages.")
    else elim limits.maximum [
      | some _ ↦
          refuse "Wasm contract memory's maximum must be unset. The host will set it for you."
      | none ↦ success tt
    ]

unfoldable pub check_wasm_memories : Module → Call VmError (Unit {0})
unfolding check_limits
check_wasm_memories m = elim m.memory_section [
  | none ↦ refuse "Wasm contract doesn't have a memory section"
  | some [] ↦ refuse "Wasm contract must contain exactly one memory"
  | some (limits ∷ []) ↦ check_limits limits
  | some (_ ∷ _ ∷ _) ↦ refuse "Wasm contract must contain exactly one memory"
]

unfoldable pub check_version : String → Call VmError (Unit {0})
check_version first_interface_version_export =
    if first_interface_version_export == supported_interface_version
    then success tt
    else if first_interface_version_export == "interface_version_6"
    then refuse
        "Wasm contract has incompatible CosmWasm 0.15 marker export interface_version_6 (see https://github.com/CosmWasm/cosmwasm/blob/main/packages/vm/README.md)"
    else if first_interface_version_export == "interface_version_5"
    then refuse
        "Wasm contract has incompatible CosmWasm 0.14 marker export interface_version_5 (see https://github.com/CosmWasm/cosmwasm/blob/main/packages/vm/README.md)"
    else refuse
        "Wasm contract has unknown interface_version_* marker export (see https://github.com/CosmWasm/cosmwasm/blob/main/packages/vm/README.md)"

unfoldable pub check_interface_version : Module → Call VmError (Unit {0})
unfolding check_version exported_function_names
check_interface_version m = elim (exported_function_names m (some interface_version_prefix)) [
  | [] ↦ refuse "Wasm contract missing a required marker export: interface_version_*"
  | first_interface_version_export ∷ [] ↦ check_version first_interface_version_export
  | _ ∷ _ ∷ _ ↦ refuse "Wasm contract contains more than one marker export: interface_version_*"
]

-- The loop over the exports that are still to be looked for.
unfoldable pub check_exports : StringSet → List String → Call VmError (Unit {0})
unfolding contains debug_list
check_exports available_exports [] = success tt
check_exports available_exports (required_export ∷ rest) =
    if contains available_exports required_export
    then check_exports available_exports rest
    else refuse (
        "Wasm contract doesn't have required export: \""
        ++ required_export
        ++ "\". Exports required by VM: "
        ++ debug_list required_exports
        ++ ".")

unfoldable pub check_wasm_exports : Module → Call VmError (Unit {0})
unfolding check_exports exported_function_names
check_wasm_exports m = check_exports (exported_function_names m none) required_exports

unfoldable pub full_import_name : ImportEntry → String
full_import_name ie = ie.from ++ "." ++ ie.field

-- The loop over the imports that are still to be checked.
unfoldable pub check_imports : StringSet → List String → List ImportEntry → Call VmError (Unit {0})
unfolding contains debug_list full_import_name set_to_string_limited
check_imports names supported [] = success tt
check_imports names supported (required_import ∷ rest) =
    let full_name = full_import_name required_import in
    if not (contains supported full_name)
    then (do
      shown ← run (set_to_string_limited names 200)
      refuse (
          "Wasm contract requires unsupported import: \""
          ++ full_name
          ++ "\". Required imports: "
          ++ shown
          ++ ". Available imports: "
          ++ debug_list supported
          ++ "."))
    else elim required_import.external [
      | function ↦ check_imports names supported rest
      | _ ↦ refuse (
          "Wasm contract requires non-function import: \"" ++ full_name
          ++ "\". Right now, all supported imports are functions.")
    ]

unfoldable pub check_wasm_imports : Module → List String → Call VmError (Unit {0})
unfolding check_imports collect full_import_name
check_wasm_imports m supported =
    let required_imports = entries m.import_section in
    check_imports (collect (map full_import_name required_imports)) supported required_imports

unfoldable pub check_wasm_features : Module → StringSet → Call VmError (Unit {0})
unfolding is_subset difference required_features_from_module set_to_string_limited
check_wasm_features m supported_features =
    let required_features = required_features_from_module m in
    if not (is_subset required_features supported_features)
    then (do
      shown ← run (set_to_string_limited (difference required_features supported_features) 200)
      refuse ("Wasm contract requires unsupported features: " ++ shown))
    else success tt

unfoldable pub check_wasm :
    (Bytes → Result String Module) → Bytes → StringSet → Call VmError (Unit {0})
unfolding deserialize_wasm check_wasm_memories check_interface_version check_wasm_exports
    check_wasm_imports check_wasm_features
check_wasm deserialize_buffer wasm_code supported_features = do
  m ← try (deserialize_wasm deserialize_buffer wasm_code)
  check_wasm_memories m
  check_interface_version m
  check_wasm_exports m
  check_wasm_imports m supported_imports
  check_wasm_features m supported_features
  success tt
