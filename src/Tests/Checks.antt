-- ===== src/Tests/Checks.antt =====
-- The theorems on the checks of wasm code, at small modules.
use Prim.Native.String.{String}
use cosmwasm.Base.{◌≡◌, ◌↔◌, refl, none, some, [], ◌∷◌, Result, ok, err, arith, inl, inr}
use cosmwasm.Base.Call.{Call, success, failure, panic, try}
use cosmwasm.Bytes.{Bytes}
use cosmwasm.Vm.Errors.{VmError, static_validation_err}
use cosmwasm.Vm.Text.{collect}
use cosmwasm.Vm.Limited.{set_to_string_limited}
use cosmwasm.Vm.Limited.Bound.{Displays, set_to_string_limited_lem}
use cosmwasm.Vm.StaticAnalysis.{function, ExportEntry, Module}
use cosmwasm.Vm.Features.{features_from_csv, trim}
use cosmwasm.Vm.Features.Csv.{join_commas, features_from_csv-join_commas}
use cosmwasm.Vm.Compatibility.{check_wasm}
use cosmwasm.Vm.Compatibility.Described.{IsCompatible}
use cosmwasm.Vm.Compatibility.Accepts.{check_wasm_iff}
use cosmwasm.Vm.Compatibility.Ends.{IsSmall, Answers, check_wasm-Answers}
use cosmwasm.Vm.Cache.{save_wasm}
use cosmwasm.Vm.Cache.Checked.{save_wasm_refuses}
use cosmwasm.Tests.Disks.{engine, files, slot}
use cosmwasm.Tests.Caches.{cold}

abbrev exported : String → ExportEntry
exported name = record { field = name; internal = function }

abbrev contract : Module
contract = record {
  memory_section = some (record { initial = 17; maximum = none } ∷ []);
  import_section = some (record { from = "env"; field = "db_read"; external = function } ∷ []);
  export_section = some (
      exported "interface_version_8"
      ∷ exported "allocate"
      ∷ exported "deallocate"
      ∷ exported "instantiate"
      ∷ exported "requires_staking"
      ∷ []);
}

-- The empty code is the contract; no other code decodes.
abbrev decoder : Bytes → Result String Module
decoder [] = ok contract
decoder (b ∷ bs) = err "Unexpected end"

check_wasm_iff_example :
    (check_wasm decoder [] ("staking" ∷ []) ≡ success tt)
    ↔ ((m : Module) × (decoder [] ≡ ok m) × IsCompatible ("staking" ∷ []) m)
check_wasm_iff_example = check_wasm_iff decoder [] ("staking" ∷ [])

decoder-IsSmall : (code : Bytes) (m : Module) → decoder code ≡ ok m → IsSmall m
decoder-IsSmall [] m e = let t : contract ≡ m = cc in rw (← t) (omega arith)
decoder-IsSmall (b ∷ bs) m e = cc

check_wasm-Answers_example : Answers (check_wasm decoder [] [])
check_wasm-Answers_example = check_wasm-Answers decoder decoder-IsSmall [] []

set_to_string_limited_lem_example :
    Displays "{" "}"
      ("aa" ∷ "bb" ∷ "cc" ∷ "dd" ∷ "ee" ∷ "ff" ∷ "gg" ∷ [])
      35
      (set_to_string_limited ("aa" ∷ "bb" ∷ "cc" ∷ "dd" ∷ "ee" ∷ "ff" ∷ "gg" ∷ []) 35)
set_to_string_limited_lem_example =
    set_to_string_limited_lem ("aa" ∷ "bb" ∷ "cc" ∷ "dd" ∷ "ee" ∷ "ff" ∷ "gg" ∷ []) 35 (omega arith)
      (omega arith)

features_from_csv-join_commas_example :
    features_from_csv "staking,stargate" ≡ collect ("staking" ∷ "stargate" ∷ [])
unfolding join_commas trim
features_from_csv-join_commas_example =
    features_from_csv-join_commas ("staking" ∷ "stargate" ∷ [])
      ((λ e. cc, omega arith, refl), ((λ e. cc, omega arith, refl), tt))

-- `check_wasm`, which never panics here, as a function into results.
abbrev to_result : Call VmError (Unit {0}) → Result VmError (Unit {0})
to_result (success done) = ok done
to_result (failure e) = err e
to_result panic = err (static_validation_err "")

abbrev check : Bytes → Result VmError (Unit {0})
check code = to_result (check_wasm decoder code [])

try-to_result : (c : Call VmError (Unit {0})) → Answers c → try (to_result c) ≡ c
try-to_result c (inl e) = rw e refl
try-to_result c (inr (msg, e)) = rw e refl

check-IsCheck : (code : Bytes) → try (check code) ≡ check_wasm decoder code []
check-IsCheck code =
    try-to_result (check_wasm decoder code []) (check_wasm-Answers decoder decoder-IsSmall code [])

unsupported : (m : Module) → decoder [] ≡ ok m → ¬ (IsCompatible [] m)
unsupported m e h =
    let t : contract ≡ m = cc in
    let h' : IsCompatible [] contract = rw t h in
    h'.features "staking" (λ z. cc) (inr (inr (inr (inr (inl (refl, refl))))))

save_wasm_refuses_example :
    (e : VmError) × (save_wasm engine files slot check [] cold ≡ (err e, cold))
save_wasm_refuses_example =
    save_wasm_refuses engine files slot decoder [] check check-IsCheck [] cold unsupported
