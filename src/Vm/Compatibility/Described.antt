-- ===== src/Vm/Compatibility/Described.antt =====
-- What a module must be like for the VM to take it, said without the checks.
use Prim.Native.String.{String, ◌++◌}
use cosmwasm.Base.{◌≤◌, ◌≡◌, ◌≢◌, none, some, List, [], ◌∷◌, Any, All}
use cosmwasm.Vm.Text.{StringSet}
use cosmwasm.Vm.Text.Laws.{In}
use cosmwasm.Vm.StaticAnalysis.{Limits, function, ImportEntry, ExportEntry, Module, entries}

-- The module exports a function of this name.
abbrev pub Exports : Module → String → Type 0
Exports m name =
    Any (λ (e : ExportEntry). (e.field ≡ name) × (e.internal ≡ function)) (entries m.export_section)

-- One memory of at most 512 pages, with no maximum.
abbrev pub HasMemory : Module → Type 0
HasMemory m =
    (l : Limits) × (m.memory_section ≡ some (l ∷ [])) × (l.initial ≤ 512) × (l.maximum ≡ none)

-- The interface version 8, and no other.
abbrev pub HasVersion : Module → Type 0
HasVersion m =
    Exports m "interface_version_8"
    × ((rest : String) → Exports m ("interface_version_" ++ rest) → rest ≡ "8")

abbrev pub HasExports : Module → Type 0
HasExports m = Exports m "allocate" × Exports m "deallocate" × Exports m "instantiate"

abbrev pub imports_of_env : List String
imports_of_env =
    "db_read" ∷ "db_write" ∷ "db_remove" ∷ "addr_validate" ∷ "addr_canonicalize" ∷ "addr_humanize"
    ∷ "secp256k1_verify" ∷ "secp256k1_recover_pubkey" ∷ "ed25519_verify" ∷ "ed25519_batch_verify"
    ∷ "debug" ∷ "query_chain" ∷ "db_scan" ∷ "db_next" ∷ []

-- A function that the VM gives in the module "env".
abbrev pub IsGiven : ImportEntry → Type 0
IsGiven ie = (ie.from ≡ "env") × In ie.field imports_of_env × (ie.external ≡ function)

abbrev pub HasFeatures : StringSet → Module → Type 0
HasFeatures supported m = (f : String) → f ≢ "" → Exports m ("requires_" ++ f) → In f supported

pub record IsCompatible (supported : StringSet) (m : Module) : Type 0 where
  pub one_memory : HasMemory m
  pub version : HasVersion m
  pub exports : HasExports m
  pub imports : All IsGiven (entries m.import_section)
  pub features : HasFeatures supported m
