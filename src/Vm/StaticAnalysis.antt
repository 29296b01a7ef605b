-- ===== src/Vm/StaticAnalysis.antt =====
-- packages/vm/src/static_analysis.rs. `Module` has the sections of `parity_wasm`'s module that the
-- checks read; the decoder `deserialize_buffer`, with the text of its error, is a parameter.
use Prim.Native.String.{String}
use Prim.Native.String
use text.Mathlib.Text.{starts_with}
use cosmwasm.Base.{ℕ, Bool, true, ◌&&◌, Option, none, some, List, [], ◌∷◌, Result, ok, err, select}
use cosmwasm.Bytes.{Bytes}
use cosmwasm.Vm.Errors.{VmError, static_validation_err}
use cosmwasm.Vm.Text.{StringSet, collect, contains}

-- `ResizableLimits` of a memory.
pub record Limits : Type 0 where
  pub initial : ℕ
  pub maximum : Option ℕ

-- What an import or an export is, `External` and `Internal`.
pub data Kind : Type 0 where
  function table memory global : Kind

pub record ImportEntry : Type 0 where
  pub from : String
  pub field : String
  pub external : Kind

pub record ExportEntry : Type 0 where
  pub field : String
  pub internal : Kind

pub record Module : Type 0 where
  pub memory_section : Option (List Limits)
  pub import_section : Option (List ImportEntry)
  pub export_section : Option (List ExportEntry)

unfoldable pub deserialize_wasm : (Bytes → Result String Module) → Bytes → Result VmError Module
deserialize_wasm deserialize_buffer wasm_code = elim (deserialize_buffer wasm_code) [
  | ok m ↦ ok m
  | err e ↦ err (
      static_validation_err (
        String.◌++◌ "Wasm bytecode could not be deserialized. Deserialization error: \""
          (String.◌++◌ e "\"")))
]

-- The fields of the entries that are functions.
unfoldable pub function_names : List ExportEntry → List String
function_names [] = []
function_names (entry ∷ rest) = elim entry.internal [
  | function ↦ entry.field ∷ function_names rest
  | _ ↦ function_names rest
]

abbrev pub has_prefix : Option String → String → Bool
has_prefix (some required_prefix) name = starts_with name required_prefix
has_prefix none name = true

-- The entries of an optional section.
abbrev pub entries {ℓ} : {A : Type ℓ} → Option (List A) → List A
entries none = []
entries (some l) = l

unfoldable pub exported_function_names : Module → Option String → StringSet
unfolding collect function_names
exported_function_names m prefix =
    collect (select (has_prefix prefix) (function_names (entries m.export_section)))

abbrev pub required_ibc_exports : List String
required_ibc_exports =
    "ibc_channel_open" ∷ "ibc_channel_connect" ∷ "ibc_channel_close" ∷ "ibc_packet_receive"
    ∷ "ibc_packet_ack" ∷ "ibc_packet_timeout" ∷ []

unfoldable pub all_contained : StringSet → List String → Bool
unfolding contains
all_contained available_exports [] = true
all_contained available_exports (required ∷ rest) =
    contains available_exports required && all_contained available_exports rest

unfoldable pub has_ibc_entry_points : Module → Bool
unfolding exported_function_names all_contained
has_ibc_entry_points m = all_contained (exported_function_names m none) required_ibc_exports
