-- ===== src/Vm/Compatibility/Ends.antt =====
-- `check_wasm` answers on every code: the limited texts in its messages always fit.
use Prim.Native.String.{String}
use cosmwasm.Base.{
  length-map, ℕ, ◌^◌, ◌≤◌, ◌<◌, ◌≡◌, refl, ◌⊎◌, inl, inr, Bool, true, false, Option, none, some,
  List, [], ◌∷◌, length, select, map, Bool-cases, Result, ok, err, ltb, arith, if◌then◌else◌,
}
use text.Mathlib.Text.{◌==◌ as str_eq}
use cosmwasm.Base.Call.{Call, success, failure, ◌>>=◌, ◌>>◌, run}
use cosmwasm.Bytes.{Bytes}
use cosmwasm.Vm.Errors.{VmError, static_validation_err}
use cosmwasm.Vm.Text.{StringSet, collect, contains, is_subset, difference}
use cosmwasm.Vm.Text.Laws.{length-collect, length-difference}
use cosmwasm.Vm.Limited.{set_to_string_limited}
use cosmwasm.Vm.Limited.Bound.{set_to_string_limited_lem}
use cosmwasm.Vm.StaticAnalysis.{
  Limits, Kind, function, table, memory, global, ImportEntry, ExportEntry, Module, deserialize_wasm,
  entries, function_names, has_prefix, exported_function_names,
}
use cosmwasm.Vm.Features.{features_of_names, required_features_from_module, requires_prefix}
use cosmwasm.Vm.Compatibility.Accepts.{checks}
use cosmwasm.Vm.Compatibility.{
  memory_limit, supported_interface_version, required_exports, interface_version_prefix,
  supported_imports, check_limits, check_wasm_memories, check_version, check_interface_version,
  check_exports, check_wasm_exports, full_import_name, check_imports, check_wasm_imports,
  check_wasm_features, check_wasm,
}

-- A check that accepts, or refuses with an error of static validation.
abbrev pub Answers : Call VmError (Unit {0}) → Type 0
Answers c = (c ≡ success tt) ⊎ ((msg : String) × (c ≡ failure (static_validation_err msg)))

Answers->> : (c d : Call VmError (Unit {0})) → Answers c → Answers d → Answers (c >> d)
Answers->> c d (inl h) hd = rw h hd
Answers->> c d (inr (msg, h)) hd = rw h (inr (msg, refl))

-- A set of less than 2^64 elements is shown in 200 bytes.
shown_lem :
    (s : StringSet) (e : String → String)
    → length s < 2 ^ 64
    → Answers (run (set_to_string_limited s 200) >>= λ t. failure (static_validation_err (e t)))
shown_lem s e small =
    let (t, h, _, _) = set_to_string_limited_lem s 200 small (omega arith) in rw h (inr (e t, refl))

Answers-if :
    (b : Bool) (c d : Call VmError (Unit {0}))
    → Answers c
    → Answers d
    → Answers (if b then c else d)
Answers-if true c d hc hd = hc
Answers-if false c d hc hd = hd

check_limits-Answers : (l : Limits) → Answers (check_limits l)
unfolding check_limits
check_limits-Answers l = Answers-if (ltb memory_limit l.initial) _ _ (inr (_, refl)) (go l.maximum)
  where
    go :
        (o : Option ℕ)
        → Answers (elim o [
          | some _ ↦ failure (
              static_validation_err
                "Wasm contract memory's maximum must be unset. The host will set it for you.")
          | none ↦ success tt
        ])
    go none = inl refl
    go (some n) = inr (_, refl)

check_version-Answers : (v : String) → Answers (check_version v)
unfolding check_version
check_version-Answers v = Answers-if (str_eq v supported_interface_version) _ _ (inl refl) (
    Answers-if (str_eq v "interface_version_6") _ _ (inr (_, refl))
      (Answers-if (str_eq v "interface_version_5") _ _ (inr (_, refl)) (inr (_, refl))))

check_wasm_memories-Answers : (m : Module) → Answers (check_wasm_memories m)
unfolding check_wasm_memories
check_wasm_memories-Answers m = go m.memory_section refl
  where
    go :
        (section : Option (List Limits))
        → m.memory_section ≡ section
        → Answers (check_wasm_memories m)
    go none e = rw (check_wasm_memories, e) (inr (_, refl))
    go (some []) e = rw (check_wasm_memories, e) (inr (_, refl))
    go (some (l ∷ [])) e = rw (check_wasm_memories, e) (check_limits-Answers l)
    go (some (l ∷ l2 ∷ r)) e = rw (check_wasm_memories, e) (inr (_, refl))

check_interface_version-Answers : (m : Module) → Answers (check_interface_version m)
unfolding check_interface_version
check_interface_version-Answers m =
    go (exported_function_names m (some interface_version_prefix)) refl
  where
    go :
        (l : List String)
        → exported_function_names m (some interface_version_prefix) ≡ l
        → Answers (check_interface_version m)
    go [] e = rw (check_interface_version, e) (inr (_, refl))
    go (v ∷ []) e = rw (check_interface_version, e) (check_version-Answers v)
    go (v ∷ w ∷ r) e = rw (check_interface_version, e) (inr (_, refl))

check_exports-Answers : (available l : List String) → Answers (check_exports available l)
unfolding check_exports
check_exports-Answers available [] = inl refl
check_exports-Answers available (s ∷ ss) = elim (Bool-cases (contains available s)) [
  | inl e ↦ rw (check_exports, e) (check_exports-Answers available ss)
  | inr e ↦ rw (check_exports, e) (inr (_, refl))
]

check_imports-Answers :
    (names : StringSet) (supported : List String) (l : List ImportEntry)
    → length names < 2 ^ 64
    → Answers (check_imports names supported l)
unfolding check_imports
check_imports-Answers names supported [] small = inl refl
check_imports-Answers names supported (ie ∷ rest) small =
    elim (Bool-cases (contains supported (full_import_name ie))) [
      | inl e ↦ kinds e (check_imports-Answers names supported rest small) ie.external refl
      | inr e ↦ rw (check_imports, e) (shown_lem names _ small)
    ]
  where
    kinds :
        contains supported (full_import_name ie) ≡ true
        → Answers (check_imports names supported rest)
        → (k : Kind) → ie.external ≡ k
        → Answers (check_imports names supported (ie ∷ rest))
    kinds e ih function q = rw (check_imports, e, q) ih
    kinds e ih table q = rw (check_imports, e, q) (inr (_, refl))
    kinds e ih memory q = rw (check_imports, e, q) (inr (_, refl))
    kinds e ih global q = rw (check_imports, e, q) (inr (_, refl))

length-select : (p : String → Bool) (l : List String) → length (select p l) ≤ length l
length-select p [] = omega arith
length-select p (x ∷ xs) = elim (Bool-cases (p x)) [
  | inl e ↦ rw (select, e) (omega (arith, length-select p xs))
  | inr e ↦ rw (select, e) (omega (arith, length-select p xs))
]

length-function_names : (l : List ExportEntry) → length (function_names l) ≤ length l
unfolding function_names
length-function_names [] = omega arith
length-function_names (e ∷ es) = ground (arith, length-function_names es)

length-features_of_names : (l : List String) → length (features_of_names l) ≤ length l
unfolding features_of_names
length-features_of_names [] = omega arith
length-features_of_names (s ∷ ss) = ground (arith, length-features_of_names ss)

length-required_features :
    (m : Module) → length (required_features_from_module m) ≤ length (entries m.export_section)
unfolding required_features_from_module exported_function_names
length-required_features m =
    let l = entries m.export_section in
    let names = function_names l in
    let chosen = select (has_prefix (some requires_prefix)) names in
    omega (
      arith,
      length-function_names l,
      length-select (has_prefix (some requires_prefix)) names,
      length-collect chosen,
      length-features_of_names (collect chosen),
      length-collect (features_of_names (collect chosen)),
    )

check_wasm_features-Answers :
    (m : Module) (supported : StringSet)
    → length (entries m.export_section) < 2 ^ 64
    → Answers (check_wasm_features m supported)
unfolding check_wasm_features
check_wasm_features-Answers m supported small =
    elim (Bool-cases (is_subset (required_features_from_module m) supported)) [
      | inl e ↦ rw (check_wasm_features, e) (inl refl)
      | inr e ↦
          rw (check_wasm_features, e)
            (shown_lem (difference (required_features_from_module m) supported) _ (
              omega (
                arith,
                length-required_features m,
                length-difference (required_features_from_module m) supported,
              )))
    ]

-- The sections of a decoded module have less than 2^64 entries.
abbrev pub IsSmall : Module → Type 0
IsSmall m =
    (length (entries m.import_section) < 2 ^ 64) × (length (entries m.export_section) < 2 ^ 64)

check_wasm_imports-Answers :
    (m : Module)
    → length (entries m.import_section) < 2 ^ 64
    → Answers (check_wasm_imports m supported_imports)
unfolding check_wasm_imports
check_wasm_imports-Answers m small =
    let l = entries m.import_section in
    let names = map full_import_name l in
    check_imports-Answers (collect names) supported_imports l
      (omega (arith, length-collect names, length-map full_import_name l))

checks-Answers : (m : Module) (supported : StringSet) → IsSmall m → Answers (checks m supported)
unfolding check_wasm_exports
checks-Answers m supported (few, small) =
    Answers->> (check_wasm_memories m) _ (check_wasm_memories-Answers m) (
      Answers->> (check_interface_version m) _ (check_interface_version-Answers m) (
        Answers->> (check_wasm_exports m) _
          (check_exports-Answers (exported_function_names m none) required_exports)
          (Answers->> (check_wasm_imports m supported_imports) _ (check_wasm_imports-Answers m few)
            (Answers->> (check_wasm_features m supported) _
              (check_wasm_features-Answers m supported small) (inl refl)))))

-- Where every module that the decoder gives has fewer than 2^64 imports and exports, `check_wasm`
-- never panics: it accepts the code, or ends with an error of static validation.
pub check_wasm-Answers :
    (deserialize_buffer : Bytes → Result String Module)
    → ((code : Bytes) (m : Module) → deserialize_buffer code ≡ ok m → IsSmall m)
    → (wasm_code : Bytes) (supported : StringSet)
    → Answers (check_wasm deserialize_buffer wasm_code supported)
unfolding check_wasm deserialize_wasm
check_wasm-Answers deserialize_buffer small wasm_code supported =
    go (deserialize_buffer wasm_code) refl
  where
    go :
        (r : Result String Module)
        → deserialize_buffer wasm_code ≡ r
        → Answers (check_wasm deserialize_buffer wasm_code supported)
    go (err x) e = rw (check_wasm, deserialize_wasm, e) (inr (_, refl))
    go (ok m) e =
        rw (check_wasm, deserialize_wasm, e) (checks-Answers m supported (small wasm_code m e))
