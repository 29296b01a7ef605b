-- ===== src/Vm/Compatibility/Accepts.antt =====
-- Which modules `check_wasm` accepts, against a plain description of them.
use Prim.Native.String.{String, ◌++◌}
use text.Mathlib.TextLemmas.{append_cancel_left}
use text.Mathlib.Text.{starts_with}
use text.Mathlib.TextEquality.{eq_iff, starts_with_iff}
use text.Mathlib.TextPositions.{starts_with-append}
use cosmwasm.Base.{
  ◌≤◌, ◌≡◌, refl, sym, ap, ◌∙◌, ◌↔◌, inl, inr, Bool, true, false, Option, none, some, List, [], ◌∷◌,
  All, map, Outcome, returns, panics, Result, ok, err, arith,
}
use cosmwasm.Base.Call.{Call, success, failure, after, ◌>>=◌, ◌>>◌, run}
use cosmwasm.Bytes.{Bytes}
use cosmwasm.Vm.Errors.{VmError}
use cosmwasm.Vm.Text.{StringSet, collect, contains, is_subset}
use cosmwasm.Vm.Text.Laws.{In, contains_iff, is_subset_iff, collect_one_iff}
use cosmwasm.Vm.StaticAnalysis.{
  Limits, Kind, function, table, memory, global, ImportEntry, Module, deserialize_wasm, entries,
  exported_function_names,
}
use cosmwasm.Vm.Features.{required_features_from_module}
use cosmwasm.Vm.Compatibility.{
  required_exports, interface_version_prefix, supported_imports, check_limits, check_wasm_memories,
  check_version, check_interface_version, check_exports, check_wasm_exports, full_import_name,
  check_imports, check_wasm_imports, check_wasm_features, check_wasm,
}
use cosmwasm.Vm.Compatibility.Described.{
  Exports, HasMemory, HasVersion, HasExports, imports_of_env, IsGiven, HasFeatures, IsCompatible,
}
use cosmwasm.Vm.Compatibility.Names.{selected_names, In-selected, In-exported}
use cosmwasm.Vm.Compatibility.Dots.{In-full_import_name}
use cosmwasm.Vm.Compatibility.Demands.{In-required_features}

check_limits_iff :
    (l : Limits) → (check_limits l ≡ success tt) ↔ ((l.initial ≤ 512) × (l.maximum ≡ none))
unfolding check_limits
check_limits_iff l = ground arith

check_wasm_memories_iff : (m : Module) → (check_wasm_memories m ≡ success tt) ↔ HasMemory m
unfolding check_wasm_memories
check_wasm_memories_iff m = go m.memory_section refl
  where
    go :
        (section : Option (List Limits))
        → m.memory_section ≡ section
        → (check_wasm_memories m ≡ success tt) ↔ HasMemory m
    go none e = rw (check_wasm_memories, e) (λ h. cc, λ h. let (l, p, q, r) = h in cc)
    go (some []) e = rw (check_wasm_memories, e) (λ h. cc, λ h. let (l, p, q, r) = h in cc)
    go (some (l ∷ [])) e =
        rw (check_wasm_memories, e)
          (
            λ h. let (p, q) = (check_limits_iff l).0 h in (l, refl, p, q),
            λ h.
                let (l', p, q, r) = h in
                let t : l ≡ l' = cc in rw t ((check_limits_iff l').1 (q, r)),
          )
    go (some (l ∷ l2 ∷ r)) e =
        rw (check_wasm_memories, e) (λ h. cc, λ h. let (l, p, q, r) = h in cc)

check_version_iff : (v : String) → (check_version v ≡ success tt) ↔ (v ≡ "interface_version_8")
unfolding check_version
check_version_iff v = ground (arith, eq_iff v "interface_version_8")

-- The names that the marker's check looks at are the one name exactly when the module has the version.
version_names_iff :
    (m : Module)
    → (exported_function_names m (some interface_version_prefix) ≡ "interface_version_8" ∷ [])
      ↔ HasVersion m
version_names_iff m = (
  λ e. (
    ((exported "interface_version_8").0 (rw e (inl refl))).0,
    λ rest h.
        elim (rw e at (
          (exported (interface_version_prefix ++ rest)).1
            (h, starts_with-append interface_version_prefix rest))) [
              | inl q ↦ append_cancel_left interface_version_prefix rest "8" (sym q)
              | inr q ↦ absurd q
            ],
  ),
  λ h.
      unfold exported_function_names in
      (collect_one_iff "interface_version_8" (selected_names m (some interface_version_prefix))).1 (
        (In-selected m (some interface_version_prefix) "interface_version_8").1 (h.0, refl),
        λ x p.
            let (ex, sw) = (In-selected m (some interface_version_prefix) x).0 p in
            let (rest, e) = (starts_with_iff x interface_version_prefix).0 sw in
            sym e ∙ ap (λ t. interface_version_prefix ++ t) (h.1 rest (rw e ex)),
      ),
)
  where
    exported :
        (x : String)
        → In x (exported_function_names m (some interface_version_prefix))
          ↔ (Exports m x × (starts_with x interface_version_prefix ≡ true))
    exported x = In-exported m (some interface_version_prefix) x

check_interface_version_iff : (m : Module) → (check_interface_version m ≡ success tt) ↔ HasVersion m
unfolding check_interface_version
check_interface_version_iff m = go (exported_function_names m (some interface_version_prefix)) refl
  where
    go :
        (l : List String)
        → exported_function_names m (some interface_version_prefix) ≡ l
        → (check_interface_version m ≡ success tt) ↔ HasVersion m
    go [] e =
        rw (check_interface_version, e) (λ h. cc, λ h. let q = (version_names_iff m).1 h in cc)
    go (v ∷ []) e =
        rw (check_interface_version, e)
          (
            λ h. (version_names_iff m).0 (e ∙ ap (λ t. t ∷ []) ((check_version_iff v).0 h)),
            λ h. let q = (version_names_iff m).1 h in (check_version_iff v).1 (cc),
          )
    go (v ∷ w ∷ r) e =
        rw (check_interface_version, e) (λ h. cc, λ h. let q = (version_names_iff m).1 h in cc)

check_exports_iff :
    (available l : List String)
    → (check_exports available l ≡ success tt) ↔ All (λ s. In s available) l
unfolding check_exports
check_exports_iff available [] = (λ h. tt, λ h. refl)
check_exports_iff available (s ∷ ss) =
    ground (arith, check_exports_iff available ss, contains_iff available s)

check_wasm_exports_iff : (m : Module) → (check_wasm_exports m ≡ success tt) ↔ HasExports m
unfolding check_wasm_exports
check_wasm_exports_iff m =
    let c = check_exports_iff (exported_function_names m none) required_exports in
    let e = λ (x : String). In-exported m none x in
    (
      λ h.
          let (p, (q, (r, _))) = c.0 h in
          (((e "allocate").0 p).0, ((e "deallocate").0 q).0, ((e "instantiate").0 r).0),
      λ h. c.1 (
        (e "allocate").1 (h.0, refl),
        ((e "deallocate").1 (h.1, refl), ((e "instantiate").1 (h.2, refl), tt)),
      ),
    )

-- A refusal whose message has a limited text in it.
refused :
    (shown : Outcome String) (e : String → VmError)
    → (run shown >>= λ t. failure (e t)) ≡ success (tt {0})
    → ⊥
refused (returns t) e h = cc
refused panics e h = cc

check_imports_iff :
    (names : StringSet) (l : List ImportEntry)
    → (check_imports names supported_imports l ≡ success tt) ↔ All IsGiven l
unfolding check_imports
check_imports_iff names [] = (λ h. tt, λ h. refl)
check_imports_iff names (ie ∷ rest) =
    go (check_imports_iff names rest) (contains supported_imports (full_import_name ie)) refl
  where
    supported :
        (contains supported_imports (full_import_name ie) ≡ true)
        ↔ ((ie.from ≡ "env") × In ie.field imports_of_env)
    supported =
        let a = contains_iff supported_imports (full_import_name ie) in
        let b = In-full_import_name ie imports_of_env (omega arith) in
        (λ h. b.0 (a.0 h), λ h. a.1 (b.1 h))

    go :
        (check_imports names supported_imports rest ≡ success tt) ↔ All IsGiven rest
        → (b : Bool) → contains supported_imports (full_import_name ie) ≡ b
        → (check_imports names supported_imports (ie ∷ rest) ≡ success tt) ↔ All IsGiven (ie ∷ rest)
    go ih false e =
        rw (check_imports, e)
          (
            λ h. absurd (refused _ _ h),
            λ h. let c : Path Bool false true = sym e ∙ supported.1 (h.0.0, h.0.1) in cc,
          )
    go ih true e = kinds ie.external refl
      where
        kinds :
            (k : Kind)
            → ie.external ≡ k
            → (check_imports names supported_imports (ie ∷ rest) ≡ success tt)
              ↔ All IsGiven (ie ∷ rest)
        kinds function q =
            rw (check_imports, e, q)
              (λ h. (((supported.0 e).0, (supported.0 e).1, refl), ih.0 h), λ h. ih.1 h.1)
        kinds table q = rw (check_imports, e, q) (λ h. cc, λ h. let x = h.0.2 in cc)
        kinds memory q = rw (check_imports, e, q) (λ h. cc, λ h. let x = h.0.2 in cc)
        kinds global q = rw (check_imports, e, q) (λ h. cc, λ h. let x = h.0.2 in cc)

check_wasm_features_iff :
    (m : Module) (supported : StringSet)
    → (check_wasm_features m supported ≡ success tt) ↔ HasFeatures supported m
unfolding check_wasm_features
check_wasm_features_iff m supported =
    go (is_subset (required_features_from_module m) supported) refl
  where
    go :
        (b : Bool)
        → is_subset (required_features_from_module m) supported ≡ b
        → (check_wasm_features m supported ≡ success tt) ↔ HasFeatures supported m
    go true e =
        rw (check_wasm_features, e)
          (
            λ h f ne ex. (is_subset_iff _ supported).0 e f ((In-required_features m f).1 (ne, ex)),
            λ h. refl,
          )
    go false e =
        rw (check_wasm_features, e)
          (
            λ h. absurd (refused _ _ h),
            λ h.
                let t =
                  (is_subset_iff (required_features_from_module m) supported).1
                    (λ f p. let (ne, ex) = (In-required_features m f).0 p in h f ne ex) in
                let c : Path Bool false true = sym e ∙ t in cc,
          )

-- The five checks of a module.
abbrev pub checks : Module → StringSet → Call VmError (Unit {0})
checks m supported = do
  check_wasm_memories m
  check_interface_version m
  check_wasm_exports m
  check_wasm_imports m supported_imports
  check_wasm_features m supported
  success tt

checks_iff :
    (m : Module) (supported : StringSet)
    → (checks m supported ≡ success tt) ↔ IsCompatible supported m
unfolding check_wasm_imports
checks_iff m supported = (
  λ h. after (check_wasm_memories m) _ h λ _ e1 h1.
      after (check_interface_version m) _ h1 λ _ e2 h2. after (check_wasm_exports m) _ h2 λ _ e3 h3.
        after (check_wasm_imports m supported_imports) _ h3 λ _ e4 h4.
          after (check_wasm_features m supported) _ h4 λ _ e5 h5. record {
            one_memory = (check_wasm_memories_iff m).0 e1;
            version = (check_interface_version_iff m).0 e2;
            exports = (check_wasm_exports_iff m).0 e3;
            imports =
                (check_imports_iff (collect (map full_import_name (entries m.import_section))) _).0
                  e4;
            features = (check_wasm_features_iff m supported).0 e5;
          },
  λ h.
      let e4 : check_wasm_imports m supported_imports ≡ success tt =
        (check_imports_iff (collect (map full_import_name (entries m.import_section))) _).1
          h.imports in
      rw
        (
          (check_wasm_memories_iff m).1 h.one_memory,
          (check_interface_version_iff m).1 h.version,
          (check_wasm_exports_iff m).1 h.exports,
          e4,
          (check_wasm_features_iff m supported).1 h.features,
        )
        refl,
)

-- `check_wasm` accepts a code exactly when it decodes to a module that has one memory, of at most
-- 512 pages and with no maximum; that exports the interface version 8 and no other, and the
-- functions `allocate`, `deallocate` and `instantiate`; that imports nothing but functions which the
-- VM gives in the module "env"; and each feature that it requires is supported.
pub check_wasm_iff :
    (deserialize_buffer : Bytes → Result String Module) (wasm_code : Bytes) (supported : StringSet)
    → (check_wasm deserialize_buffer wasm_code supported ≡ success tt)
      ↔ ((m : Module) × (deserialize_buffer wasm_code ≡ ok m) × IsCompatible supported m)
unfolding check_wasm deserialize_wasm
check_wasm_iff deserialize_buffer wasm_code supported = go (deserialize_buffer wasm_code) refl
  where
    go :
        (r : Result String Module)
        → deserialize_buffer wasm_code ≡ r
        → (check_wasm deserialize_buffer wasm_code supported ≡ success tt)
          ↔ ((m : Module) × (deserialize_buffer wasm_code ≡ ok m) × IsCompatible supported m)
    go (err x) e = rw (check_wasm, deserialize_wasm, e) (λ h. cc, λ h. let (m, p, q) = h in cc)
    go (ok m) e =
        rw (check_wasm, deserialize_wasm, e)
          (
            λ h. (m, refl, (checks_iff m supported).0 h),
            λ h. let (m', p, q) = h in let t : m ≡ m' = cc in (checks_iff m supported).1 (rw t q),
          )
