-- ===== src/Vm/Cache/Checked.antt =====
-- packages/vm/src/cache.rs and compatibility.rs together: what `save_wasm` does with a code that
-- the checks refuse. The decoder of the checks is a parameter.
use Prim.Native.String.{String}
use cosmwasm.Base.{◌≡◌, refl, sym, ap, ◌∙◌, Result, ok, err}
use cosmwasm.Base.Call.{try}
use cosmwasm.Bytes.{Bytes}
use cosmwasm.Vm.Errors.{VmError}
use cosmwasm.Vm.Text.{StringSet}
use cosmwasm.Vm.StaticAnalysis.{Module}
use cosmwasm.Vm.Compatibility
use cosmwasm.Vm.Compatibility.Described.{IsCompatible}
use cosmwasm.Vm.Compatibility.Accepts.{check_wasm_iff}
use cosmwasm.Vm.Modules.{Engine, Disk, Lru, lift}
use cosmwasm.Vm.Cache.{Cache, save_wasm}

module _ {M D L : Type 0} (engine : Engine M) (files : Disk D M) (lru : Lru L M)
    (deserialize_buffer : Bytes → Result String Module) (supported_features : StringSet)
    (check : Bytes → Result VmError (Unit {0})) where
  -- The check that the cache calls is `check_wasm`.
  abbrev pub IsCheck : Type 0
  IsCheck =
      (wasm : Bytes)
      → try (check wasm) ≡ Compatibility.check_wasm deserialize_buffer wasm supported_features

  -- A code that does not decode to a module which the VM takes is refused by `save_wasm` with an
  -- error, and the cache, its disk included, stays as it was.
  pub save_wasm_refuses :
      IsCheck
      → (wasm : Bytes) (c : Cache M D L)
      → ((m : Module) → deserialize_buffer wasm ≡ ok m → ¬ (IsCompatible supported_features m))
      → (e : VmError) × (save_wasm engine files lru check wasm c ≡ (err e, c))
  unfolding save_wasm
  save_wasm_refuses is wasm c bad = go (check wasm) refl
    where
      go :
          (r : Result VmError (Unit {0}))
          → check wasm ≡ r
          → (e : VmError) × (save_wasm engine files lru check wasm c ≡ (err e, c))
      go (err e) p = (e, rw (save_wasm, lift, p) refl)
      go (ok tt) p =
          let accepted = sym (is wasm) ∙ ap try p in
          let (m, decoded, fits) =
            (check_wasm_iff deserialize_buffer wasm supported_features).0 accepted in
          absurd (bad m decoded fits)
