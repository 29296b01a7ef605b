-- ===== src/Tests/Caches.antt =====
-- The theorems on the module cache, over an empty disk.
use cosmwasm.Base.{◌≡◌, refl, arith, none, some, [], ◌∷◌, Result, ok}
use cosmwasm.Bytes.{Bytes, cmp}
use cosmwasm.Vm.Errors.{VmError}
use cosmwasm.Vm.Checksum.{to_hex}
use cosmwasm.Vm.Modules.PinnedMemoryCache
use cosmwasm.Vm.Cache.Open.{modules_of}
use cosmwasm.Vm.Cache.{
  CacheOptions, new, state_dir, wasm_dir, no_hits, Cache, tick, save_wasm, pin, get_module,
  load_wasm,
}
use cosmwasm.Vm.Cache.Sound.{IsGenuine}
use cosmwasm.Vm.Cache.History.{start, step, saved, get_module-IsGenuine}
use cosmwasm.Vm.Cache.Pin.{get_module-pin}
use cosmwasm.Vm.Cache.Blob.{load_wasm-save_wasm}
use cosmwasm.Tests.Disks.{
  Compiled, engine, engine-IsEngine, Files, absent, files, files-IsDisk, files-IsFiles, Slot, slot,
  slot-IsLru, same_path,
}

abbrev pub State : Type 0
State = Cache Compiled Files Slot

abbrev pub options : CacheOptions
options = record { base_dir = []; memory_cache_size = 1; instance_memory_limit = 7 }

-- The version "1" of the format.
abbrev pub version : Bytes
version = 49 ∷ []

abbrev pub empty_disk : Files
empty_disk p = absent

abbrev pub cold : State
cold = record {
  wasm_path = state_dir ∷ wasm_dir ∷ [];
  instance_memory_limit = 7;
  pinned_memory_cache = [];
  memory_cache = some none;
  fs_cache = modules_of version options;
  stats = no_hits;
  disk = empty_disk;
}

opens : new files slot version options empty_disk ≡ (ok cold, empty_disk)
unfolding new
opens = refl

abbrev wasm : Bytes
wasm = 0 ∷ 97 ∷ 115 ∷ []

abbrev checksum : Bytes
checksum = 3 ∷ []

abbrev accept : Bytes → Result VmError (Unit {0})
accept code = ok tt

unfoldable warm : State
unfolding save_wasm
warm = (save_wasm engine files slot accept wasm cold).1

get_module-IsGenuine_example : IsGenuine engine 7 checksum (some 7, wasm)
unfolding warm get_module same_path to_hex cmp PinnedMemoryCache.get
get_module-IsGenuine_example =
    get_module-IsGenuine engine-IsEngine files-IsDisk slot-IsLru version options empty_disk
      empty_disk cold warm checksum (some 7, wasm) (λ j n bytes h. absurd (cc)) opens
      (step cold cold warm (start cold) (saved accept wasm cold)) (omega arith, tt) refl

unfoldable with_pin : State
unfolding warm pin
with_pin = (pin engine files slot checksum warm).1

get_module-pin_example :
    (m : Compiled) × (get_module engine files slot checksum with_pin ≡ (
      ok m,
      record with_pin {
        stats = record (with_pin.stats) {
          hits_pinned_memory_cache = tick with_pin.stats.hits_pinned_memory_cache;
        };
      },
    ))
unfolding with_pin same_path to_hex cmp PinnedMemoryCache.get
get_module-pin_example = get_module-pin engine files slot checksum warm with_pin refl

load_wasm-save_wasm_example : (load_wasm engine files slot checksum warm).0 ≡ ok wasm
unfolding warm same_path to_hex cmp
load_wasm-save_wasm_example =
    load_wasm-save_wasm engine slot files-IsFiles accept wasm checksum cold warm refl (λ e. cc)
