-- ===== src/Vm/Cache/History.antt =====
-- packages/vm/src/cache.rs: the methods in any order, whether they succeed or not.
use cosmwasm.Base.{some, ℕ, ◌≡◌, Result, ok}
use cosmwasm.Bytes.{Bytes, IsBytes}
use cosmwasm.Vm.Errors.{VmError}
use cosmwasm.Vm.Modules.{Engine, Disk, Lru}
use cosmwasm.Vm.Cache.{Cache, CacheOptions, new, save_wasm, pin, unpin, get_module}
use cosmwasm.Vm.Cache.Sound.{IsEngine, IsDisk, IsLru, IsGenuine, IsSound}
use cosmwasm.Vm.Modules.FileSystemCache.{module_file}
use cosmwasm.Vm.Cache.Open.{modules_of, new-IsSound}
use cosmwasm.Vm.Cache.Methods.{save_wasm_keeps, unpin_keeps, get_module_keeps}
use cosmwasm.Vm.Cache.Pinning.{pin_keeps}

-- A call of a method takes one state to the next, also where it fails. A checksum is 32 bytes.
pub data Step {M D L : Type 0} (engine : Engine M) (files : Disk D M) (lru : Lru L M)
    : Cache M D L → Cache M D L → Type 0 where
  saved :
      (check_wasm : Bytes → Result VmError (Unit {0})) (wasm : Bytes) (c : Cache M D L)
      → Step engine files lru c (save_wasm engine files lru check_wasm wasm c).1
  pinned :
      (k : Bytes) (c : Cache M D L)
      → IsBytes k
      → Step engine files lru c (pin engine files lru k c).1
  unpinned : (k : Bytes) (c : Cache M D L) → Step engine files lru c (unpin engine files lru k c).1
  got :
      (k : Bytes) (c : Cache M D L)
      → IsBytes k
      → Step engine files lru c (get_module engine files lru k c).1

pub data History {M D L : Type 0} (engine : Engine M) (files : Disk D M) (lru : Lru L M)
    : Cache M D L → Cache M D L → Type 0 where
  start : (c : Cache M D L) → History engine files lru c c
  step :
      (c c' c'' : Cache M D L)
      → History engine files lru c c'
      → Step engine files lru c' c''
      → History engine files lru c c''

module _ {M D L : Type 0} {engine : Engine M} {files : Disk D M} {lru : Lru L M}
    (law : IsEngine engine) (disk : IsDisk engine files) (forgets : IsLru lru) (limit : ℕ) where
  Step-IsSound :
      (c c' : Cache M D L)
      → Step engine files lru c c'
      → IsSound engine files forgets limit c
      → IsSound engine files forgets limit c'
  Step-IsSound c c' (saved check_wasm wasm c0) sound =
      (save_wasm_keeps disk forgets limit check_wasm wasm law c sound).0
  Step-IsSound c c' (pinned k c0 bytes) sound = (pin_keeps disk forgets limit k bytes c sound).0
  Step-IsSound c c' (unpinned k c0) sound = (unpin_keeps disk forgets limit k c sound).0
  Step-IsSound c c' (got k c0 bytes) sound = (get_module_keeps disk forgets limit k bytes c sound).0

  pub History-IsSound :
      (c c' : Cache M D L)
      → History engine files lru c c'
      → IsSound engine files forgets limit c
      → IsSound engine files forgets limit c'
  History-IsSound c c' (start c0) sound = sound
  History-IsSound c c' (step c0 c1 c2 before last) sound =
      Step-IsSound c1 c' last (History-IsSound c c1 before sound)

-- Whatever was saved, pinned, unpinned and got since the cache was opened, in any order and with any
-- failures of the disk: a module that get_module returns for a checksum has the artifact that the
-- compiler makes, with or without a limit, of code with this checksum, and belongs to a store with
-- the memory limit of the cache, also where the artifact on the disk was compiled by save_wasm without a limit. The modules
-- on the disk were such when the cache was opened, a module belongs to the store in which it was
-- compiled or read, and the compiler, the disk and the map of the memory cache keep their laws.
pub get_module-IsGenuine :
    {M D L : Type 0} {engine : Engine M} {files : Disk D M} {lru : Lru L M} (law : IsEngine engine)
    (disk : IsDisk engine files) (forgets : IsLru lru) (version : Bytes) (options : CacheOptions)
    (d d' : D) (c c' : Cache M D L) (k : Bytes) (m : M)
    → ((j : Bytes) (n : M)
        → IsBytes j
        → files.deserialize_from_file d
            (some options.instance_memory_limit)
            (module_file (modules_of version options) j)
          ≡ ok n
        → IsGenuine engine options.instance_memory_limit j n)
    → new files lru version options d ≡ (ok c, d')
    → History engine files lru c c'
    → IsBytes k
    → (get_module engine files lru k c').0 ≡ ok m
    → IsGenuine engine options.instance_memory_limit k m
get_module-IsGenuine {engine = engine} law disk forgets version options d d' c c' k m trusted opened
      history bytes h =
    let limit = options.instance_memory_limit in
    let sound = new-IsSound engine disk forgets version options d d' c trusted opened in
    (get_module_keeps disk forgets limit k bytes c'
        (History-IsSound law disk forgets limit c c' history sound)).1
      m h
