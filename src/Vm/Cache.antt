-- ===== src/Vm/Cache.antt =====
-- packages/vm/src/cache.rs: compiled contracts. A method takes the checksum and then the state, and
-- returns its result and the state after it. The lock and the creation of an instance are not here.
pub mod Sound
pub mod Keeps
pub mod Written
pub mod Methods
pub mod Pinning
pub mod History
pub mod Pin
pub mod Blob
pub mod Open
pub mod Checked
use Prim.Native.String.{String}
use cosmwasm.Base.{
  and_then, ℕ, ◌+◌, ◌%◌, ◌^◌, Option, none, some, List, [], ◌∷◌, ◌++◌, Bool, true, false, Result,
  ok, err, if◌then◌else◌,
}
use cosmwasm.Bytes.{Bytes}
use cosmwasm.Vm.Errors.{VmError, cache_err, integrity_err}
use cosmwasm.Vm.Checksum.{to_hex}
use cosmwasm.Vm.Modules.{
  Engine, Disk, Lru, FilePath, join, SizedModule, Act, ◌>>=◌, ◌>>◌, pure, lift, gets, or_cache_err,
}
use cosmwasm.Vm.Modules.PinnedMemoryCache
use cosmwasm.Vm.Modules.PinnedMemoryCache.{PinnedMemoryCache, same}
use cosmwasm.Vm.Modules.InMemoryCache
use cosmwasm.Vm.Modules.InMemoryCache.{InMemoryCache}
use cosmwasm.Vm.Modules.FileSystemCache
use cosmwasm.Vm.Modules.FileSystemCache.{FileSystemCache}

pub record Stats : Type 0 where
  pub hits_pinned_memory_cache : ℕ
  pub hits_memory_cache : ℕ
  pub hits_fs_cache : ℕ
  pub misses : ℕ

-- `CacheInner`, with the disk that its paths are on.
pub record Cache (M D L : Type 0) : Type 0 where
  pub wasm_path : FilePath
  pub instance_memory_limit : ℕ
  pub pinned_memory_cache : PinnedMemoryCache M
  pub memory_cache : InMemoryCache L
  pub fs_cache : FileSystemCache
  pub stats : Stats
  pub disk : D

-- `+= 1` of a `u32` in a release build.
abbrev pub tick : ℕ → ℕ
tick n = (n + 1) % 2 ^ 32

-- `supported_features` is for `check_wasm` only.
pub record CacheOptions : Type 0 where
  pub base_dir : FilePath
  pub memory_cache_size : ℕ
  pub instance_memory_limit : ℕ

-- "state", "wasm", "cache" and "modules"
abbrev pub state_dir : Bytes
state_dir = 115 ∷ 116 ∷ 97 ∷ 116 ∷ 101 ∷ []

abbrev pub wasm_dir : Bytes
wasm_dir = 119 ∷ 97 ∷ 115 ∷ 109 ∷ []

abbrev pub cache_dir : Bytes
cache_dir = 99 ∷ 97 ∷ 99 ∷ 104 ∷ 101 ∷ []

abbrev pub modules_dir : Bytes
modules_dir = 109 ∷ 111 ∷ 100 ∷ 117 ∷ 108 ∷ 101 ∷ 115 ∷ []

abbrev pub no_hits : Stats
no_hits = record {
  hits_pinned_memory_cache = 0;
  hits_memory_cache = 0;
  hits_fs_cache = 0;
  misses = 0;
}

-- `Cache::new`, on a disk.
module _ {M D L : Type 0} (files : Disk D M) (lru : Lru L M) where
  abbrev pub create_dir : FilePath → Act D (Unit {0})
  create_dir path disk =
      let (made, disk') = files.create_dir_all disk path in
      (or_cache_err "Error creating directory" made, disk')

  unfoldable pub open_fs_cache : Bytes → FilePath → Act D FileSystemCache
  unfolding FileSystemCache.new
  open_fs_cache version path disk =
      let (opened, disk') = FileSystemCache.new files version path disk in
      (or_cache_err "Error file system cache" opened, disk')

  unfoldable pub new : Bytes → CacheOptions → Act D (Cache M D L)
  unfolding open_fs_cache InMemoryCache.new
  new wasmer_module_version options = do
    let state_path = join options.base_dir state_dir
    let cache_path = join options.base_dir cache_dir
    let wasm_path = join state_path wasm_dir
    create_dir state_path
    create_dir cache_path
    create_dir wasm_path
    fs_cache ← open_fs_cache wasmer_module_version (join cache_path modules_dir)
    disk ← gets (λ disk. disk)
    pure (record {
      wasm_path = wasm_path;
      instance_memory_limit = options.instance_memory_limit;
      pinned_memory_cache = PinnedMemoryCache.new;
      memory_cache = InMemoryCache.new lru options.memory_cache_size;
      fs_cache = fs_cache;
      stats = no_hits;
      disk = disk;
    })

module _ {M D L : Type 0} (engine : Engine M) (files : Disk D M) (lru : Lru L M) where
  abbrev pub hit_pinned : Act (Cache M D L) (Unit {0})
  hit_pinned c = (
    ok tt,
    record c {
      stats = record (c.stats) { hits_pinned_memory_cache = tick c.stats.hits_pinned_memory_cache };
    },
  )

  abbrev pub hit_memory : Act (Cache M D L) (Unit {0})
  hit_memory c = (
    ok tt,
    record c { stats = record (c.stats) { hits_memory_cache = tick c.stats.hits_memory_cache } },
  )

  abbrev pub hit_fs : Act (Cache M D L) (Unit {0})
  hit_fs c =
      (ok tt, record c { stats = record (c.stats) { hits_fs_cache = tick c.stats.hits_fs_cache } })

  abbrev pub miss : Act (Cache M D L) (Unit {0})
  miss c = (ok tt, record c { stats = record (c.stats) { misses = tick c.stats.misses } })

  -- `compile` of wasm_backend/compile.rs, with the size that is measured.
  unfoldable pub compile : Bytes → Option ℕ → Result VmError M
  compile code memory_limit = engine.new_module memory_limit code

  unfoldable pub memory_load : Bytes → Act (Cache M D L) (Option (SizedModule M))
  unfolding InMemoryCache.load
  memory_load checksum c =
      let (found, cache') = InMemoryCache.load lru c.memory_cache checksum in
      (ok found, record c { memory_cache = cache' })

  unfoldable pub memory_store : Bytes → M → Act (Cache M D L) (Unit {0})
  unfolding InMemoryCache.store
  memory_store checksum code_module c =
      elim (InMemoryCache.store lru c.memory_cache checksum code_module
        (engine.size_of_val code_module)) [
          | ok cache' ↦ (ok tt, record c { memory_cache = cache' })
          | err e ↦ (err e, c)
        ]

  unfoldable pub pinned_store : Bytes → M → ℕ → Act (Cache M D L) (Unit {0})
  unfolding PinnedMemoryCache.store
  pinned_store checksum code_module size c = (
    ok tt,
    record c {
      pinned_memory_cache = PinnedMemoryCache.store c.pinned_memory_cache checksum code_module size;
    },
  )

  unfoldable pub fs_load : Bytes → Act (Cache M D L) (Option M)
  unfolding FileSystemCache.load
  fs_load checksum c =
      (FileSystemCache.load files c.fs_cache c.disk checksum (some c.instance_memory_limit), c)

  unfoldable pub fs_store : Bytes → M → Act (Cache M D L) (Unit {0})
  unfolding FileSystemCache.store
  fs_store checksum code_module c =
      let (r, disk') = FileSystemCache.store files c.fs_cache c.disk checksum code_module in
      (r, record c { disk = disk' })

  unfoldable pub save_wasm_to_disk : Bytes → Act (Cache M D L) Bytes
  unfolding to_hex
  save_wasm_to_disk wasm c =
      let checksum = engine.sha256 wasm in
      let filepath = join c.wasm_path (to_hex checksum) in
      let (opened, disk1) = files.open_for_writing c.disk filepath in
      elim (or_cache_err "Error opening Wasm file for writing" opened) [
        | err e ↦ (err e, record c { disk = disk1 })
        | ok done ↦
            let (written, disk2) = files.write_all disk1 filepath wasm in
            elim (or_cache_err "Error writing Wasm file" written) [
              | err e ↦ (err e, record c { disk = disk2 })
              | ok done ↦ (ok checksum, record c { disk = disk2 })
            ]
      ]

  unfoldable pub load_wasm_from_disk : FilePath → Bytes → D → Result VmError Bytes
  unfolding to_hex
  load_wasm_from_disk dir checksum disk =
      let path = join dir (to_hex checksum) in
      elim (or_cache_err "Error opening Wasm file for reading" (files.open_for_reading disk path)) [
        | err e ↦ err e
        | ok done ↦ or_cache_err "Error reading Wasm file" (files.read_to_end disk path)
      ]

  -- The integrity check.
  unfoldable pub load_wasm : Bytes → Act (Cache M D L) Bytes
  unfolding load_wasm_from_disk
  load_wasm checksum c = (
    and_then (load_wasm_from_disk c.wasm_path checksum c.disk)
        (λ code. if same (engine.sha256 code) checksum then ok code else err integrity_err),
    c,
  )

  -- `check_wasm` is given.
  unfoldable pub save_wasm : (Bytes → Result VmError (Unit {0})) → Bytes → Act (Cache M D L) Bytes
  unfolding compile save_wasm_to_disk fs_store
  save_wasm check_wasm wasm = do
    lift (check_wasm wasm)
    compiled ← lift (compile wasm none)
    checksum ← save_wasm_to_disk wasm
    fs_store checksum compiled
    pure checksum

  -- The end of `pin`, for code that no cache holds.
  unfoldable pub pin_from_wasm : Bytes → Act (Cache M D L) (Unit {0})
  unfolding load_wasm compile fs_store pinned_store
  pin_from_wasm checksum = do
    code ← load_wasm checksum
    limit ← gets (λ c. c.instance_memory_limit)
    compiled ← lift (compile code (some limit))
    fs_store checksum compiled
    pinned_store checksum compiled (engine.size_of_val compiled)

  unfoldable pub pin_from_disk : Bytes → Act (Cache M D L) (Unit {0})
  unfolding fs_load pinned_store pin_from_wasm
  pin_from_disk checksum = do
    loaded ← fs_load checksum
    elim loaded [
      | some compiled ↦ hit_fs >> pinned_store checksum compiled (engine.size_of_val compiled)
      | none ↦ pin_from_wasm checksum
    ]

  unfoldable pub pin : Bytes → Act (Cache M D L) (Unit {0})
  unfolding memory_load pinned_store pin_from_disk PinnedMemoryCache.has
  pin checksum = do
    pinned ← gets (λ c. PinnedMemoryCache.has c.pinned_memory_cache checksum)
    elim pinned [
      | true ↦ pure tt
      | false ↦ (do
        held ← memory_load checksum
        elim held [
          | some sized ↦ hit_memory >> pinned_store checksum sized.code_module sized.size
          | none ↦ pin_from_disk checksum
        ])
    ]

  unfoldable pub unpin : Bytes → Act (Cache M D L) (Unit {0})
  unfolding PinnedMemoryCache.remove
  unpin checksum c = (
    ok tt,
    record c { pinned_memory_cache = PinnedMemoryCache.remove c.pinned_memory_cache checksum },
  )

  -- The end of `get_module`, for code that no cache holds.
  unfoldable pub get_from_wasm : Bytes → Act (Cache M D L) M
  unfolding load_wasm compile fs_store memory_store
  get_from_wasm checksum = do
    wasm ← load_wasm checksum
    miss
    limit ← gets (λ c. c.instance_memory_limit)
    compiled ← lift (compile wasm (some limit))
    fs_store checksum compiled
    memory_store checksum compiled
    pure compiled

  unfoldable pub get_from_disk : Bytes → Act (Cache M D L) M
  unfolding fs_load memory_store get_from_wasm
  get_from_disk checksum = do
    loaded ← fs_load checksum
    elim loaded [
      | some compiled ↦ hit_fs >> (memory_store checksum compiled >> pure compiled)
      | none ↦ get_from_wasm checksum
    ]

  unfoldable pub get_module : Bytes → Act (Cache M D L) M
  unfolding memory_load get_from_disk PinnedMemoryCache.load
  get_module checksum = do
    pinned ← gets (λ c. PinnedMemoryCache.load c.pinned_memory_cache checksum)
    elim pinned [
      | some compiled ↦ hit_pinned >> pure compiled
      | none ↦ (do
        held ← memory_load checksum
        elim held [
          | some sized ↦ hit_memory >> pure sized.code_module
          | none ↦ get_from_disk checksum
        ])
    ]
