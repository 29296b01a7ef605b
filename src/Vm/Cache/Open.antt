-- ===== src/Vm/Cache/Open.antt =====
-- packages/vm/src/cache.rs: `Cache::new` on a disk whose modules can be trusted, which the source
-- marks as unsafe because nothing checks it.
use cosmwasm.Base.{
  ℕ, suc, ◌≡◌, ◌≢◌, refl, sym, ap, ◌∙◌, Option, none, some, [], ◌∷◌, Bool, true, false, Result, ok,
  err, if◌then◌else◌, ltb, and_then, length, arith,
}
use mathlib.Core.Path.{subst}
use cosmwasm.Bytes.{Bytes, IsBytes}
use cosmwasm.Vm.Errors.{VmError}
use cosmwasm.Vm.Checksum.{to_hex}
use cosmwasm.Vm.Modules.{
  Engine, Disk, Lru, SizedModule, FilePath, join, IoError, Metadata, Act, ◌>>=◌, pure, gets,
  or_cache_err, after, ok-inj,
}
use cosmwasm.Vm.Modules.PinnedMemoryCache
use cosmwasm.Vm.Modules.InMemoryCache
use cosmwasm.Vm.Modules.FileSystemCache.{FileSystemCache, module_file, latest_modules_path, usable}
use cosmwasm.Vm.Cache.{
  Cache, CacheOptions, new, create_dir, open_fs_cache, state_dir, cache_dir, modules_dir, wasm_dir,
  no_hits,
}
use cosmwasm.Vm.Cache.Sound.{IsDisk, IsLru, IsGenuine, IsSound, HeldBy}

length-join : (p : FilePath) (x : Bytes) → length (join p x) ≡ suc (length p)
length-join [] x = refl
length-join (y ∷ p) x = ap suc (length-join p x)

-- Blobs and modules are in directories of different depth.
paths_apart :
    (base : FilePath) (version a k : Bytes)
    → join (join (join base state_dir) wasm_dir) a
      ≢ module_file
          (record {
            base_path = join (join base cache_dir) modules_dir;
            wasmer_module_version = version;
          })
          k
unfolding latest_modules_path
paths_apart base version a k e = absurd (
    omega (
      arith,
      ap length e,
      length-join (join (join base state_dir) wasm_dir) a,
      length-join (join base state_dir) wasm_dir,
      length-join base state_dir,
      length-join
          (latest_modules_path (record {
            base_path = join (join base cache_dir) modules_dir;
            wasmer_module_version = version;
          }))
          (to_hex k),
      length-join (join (join base cache_dir) modules_dir) _,
      length-join (join base cache_dir) modules_dir,
      length-join base cache_dir,
    ))

-- The directory of the modules of a new cache.
abbrev pub modules_of : Bytes → CacheOptions → FileSystemCache
modules_of version options = record {
  base_path = join (join options.base_dir cache_dir) modules_dir;
  wasmer_module_version = version;
}

module _ {M D L : Type 0} (engine : Engine M) {files : Disk D M} {lru : Lru L M}
    (disk : IsDisk engine files) (forgets : IsLru lru) where
  nothing_pinned :
      (k : Bytes) (v : SizedModule M) → PinnedMemoryCache.get PinnedMemoryCache.new k ≡ some v → ⊥
  unfolding PinnedMemoryCache.get
  nothing_pinned k v h = cc

  -- A step that leaves every module as it is.
  abbrev Same : D → D → Type 0
  Same d d' =
      (s : Option ℕ) (q : FilePath)
      → files.deserialize_from_file d' s q ≡ files.deserialize_from_file d s q

  create_dir-Same :
      (p : FilePath) (d d' : D) (u : Unit {0}) → create_dir files lru p d ≡ (ok u, d') → Same d d'
  create_dir-Same p d d' u h s q =
      ap (λ x. files.deserialize_from_file x s q) (sym (ap (λ x. x.1) h))
      ∙ disk.create-deserialize d p q s

  opened-Same :
      (version : Bytes) (p : FilePath) (d d' : D) (fs : FileSystemCache)
      → open_fs_cache files lru version p d ≡ (ok fs, d')
      → (record { base_path = p; wasmer_module_version = version } ≡ fs) × Same d d'
  unfolding open_fs_cache
  opened-Same version p d d' fs h = go (files.exists d p) h
    where
      cache : FileSystemCache
      cache = record { base_path = p; wasmer_module_version = version }

      opened : Bool → Result IoError FileSystemCache × D
      opened there =
          if there
          then (
            and_then (files.metadata d p) (λ found. and_then (usable found) (λ done. ok cache)),
            d,
          )
          else (
            and_then (files.create_dir_all d p).0 (λ done. ok cache),
            (files.create_dir_all d p).1,
          )

      found_cache :
          (r : Result IoError Metadata)
          → or_cache_err "Error file system cache"
              (and_then r (λ found. and_then (usable found) (λ done. ok cache)))
            ≡ ok fs
          → cache ≡ fs
      found_cache (err e) h = cc
      found_cache (ok found) h = fits (usable found) h
        where
          fits :
              (r : Result IoError (Unit {0}))
              → or_cache_err "Error file system cache" (and_then r (λ done. ok cache)) ≡ ok fs
              → cache ≡ fs
          fits (err e) h = cc
          fits (ok done) h = ok-inj h

      made_cache :
          (r : Result IoError (Unit {0}))
          → or_cache_err "Error file system cache" (and_then r (λ done. ok cache)) ≡ ok fs
          → cache ≡ fs
      made_cache (err e) h = cc
      made_cache (ok done) h = ok-inj h

      go :
          (there : Bool)
          → Path
              (Result VmError FileSystemCache × D)
              (or_cache_err "Error file system cache" (opened there).0, (opened there).1)
              (ok fs, d')
          → (cache ≡ fs) × Same d d'
      go true h = (
        found_cache (files.metadata d p) (ap (λ x. x.0) h),
        λ s q. ap (λ x. files.deserialize_from_file x.1 s q) (sym h),
      )
      go false h = (
        made_cache (files.create_dir_all d p).0 (ap (λ x. x.0) h),
        λ s q.
            ap (λ x. files.deserialize_from_file x.1 s q) (sym h) ∙ disk.create-deserialize d p q s,
      )

  empty_memory :
      (n : ℕ) (k : Bytes) (m : M) → HeldBy engine files forgets (InMemoryCache.new lru n) k m → ⊥
  unfolding InMemoryCache.new
  empty_memory n k m held = go (ltb 0 n) held
    where
      go :
          (b : Bool)
          → HeldBy engine files forgets (if b then some (lru.with_config n) else none) k m
          → ⊥
      go true held = forgets.with_config-Holds n k m held
      go false held = held

  pub new-IsSound :
      (version : Bytes) (options : CacheOptions) (d d' : D) (c : Cache M D L)
      → ((k : Bytes) (m : M)
          → IsBytes k
          → files.deserialize_from_file d
              (some options.instance_memory_limit)
              (module_file (modules_of version options) k)
            ≡ ok m
          → IsGenuine engine options.instance_memory_limit k m)
      → new files lru version options d ≡ (ok c, d')
      → IsSound engine files forgets options.instance_memory_limit c
  unfolding new
  new-IsSound version options d d' c trusted h =
      let state_path = join options.base_dir state_dir in
      let cache_path = join options.base_dir cache_dir in
      let wasm_path = join state_path wasm_dir in
      let fresh : FileSystemCache → D → Cache M D L = λ fs x. record {
        wasm_path = wasm_path;
        instance_memory_limit = options.instance_memory_limit;
        pinned_memory_cache = PinnedMemoryCache.new;
        memory_cache = InMemoryCache.new lru options.memory_cache_size;
        fs_cache = fs;
        stats = no_hits;
        disk = x;
      } in
      let last : FileSystemCache → Act D (Cache M D L) =
        λ fs. gets (λ x. x) >>= λ x. pure (fresh fs x) in
      let third : Unit {0} → Act D (Cache M D L) =
        λ _. open_fs_cache files lru version (join cache_path modules_dir) >>= last in
      let second : Unit {0} → Act D (Cache M D L) = λ _. create_dir files lru wasm_path >>= third in
      let first : Unit {0} → Act D (Cache M D L) =
        λ _. create_dir files lru cache_path >>= second in
      after (create_dir files lru state_path) first d h λ u1 d1 e1 h1.
        after (create_dir files lru cache_path) second d1 h1 λ u2 d2 e2 h2.
          after (create_dir files lru wasm_path) third d2 h2 λ u3 d3 e3 h3.
            after (open_fs_cache files lru version (join cache_path modules_dir)) last d3 h3
              λ fs d4 e4 h4.
                let (same_fs, same4) =
                  opened-Same version (join cache_path modules_dir) d3 d4 fs e4 in
                let made : fresh (modules_of version options) d4 ≡ c =
                  ap (λ x. fresh x d4) same_fs ∙ ok-inj (ap (λ x. x.0) h4) in
                let sound : IsSound engine files forgets options.instance_memory_limit
                    (fresh (modules_of version options) d4) =
                  record {
                    same_limit = refl;
                    pinned = λ k v h. absurd (nothing_pinned k v h);
                    in_memory =
                        λ k m held. absurd (empty_memory options.memory_cache_size k m held);
                    on_disk = λ k m bytes h.
                        let q = module_file (modules_of version options) k in
                        let s = some options.instance_memory_limit in
                        trusted k m bytes (
                          sym (
                            same4 s q
                            ∙ create_dir-Same wasm_path d2 d3 u3 e3 s q
                            ∙ create_dir-Same cache_path d1 d2 u2 e2 s q
                            ∙ create_dir-Same state_path d d1 u1 e1 s q)
                          ∙ h);
                    apart = λ a k. paths_apart options.base_dir version a k;
                  } in
                subst (IsSound engine files forgets options.instance_memory_limit) made sound
