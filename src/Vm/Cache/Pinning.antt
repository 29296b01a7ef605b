-- ===== src/Vm/Cache/Pinning.antt =====
-- packages/vm/src/cache.rs: `pin` keeps the cache sound.
use cosmwasm.Base.{ℕ, ◌≡◌, refl, Option, none, some, Bool, true, false}
use cosmwasm.Bytes.{Bytes, IsBytes}
use cosmwasm.Vm.Modules.{Engine, Disk, Lru, SizedModule, ◌>>=◌, ◌>>◌, lift, pure, gets}
use cosmwasm.Vm.Modules.PinnedMemoryCache
use cosmwasm.Vm.Cache.{
  memory_load, pinned_store, fs_load, fs_store, load_wasm, pin, pin_from_disk, pin_from_wasm,
  compile, hit_memory, hit_fs,
}
use cosmwasm.Vm.Cache.Sound.{IsDisk, IsLru, IsGenuine}
use cosmwasm.Vm.Cache.Keeps.{memory_load_keeps, pinned_store_keeps, fs_load_keeps}
use cosmwasm.Vm.Cache.Written.{fs_store_keeps, load_wasm_keeps}
use cosmwasm.Vm.Cache.Methods.{
  next, Keeps, limit_keeps, lift_keeps, pure_keeps, stats_keep, compiled-IsGenuine,
}

module _ {M D L : Type 0} {engine : Engine M} {files : Disk D M} {lru : Lru L M}
    (disk : IsDisk engine files) (forgets : IsLru lru) (limit : ℕ) where
  pin_from_wasm_keeps :
      (k : Bytes)
      → IsBytes k
      → Keeps disk forgets limit (pin_from_wasm engine files lru k) (λ _. Unit)
  unfolding pin_from_wasm compile
  pin_from_wasm_keeps k bytes =
      next disk forgets limit (load_wasm engine files lru k) _ (λ code. engine.sha256 code ≡ k) _
        (load_wasm_keeps disk forgets limit k)
        λ code hashed.
          next disk forgets limit (gets (λ c. c.instance_memory_limit)) _ (λ n. n ≡ limit) _
            (limit_keeps disk forgets limit)
            λ n same.
              next disk forgets limit (lift (engine.new_module (some n) code)) _ _ _
                (lift_keeps disk forgets limit (engine.new_module (some n) code))
                λ m compiled.
                  next disk forgets limit (fs_store engine files lru k m) _ (λ _. Unit) _
                    (fs_store_keeps disk forgets limit k m code (some n) bytes hashed compiled)
                    λ _ _.
                      pinned_store_keeps disk forgets limit k m (engine.size_of_val m)
                        (compiled-IsGenuine disk forgets limit k code n m hashed same compiled)

  pin_from_disk_keeps :
      (k : Bytes)
      → IsBytes k
      → Keeps disk forgets limit (pin_from_disk engine files lru k) (λ _. Unit)
  unfolding pin_from_disk
  pin_from_disk_keeps k bytes =
      next disk forgets limit (fs_load engine files lru k) _ _ _
        (fs_load_keeps disk forgets limit k bytes) λ o genuine. found o genuine
    where
      found :
          (o : Option M)
          → ((m : M) → o ≡ some m → IsGenuine engine limit k m)
          → Keeps disk forgets limit
              (elim o [
                | some compiled ↦
                    hit_fs engine files lru
                    >> pinned_store engine files lru k compiled (engine.size_of_val compiled)
                | none ↦ pin_from_wasm engine files lru k
              ])
              (λ _. Unit)
      found none genuine = pin_from_wasm_keeps k bytes
      found (some m) genuine =
          next disk forgets limit (hit_fs engine files lru) _ (λ _. Unit) _
            (λ c sound. (stats_keep disk forgets limit c _ sound, λ _ _. tt))
            λ _ _. pinned_store_keeps disk forgets limit k m (engine.size_of_val m) (genuine m refl)

  pub pin_keeps :
      (k : Bytes) → IsBytes k → Keeps disk forgets limit (pin engine files lru k) (λ _. Unit)
  unfolding pin
  pin_keeps k bytes =
      next disk forgets limit (gets (λ c. PinnedMemoryCache.has c.pinned_memory_cache k)) _
        (λ _. Unit) _ (λ c sound. (sound, λ _ _. tt)) λ b _. has b
    where
      held :
          (o : Option (SizedModule M))
          → ((v : SizedModule M) → o ≡ some v → IsGenuine engine limit k v.code_module)
          → Keeps disk forgets limit
              (elim o [
                | some sized ↦
                    hit_memory engine files lru
                    >> pinned_store engine files lru k sized.code_module sized.size
                | none ↦ pin_from_disk engine files lru k
              ])
              (λ _. Unit)
      held none genuine = pin_from_disk_keeps k bytes
      held (some v) genuine =
          next disk forgets limit (hit_memory engine files lru) _ (λ _. Unit) _
            (λ c sound. (stats_keep disk forgets limit c _ sound, λ _ _. tt))
            λ _ _. pinned_store_keeps disk forgets limit k v.code_module v.size (genuine v refl)

      has :
          (b : Bool)
          → Keeps disk forgets limit
              (elim b [
                | true ↦ pure tt
                | false ↦
                    (memory_load engine files lru k >>= λ found. elim found [
                      | some sized ↦
                          hit_memory engine files lru
                          >> pinned_store engine files lru k sized.code_module sized.size
                      | none ↦ pin_from_disk engine files lru k
                    ])
              ])
              (λ _. Unit)
      has true = pure_keeps disk forgets limit (λ _. Unit) tt tt
      has false =
          next disk forgets limit (memory_load engine files lru k) _ _ _
            (memory_load_keeps disk forgets limit k) λ o found. held o found
