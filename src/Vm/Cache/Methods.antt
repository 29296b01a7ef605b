-- ===== src/Vm/Cache/Methods.antt =====
-- packages/vm/src/cache.rs: `get_module`, `unpin` and `save_wasm` keep the cache sound, and a module
-- that is returned belongs to the checksum.
use cosmwasm.Base.{sym, ap, ◌∙◌, ℕ, ◌≡◌, refl, Option, none, some, Result, ok}
use mathlib.Core.Path.{subst}
use cosmwasm.Bytes.{Bytes, IsBytes}
use cosmwasm.Vm.Errors.{VmError}
use cosmwasm.Vm.Modules.{ok-inj, Engine, Disk, Lru, SizedModule, Act, ◌>>=◌, ◌>>◌, lift, pure, gets}
use cosmwasm.Vm.Modules.PinnedMemoryCache
use cosmwasm.Vm.Cache.{
  Cache, Stats, memory_load, memory_store, fs_load, fs_store, load_wasm, save_wasm_to_disk,
  save_wasm, unpin, get_module, get_from_disk, get_from_wasm, compile, hit_memory, hit_fs,
  hit_pinned, miss,
}
use cosmwasm.Vm.Cache.Sound.{IsEngine, IsDisk, IsLru, IsGenuine, IsSound, Ensures, Ensures-bind}
use cosmwasm.Vm.Cache.Keeps.{memory_load_keeps, memory_store_keeps, fs_load_keeps}
use cosmwasm.Vm.Cache.Written.{fs_store_keeps, load_wasm_keeps, save_wasm_to_disk_keeps}

some-inj : {A : Type 0} {a b : A} → some a ≡ some b → a ≡ b
some-inj h = cc

module _ {M D L : Type 0} {engine : Engine M} {files : Disk D M} {lru : Lru L M}
    (disk : IsDisk engine files) (forgets : IsLru lru) (limit : ℕ) where
  abbrev pub Keeps : {A : Type 0} → Act (Cache M D L) A → (A → Type 0) → Type 0
  Keeps m Q = Ensures engine files forgets limit m Q

  pub stats_keep :
      (c : Cache M D L) (s : Stats)
      → IsSound engine files forgets limit c
      → IsSound engine files forgets limit (record c { stats = s })
  stats_keep c s sound = record {
    same_limit = sound.same_limit;
    pinned = sound.pinned;
    in_memory = sound.in_memory;
    on_disk = sound.on_disk;
    apart = sound.apart;
  }

  pub next :
      {A B : Type 0} (m : Act (Cache M D L) A) (f : A → Act (Cache M D L) B) (Q : A → Type 0)
      (R : B → Type 0)
      → Keeps m Q
      → ((a : A) → Q a → Keeps (f a) R)
      → Keeps (m >>= f) R
  next m f Q R h g = Ensures-bind engine files forgets limit m f Q R h g

  pub lift_keeps : {A : Type 0} (r : Result VmError A) → Keeps (lift r) (λ a. r ≡ ok a)
  lift_keeps r c sound = (sound, λ a h. h)

  pub pure_keeps : {A : Type 0} (Q : A → Type 0) (a : A) → Q a → Keeps (pure a) Q
  pure_keeps Q a q c sound = (sound, λ b h. subst Q (ok-inj h) q)

  pub limit_keeps : Keeps (gets (λ c. c.instance_memory_limit)) (λ n. n ≡ limit)
  limit_keeps c sound = (sound, λ n h. sym (ok-inj h) ∙ sound.same_limit)

  -- A pinned, a remembered and a stored module, and one compiled from a verified blob.
  pinned_keeps :
      (k : Bytes)
      → Keeps
          (gets (λ c. PinnedMemoryCache.load c.pinned_memory_cache k))
          (λ o. (m : M) → o ≡ some m → IsGenuine engine limit k m)
  unfolding PinnedMemoryCache.load
  pinned_keeps k c sound = (
    sound,
    λ o h m e. loaded (PinnedMemoryCache.get c.pinned_memory_cache k) refl m (ok-inj h ∙ e),
  )
    where
      loaded :
          (o : Option (SizedModule M))
          → PinnedMemoryCache.get c.pinned_memory_cache k ≡ o
          → (m : M) → (elim o [ none ↦ none | some sized ↦ some sized.code_module ]) ≡ some m
          → IsGenuine engine limit k m
      loaded none e m h = cc
      loaded (some v) e m h = subst (IsGenuine engine limit k) (some-inj h) (sound.pinned k v e)

  pub compiled-IsGenuine :
      (k code : Bytes) (n : ℕ) (m : M)
      → engine.sha256 code ≡ k
      → n ≡ limit
      → engine.new_module (some n) code ≡ ok m
      → IsGenuine engine limit k m
  compiled-IsGenuine k code n m hashed same compiled = record {
    code = code;
    hashed = hashed;
    under = some n;
    source = m;
    compiled = compiled;
    same_artifact = refl;
    limited = disk.new_module-limit (some n) code m compiled ∙ ap some same;
  }

  get_from_wasm_keeps :
      (k : Bytes) → IsBytes k → Keeps (get_from_wasm engine files lru k) (IsGenuine engine limit k)
  unfolding get_from_wasm compile
  get_from_wasm_keeps k bytes =
      next (load_wasm engine files lru k) _ (λ code. engine.sha256 code ≡ k) _
        (load_wasm_keeps disk forgets limit k)
        λ code hashed.
          next (miss engine files lru) _ (λ _. Unit) _
            (λ c sound. (stats_keep c _ sound, λ _ _. tt))
            λ _ _.
              next (gets (λ c. c.instance_memory_limit)) _ (λ n. n ≡ limit) _ limit_keeps
                λ n same.
                  next (lift (engine.new_module (some n) code)) _ _ _
                    (lift_keeps (engine.new_module (some n) code))
                    λ m compiled.
                      next (fs_store engine files lru k m) _ (λ _. Unit) _
                        (fs_store_keeps disk forgets limit k m code (some n) bytes hashed compiled)
                        λ _ _.
                          let genuine = compiled-IsGenuine k code n m hashed same compiled in
                          next (memory_store engine files lru k m) _ (λ _. Unit) _
                            (memory_store_keeps disk forgets limit k m genuine)
                            λ _ _. pure_keeps (IsGenuine engine limit k) m genuine

  get_from_disk_keeps :
      (k : Bytes) → IsBytes k → Keeps (get_from_disk engine files lru k) (IsGenuine engine limit k)
  unfolding get_from_disk
  get_from_disk_keeps k bytes =
      next (fs_load engine files lru k) _ _ _ (fs_load_keeps disk forgets limit k bytes)
        λ o genuine. found o genuine
    where
      found :
          (o : Option M)
          → ((m : M) → o ≡ some m → IsGenuine engine limit k m)
          → Keeps
              (elim o [
                | some compiled ↦
                    hit_fs engine files lru
                    >> (memory_store engine files lru k compiled >> pure compiled)
                | none ↦ get_from_wasm engine files lru k
              ])
              (IsGenuine engine limit k)
      found none genuine = get_from_wasm_keeps k bytes
      found (some m) genuine =
          next (hit_fs engine files lru) _ (λ _. Unit) _
            (λ c sound. (stats_keep c _ sound, λ _ _. tt))
            λ _ _.
              next (memory_store engine files lru k m) _ (λ _. Unit) _
                (memory_store_keeps disk forgets limit k m (genuine m refl))
                λ _ _. pure_keeps (IsGenuine engine limit k) m (genuine m refl)

  pub get_module_keeps :
      (k : Bytes) → IsBytes k → Keeps (get_module engine files lru k) (IsGenuine engine limit k)
  unfolding get_module
  get_module_keeps k bytes =
      next (gets (λ c. PinnedMemoryCache.load c.pinned_memory_cache k)) _ _ _ (pinned_keeps k)
        λ o genuine. pinned o genuine
    where
      held :
          (o : Option (SizedModule M))
          → ((v : SizedModule M) → o ≡ some v → IsGenuine engine limit k v.code_module)
          → Keeps
              (elim o [
                | some sized ↦ hit_memory engine files lru >> pure sized.code_module
                | none ↦ get_from_disk engine files lru k
              ])
              (IsGenuine engine limit k)
      held none genuine = get_from_disk_keeps k bytes
      held (some v) genuine =
          next (hit_memory engine files lru) _ (λ _. Unit) _
            (λ c sound. (stats_keep c _ sound, λ _ _. tt))
            λ _ _. pure_keeps (IsGenuine engine limit k) v.code_module (genuine v refl)

      pinned :
          (o : Option M)
          → ((m : M) → o ≡ some m → IsGenuine engine limit k m)
          → Keeps
              (elim o [
                | some compiled ↦ hit_pinned engine files lru >> pure compiled
                | none ↦
                    (memory_load engine files lru k >>= λ found. elim found [
                      | some sized ↦ hit_memory engine files lru >> pure sized.code_module
                      | none ↦ get_from_disk engine files lru k
                    ])
              ])
              (IsGenuine engine limit k)
      pinned none genuine =
          next (memory_load engine files lru k) _ _ _ (memory_load_keeps disk forgets limit k)
            λ o found. held o found
      pinned (some m) genuine =
          next (hit_pinned engine files lru) _ (λ _. Unit) _
            (λ c sound. (stats_keep c _ sound, λ _ _. tt))
            λ _ _. pure_keeps (IsGenuine engine limit k) m (genuine m refl)

  pub unpin_keeps : (k : Bytes) → Keeps (unpin engine files lru k) (λ _. Unit)
  unfolding unpin
  unpin_keeps k c sound = (
    record {
      same_limit = sound.same_limit;
      pinned =
          λ j v h. sound.pinned j v (PinnedMemoryCache.get-remove c.pinned_memory_cache j k v h);
      in_memory = sound.in_memory;
      on_disk = sound.on_disk;
      apart = sound.apart;
    },
    λ _ _. tt,
  )

  pub save_wasm_keeps :
      (check_wasm : Bytes → Result VmError (Unit {0})) (wasm : Bytes)
      → IsEngine engine
      → Keeps (save_wasm engine files lru check_wasm wasm) (λ k. engine.sha256 wasm ≡ k)
  unfolding save_wasm compile
  save_wasm_keeps check_wasm wasm law =
      next (lift (check_wasm wasm)) _ (λ _. Unit) _ (λ c sound. (sound, λ _ _. tt))
        λ _ _.
          next (lift (engine.new_module none wasm)) _ _ _ (lift_keeps (engine.new_module none wasm))
            λ m compiled.
              next (save_wasm_to_disk engine files lru wasm) _ (λ k. engine.sha256 wasm ≡ k) _
                (save_wasm_to_disk_keeps disk forgets limit wasm)
                λ k hashed.
                  next (fs_store engine files lru k m) _ (λ _. Unit) _
                    (fs_store_keeps disk forgets limit k m wasm none
                      (subst IsBytes hashed (law.sha256-IsBytes wasm)) hashed compiled)
                    λ _ _. pure_keeps (λ x. engine.sha256 wasm ≡ x) k hashed
