-- ===== src/Vm/Cache/Sound.antt =====
-- packages/vm/src/cache.rs: what the interfaces of the module cache promise, and what the cache
-- keeps: each module in it was compiled from code that has the checksum.
use cosmwasm.Base.{refl, ℕ, ◌≡◌, ◌≢◌, ◌⊎◌, Option, none, some, Result, ok, err}
use cosmwasm.Bytes.{Bytes, IsBytes}
use cosmwasm.Vm.Errors.{VmError}
use cosmwasm.Vm.Modules.{Engine, Disk, Lru, FilePath, SizedModule, join, Act, ◌>>=◌, lift}
use cosmwasm.Vm.Modules.PinnedMemoryCache
use cosmwasm.Vm.Modules.FileSystemCache.{module_file}
use cosmwasm.Vm.Cache.{Cache}

-- A checksum is made of bytes.
pub record IsEngine {M : Type 0} (engine : Engine M) : Type 0 where
  pub sha256-IsBytes : (code : Bytes) → IsBytes (engine.sha256 code)

-- A write, whether it succeeds or not, changes what is at its path only. What a file gives as a
-- module after a module was written to it is the same artifact, or what it gave before. A module
-- belongs to the store in which it was compiled or read from a file, and that has its limit.
pub record IsDisk {D M : Type 0} (engine : Engine M) (files : Disk D M) : Type 0 where
  pub create-deserialize :
      (d : D) (p q : FilePath) (s : Option ℕ)
      → files.deserialize_from_file (files.create_dir_all d p).1 s q
        ≡ files.deserialize_from_file d s q
  pub open-deserialize :
      (d : D) (p q : FilePath) (s : Option ℕ)
      → p ≢ q
      → files.deserialize_from_file (files.open_for_writing d p).1 s q
        ≡ files.deserialize_from_file d s q
  pub write-deserialize :
      (d : D) (p q : FilePath) (bytes : Bytes) (s : Option ℕ)
      → p ≢ q
      → files.deserialize_from_file (files.write_all d p bytes).1 s q
        ≡ files.deserialize_from_file d s q
  pub serialize-deserialize_ne :
      (d : D) (p q : FilePath) (m : M) (s : Option ℕ)
      → p ≢ q
      → files.deserialize_from_file (files.serialize_to_file d p m).1 s q
        ≡ files.deserialize_from_file d s q
  pub serialize-deserialize_self :
      (d : D) (p : FilePath) (m m' : M) (s : Option ℕ)
      → files.deserialize_from_file (files.serialize_to_file d p m).1 s p ≡ ok m'
      → (engine.serialize m' ≡ engine.serialize m) ⊎ (files.deserialize_from_file d s p ≡ ok m')
  pub deserialize-limit :
      (d : D) (p : FilePath) (m : M) (s : Option ℕ)
      → files.deserialize_from_file d s p ≡ ok m
      → engine.limit_of_store m ≡ s
  pub new_module-limit :
      (s : Option ℕ) (code : Bytes) (m : M)
      → engine.new_module s code ≡ ok m
      → engine.limit_of_store m ≡ s

-- A map that forgets holds only what was put into it.
pub record IsLru {L M : Type 0} (lru : Lru L M) : Type 1 where
  pub Holds : L → Bytes → M → Type 0
  pub with_config-Holds : (n : ℕ) (k : Bytes) (m : M) → Holds (lru.with_config n) k m → ⊥
  pub get-Holds :
      (l : L) (k : Bytes) (v : SizedModule M) → (lru.get l k).0 ≡ some v → Holds l k v.code_module
  pub get_keeps : (l : L) (k j : Bytes) (m : M) → Holds (lru.get l k).1 j m → Holds l j m
  pub put-Holds :
      (l l' : L) (k j : Bytes) (v : SizedModule M) (m : M)
      → lru.put_with_weight l k v ≡ ok l'
      → Holds l' j m
      → ((j ≡ k) × (m ≡ v.code_module)) ⊎ Holds l j m

-- A module for a checksum: its artifact is what the compiler makes of code with that checksum, under
-- some limit, and its store has the limit of the cache.
pub record IsGenuine {M : Type 0} (engine : Engine M) (limit : ℕ) (checksum : Bytes) (m : M)
    : Type 0 where
  pub code : Bytes
  pub hashed : engine.sha256 code ≡ checksum
  pub under : Option ℕ
  pub source : M
  pub compiled : engine.new_module under code ≡ ok source
  pub same_artifact : engine.serialize m ≡ engine.serialize source
  pub limited : engine.limit_of_store m ≡ some limit

module _ {M D L : Type 0} (engine : Engine M) (files : Disk D M) {lru : Lru L M}
    (forgets : IsLru lru) where
  abbrev pub HeldBy : Option L → Bytes → M → Type 0
  HeldBy none k m = ⊥
  HeldBy (some l) k m = forgets.Holds l k m

  -- The three caches have genuine modules only, for one limit, and the directories are apart.
  pub record IsSound (limit : ℕ) (c : Cache M D L) : Type 0 where
    pub same_limit : c.instance_memory_limit ≡ limit
    pub pinned :
        (k : Bytes) (v : SizedModule M)
        → PinnedMemoryCache.get c.pinned_memory_cache k ≡ some v
        → IsGenuine engine limit k v.code_module
    pub in_memory : (k : Bytes) (m : M) → HeldBy c.memory_cache k m → IsGenuine engine limit k m
    pub on_disk :
        (k : Bytes) (m : M)
        → IsBytes k
        → files.deserialize_from_file c.disk (some limit) (module_file c.fs_cache k) ≡ ok m
        → IsGenuine engine limit k m
    pub apart : (a k : Bytes) → join c.wasm_path a ≢ module_file c.fs_cache k

  -- A call keeps the cache sound, and what it returns has the property Q.
  abbrev pub Ensures : {A : Type 0} → ℕ → Act (Cache M D L) A → (A → Type 0) → Type 0
  Ensures limit m Q =
      (c : Cache M D L) → IsSound limit c → IsSound limit (m c).1 × ((a : _) → (m c).0 ≡ ok a → Q a)

  Ensures-result :
      {A B : Type 0} (limit : ℕ) (r : Result VmError A) (c : Cache M D L)
      (f : A → Act (Cache M D L) B) (Q : A → Type 0) (R : B → Type 0)
      → IsSound limit c
      → ((a : A) → r ≡ ok a → Q a)
      → ((a : A) → Q a → Ensures limit (f a) R)
      → IsSound limit ((lift r >>= f) c).1 × ((b : B) → ((lift r >>= f) c).0 ≡ ok b → R b)
  Ensures-result limit (ok a) c f Q R sound q g = g a (q a refl) c sound
  Ensures-result limit (err e) c f Q R sound q g = (sound, λ b h. cc)

  pub Ensures-bind :
      {A B : Type 0} (limit : ℕ) (m : Act (Cache M D L) A) (f : A → Act (Cache M D L) B)
      (Q : A → Type 0) (R : B → Type 0)
      → Ensures limit m Q
      → ((a : A) → Q a → Ensures limit (f a) R)
      → Ensures limit (m >>= f) R
  Ensures-bind limit m f Q R h g c sound =
      let (kept, q) = h c sound in Ensures-result limit (m c).0 (m c).1 f Q R kept q g
