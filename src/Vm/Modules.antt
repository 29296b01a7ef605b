-- ===== src/Vm/Modules.antt =====
-- packages/vm/src/modules and packages/vm/src/wasm_backend/compile.rs: the three caches of compiled
-- modules. The compiler and the artifacts on disk are wasmer's, and the map that drops the least
-- recently used entry is another package's: they are given by interfaces. A path is the list of its parts.
pub mod PinnedMemoryCache
pub mod InMemoryCache
pub mod FileSystemCache
use Prim.Native.String.{String}
use cosmwasm.Base.{
  refl, ap, ◌≡◌, ℕ, ◌+◌, ◌≡◌, ◌≢◌, Option, none, some, List, [], ◌∷◌, ◌++◌, Bool, true, false,
  Result, ok, err, ltb, if◌then◌else◌, ◌⊎◌, ◌%◌, ◌^◌,
}
use cosmwasm.Bytes.{Bytes, cmp}
use cosmwasm.Vm.Errors.{VmError, cache_err}
use cosmwasm.Vm.Checksum.{to_hex}

abbrev pub FilePath : Type 0
FilePath = List Bytes

abbrev pub join : FilePath → Bytes → FilePath
join p name = p ++ (name ∷ [])

pub data IoError : Type 0 where
  not_found permission_denied other : IoError

pub data DeserializeError : Type 0 where
  io : IoError → DeserializeError
  corrupted : DeserializeError

-- `SizedModule` of sized_module.rs
pub record SizedModule (M : Type 0) : Type 0 where
  pub code_module : M
  pub size : ℕ

-- `wasmer::Module`: the compiler under a limit for memories, the size that loupe measures, what
-- `Module::serialize` gives, and the limit of the store (`Module::store`) that the module belongs to;
-- and the hash SHA-256.
pub record Engine (M : Type 0) : Type 0 where
  pub new_module : Option ℕ → Bytes → Result VmError M
  pub size_of_val : M → ℕ
  pub serialize : M → Bytes
  pub limit_of_store : M → Option ℕ
  pub sha256 : Bytes → Bytes

pub record Metadata : Type 0 where
  pub is_dir : Bool
  pub readonly : Bool

-- The files. A file is opened for writing without truncation.
pub record Disk (D M : Type 0) : Type 0 where
  pub exists : D → FilePath → Bool
  pub metadata : D → FilePath → Result IoError Metadata
  pub create_dir_all : D → FilePath → Result IoError (Unit {0}) × D
  pub open_for_writing : D → FilePath → Result IoError (Unit {0}) × D
  pub write_all : D → FilePath → Bytes → Result IoError (Unit {0}) × D
  pub open_for_reading : D → FilePath → Result IoError (Unit {0})
  pub read_to_end : D → FilePath → Result IoError Bytes
  pub serialize_to_file : D → FilePath → M → Result IoError (Unit {0}) × D
  pub deserialize_from_file : D → Option ℕ → FilePath → Result DeserializeError M

-- `clru::CLruCache` with the size as the weight.
pub record Lru (L M : Type 0) : Type 0 where
  pub with_config : ℕ → L
  pub put_with_weight : L → Bytes → SizedModule M → Result String L
  pub get : L → Bytes → Option (SizedModule M) × L

-- A call on a state: its result, and the state after it, also where it fails.
abbrev pub Act : Type 0 → Type 0 → Type 0
Act C A = C → Result VmError A × C

infixl 5 ◌>>=◌ ◌>>◌
abbrev pub ◌>>=◌ : {C A B : Type 0} → Act C A → (A → Act C B) → Act C B
◌>>=◌ m f c = let (r, c') = m c in elim r [ ok a ↦ f a c' | err e ↦ (err e, c') ]

abbrev pub ◌>>◌ : {C A B : Type 0} → Act C A → Act C B → Act C B
m >> k = m >>= λ _. k

abbrev pub pure : {C A : Type 0} → A → Act C A
pure a c = (ok a, c)

abbrev pub lift : {C A : Type 0} → Result VmError A → Act C A
lift r c = (r, c)

abbrev pub gets : {C A : Type 0} → (C → A) → Act C A
gets f c = (ok (f c), c)

-- `map_err` to a cache error.
abbrev pub or_cache_err : {A E : Type 0} → String → Result E A → Result VmError A
or_cache_err message (ok a) = ok a
or_cache_err message (err e) = err (cache_err message)

pub ok-inj : {A : Type 0} {a b : A} → Path (Result VmError A) (ok a) (ok b) → a ≡ b
ok-inj h = cc

-- Inversion of a successful bind.
pub after :
    {C A B P : Type 0} (m : Act C A) (f : A → Act C B) (c : C) {c' : C} {b : B}
    → (m >>= f) c ≡ (ok b, c')
    → ((a : A) (c1 : C) → m c ≡ (ok a, c1) → f a c1 ≡ (ok b, c') → P)
    → P
after {C} {A} {B} {P} m f c {c'} {b} h k = go (m c).0 (m c).1 refl h
  where
    go : (r : Result VmError A) (c1 : C) → m c ≡ (r, c1) → (lift r >>= f) c1 ≡ (ok b, c') → P
    go (ok a) c1 e h = k a c1 e h
    go (err x) c1 e h = absurd (failed (ap (λ p. p.0) h))
      where
        failed : Path (Result VmError B) (err x) (ok b) → ⊥
        failed e = cc
