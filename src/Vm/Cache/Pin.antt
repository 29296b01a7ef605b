-- ===== src/Vm/Cache/Pin.antt =====
-- packages/vm/src/cache.rs: a pinned module stays in memory.
use cosmwasm.Base.{
  sym, ◌∙◌, ℕ, ◌≡◌, refl, ap, Option, none, some, Bool, true, false, Result, ok, err, arith,
}
use cosmwasm.Bytes.{Bytes}
use cosmwasm.Vm.Errors.{VmError}
use cosmwasm.Vm.Modules.{Engine, Disk, Lru, SizedModule, Act, ◌>>=◌, ◌>>◌, lift, pure, gets}
use cosmwasm.Vm.Modules.PinnedMemoryCache
use cosmwasm.Vm.Modules.PinnedMemoryCache.{same, same_refl}
use cosmwasm.Vm.Cache.{
  Cache, tick, memory_load, pinned_store, fs_load, fs_store, load_wasm, pin, pin_from_disk,
  pin_from_wasm, get_module, compile, hit_memory, hit_fs, hit_pinned, get_from_disk,
}

module _ {M D L : Type 0} (engine : Engine M) (files : Disk D M) (lru : Lru L M) (k : Bytes) where
  abbrev IsPinned : Cache M D L → Type 0
  IsPinned c = (v : SizedModule M) × (PinnedMemoryCache.get c.pinned_memory_cache k ≡ some v)

  -- A call after whose success k is pinned.
  record Pins {A : Type 0} (m : Act (Cache M D L) A) : Type 0 where
    after_success : (c : Cache M D L) (a : A) → (m c).0 ≡ ok a → IsPinned (m c).1

  next :
      {A B : Type 0} (m : Act (Cache M D L) A) (f : A → Act (Cache M D L) B)
      → ((a : A) → Pins (f a))
      → Pins (m >>= f)
  next {A = A} {B = B} m f h = record { after_success = λ c b e. go b (m c).0 (m c).1 e }
    where
      go :
          (b : B) (r : Result VmError A) (c' : Cache M D L)
          → ((lift r >>= f) c').0 ≡ ok b
          → IsPinned ((lift r >>= f) c').1
      go b (ok a) c' e = (h a).after_success c' b e
      go b (err x) c' e = cc

  pinned_store-Pins : (m : M) (n : ℕ) → Pins (pinned_store engine files lru k m n)
  unfolding pinned_store PinnedMemoryCache.store PinnedMemoryCache.get
  pinned_store-Pins m n = record {
    after_success = λ c a e. (record { code_module = m; size = n }, ground (arith, same_refl k));
  }

  pin_from_wasm-Pins : Pins (pin_from_wasm engine files lru k)
  unfolding pin_from_wasm compile
  pin_from_wasm-Pins = next (load_wasm engine files lru k) _ λ code.
      next (gets (λ c. c.instance_memory_limit)) _ λ n.
        next (lift (engine.new_module (some n) code)) _ λ m.
          next (fs_store engine files lru k m) _ λ _. pinned_store-Pins m (engine.size_of_val m)

  pin_from_disk-Pins : Pins (pin_from_disk engine files lru k)
  unfolding pin_from_disk
  pin_from_disk-Pins = next (fs_load engine files lru k) _ found
    where
      found :
          (o : Option M)
          → Pins (elim o [
            | some compiled ↦
                hit_fs engine files lru
                >> pinned_store engine files lru k compiled (engine.size_of_val compiled)
            | none ↦ pin_from_wasm engine files lru k
          ])
      found none = pin_from_wasm-Pins
      found (some m) =
          next (hit_fs engine files lru) _ λ _. pinned_store-Pins m (engine.size_of_val m)

  pin_pins :
      (c : Cache M D L) (a : Unit {0})
      → (pin engine files lru k c).0 ≡ ok a
      → IsPinned (pin engine files lru k c).1
  unfolding pin PinnedMemoryCache.has
  pin_pins c a = has (PinnedMemoryCache.get c.pinned_memory_cache k) refl
    where
      held :
          (o : Option (SizedModule M))
          → Pins (elim o [
            | some sized ↦
                hit_memory engine files lru
                >> pinned_store engine files lru k sized.code_module sized.size
            | none ↦ pin_from_disk engine files lru k
          ])
      held none = pin_from_disk-Pins
      held (some v) =
          next (hit_memory engine files lru) _ λ _. pinned_store-Pins v.code_module v.size

      load : Act (Cache M D L) (Unit {0})
      load = memory_load engine files lru k >>= λ found. elim found [
        | some sized ↦
            hit_memory engine files lru
            >> pinned_store engine files lru k sized.code_module sized.size
        | none ↦ pin_from_disk engine files lru k
      ]

      rest : Bool → Act (Cache M D L) (Unit {0})
      rest b = elim b [ true ↦ pure tt | false ↦ load ]

      has :
          (o : Option (SizedModule M))
          → PinnedMemoryCache.get c.pinned_memory_cache k ≡ o
          → (rest (elim o [ none ↦ false | some sized ↦ true ]) c).0 ≡ ok a
          → IsPinned (rest (elim o [ none ↦ false | some sized ↦ true ]) c).1
      has (some v) e h = (v, e)
      has none e h = (next (memory_load engine files lru k) _ held).after_success c a h

  get_pinned :
      (c : Cache M D L) (v : SizedModule M)
      → PinnedMemoryCache.get c.pinned_memory_cache k ≡ some v
      → get_module engine files lru k c ≡ (
        ok v.code_module,
        record c {
          stats = record (c.stats) {
            hits_pinned_memory_cache = tick c.stats.hits_pinned_memory_cache;
          };
        },
      )
  unfolding get_module PinnedMemoryCache.load
  get_pinned c v h =
      ap (λ o. answer (elim o [ none ↦ none | some sized ↦ some sized.code_module ]) c) h
    where
      answer : Option M → Act (Cache M D L) M
      answer o = elim o [
        | some compiled ↦ hit_pinned engine files lru >> pure compiled
        | none ↦
            (memory_load engine files lru k >>= λ found. elim found [
              | some sized ↦ hit_memory engine files lru >> pure sized.code_module
              | none ↦ get_from_disk engine files lru k
            ])
      ]

  -- After a successful pin the module is got from the pinned memory cache: get_module succeeds, counts
  -- one hit there, and leaves everything else, the other caches and the disk included, as it was.
  pub get_module-pin :
      (c c' : Cache M D L)
      → pin engine files lru k c ≡ (ok tt, c')
      → (m : M) × (get_module engine files lru k c' ≡ (
        ok m,
        record c' {
          stats = record (c'.stats) {
            hits_pinned_memory_cache = tick c'.stats.hits_pinned_memory_cache;
          };
        },
      ))
  get_module-pin c c' e =
      let (v, h) = pin_pins c tt (ap (λ x. x.0) e) in
      (
        v.code_module,
        get_pinned c' v (ap (λ x. PinnedMemoryCache.get x.1.pinned_memory_cache k) (sym e) ∙ h),
      )
