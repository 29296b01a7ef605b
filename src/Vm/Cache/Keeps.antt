-- ===== src/Vm/Cache/Keeps.antt =====
-- packages/vm/src/cache.rs: lookups, and writes to the caches in memory, keep the cache sound.
use Prim.Native.String.{String}
use cosmwasm.Base.{ℕ, ◌≡◌, refl, sym, ap, ◌∙◌, ◌⊎◌, inl, inr, Option, none, some, Result, ok, err}
use cosmwasm.Bytes.{Bytes, IsBytes}
use cosmwasm.Vm.Errors.{VmError}
use cosmwasm.Vm.Modules.{
  ok-inj, Engine, Disk, Lru, SizedModule, or_cache_err, IoError, not_found, permission_denied,
  other, DeserializeError, io, corrupted,
}
use cosmwasm.Vm.Modules.PinnedMemoryCache
use cosmwasm.Vm.Modules.PinnedMemoryCache.{same, eq_of_same}
use cosmwasm.Vm.Modules.InMemoryCache
use cosmwasm.Vm.Modules.FileSystemCache
use cosmwasm.Vm.Modules.FileSystemCache.{FileSystemCache, module_file, latest_modules_path, found}
use cosmwasm.Vm.Cache.{Cache, memory_load, memory_store, pinned_store, fs_load}
use cosmwasm.Vm.Cache.Sound.{IsDisk, IsLru, IsGenuine, IsSound, Ensures, HeldBy}

found-eq : {M : Type 0} (r : Result DeserializeError M) (m : M) → found r ≡ ok (some m) → r ≡ ok m
found-eq (ok x) m h = cc
found-eq (err (io e)) m h = absurd (not-ok e h)
  where
    not-ok : (e : IoError) → found (err (io e)) ≡ ok (some m) → ⊥
    not-ok not_found h = cc
    not-ok permission_denied h = cc
    not-ok other h = cc
found-eq (err corrupted) m h = cc

module _ {M D L : Type 0} {engine : Engine M} {files : Disk D M} {lru : Lru L M}
    (disk : IsDisk engine files) (forgets : IsLru lru) (limit : ℕ) where
  pub memory_load_keeps :
      (k : Bytes)
      → Ensures engine files forgets limit
          (memory_load engine files lru k)
          (λ o. (v : SizedModule M) → o ≡ some v → IsGenuine engine limit k v.code_module)
  unfolding memory_load InMemoryCache.load
  memory_load_keeps k c sound = (
    record {
      same_limit = sound.same_limit;
      pinned = sound.pinned;
      in_memory = λ j m held. sound.in_memory j m (load_held c.memory_cache k j m held);
      on_disk = sound.on_disk;
      apart = sound.apart;
    },
    λ o e v h. sound.in_memory k v.code_module (load_found c.memory_cache k v (ok-inj e ∙ h)),
  )
    where
      load_held :
          (l : Option L) (k j : Bytes) (m : M)
          → HeldBy engine files forgets (InMemoryCache.load lru l k).1 j m
          → HeldBy engine files forgets l j m
      load_held none k j m h = h
      load_held (some l) k j m h = forgets.get_keeps l k j m h

      load_found :
          (l : Option L) (k : Bytes) (v : SizedModule M)
          → (InMemoryCache.load lru l k).0 ≡ some v
          → HeldBy engine files forgets l k v.code_module
      load_found none k v h = cc
      load_found (some l) k v h = forgets.get-Holds l k v h

  store_held :
      (l l' : Option L) (k j : Bytes) (m m' : M) (n : ℕ)
      → InMemoryCache.store lru l k m n ≡ ok l'
      → HeldBy engine files forgets l' j m'
      → ((j ≡ k) × (m' ≡ m)) ⊎ HeldBy engine files forgets l j m'
  unfolding InMemoryCache.store
  store_held none l' k j m m' n h held = absurd (ap_held (ok-inj h) held)
    where
      ap_held : none ≡ l' → HeldBy engine files forgets l' j m' → ⊥
      ap_held e x = rw (sym e) at x
  store_held (some l) l' k j m m' n h held =
      go (lru.put_with_weight l k (record { code_module = m; size = n })) refl h
    where
      go :
          (r : Result String L)
          → lru.put_with_weight l k (record { code_module = m; size = n }) ≡ r
          → (elim (or_cache_err "put_with_weight" r) [ ok x ↦ ok (some x) | err e ↦ err e ]) ≡ ok l'
          → ((j ≡ k) × (m' ≡ m)) ⊎ forgets.Holds l j m'
      go (ok x) put e =
          forgets.put-Holds l x k j (record { code_module = m; size = n }) m' put
            (rw (sym (ok-inj e)) at held)
      go (err x) put e = cc

  -- The state after `memory_store`.
  abbrev remembered :
      Cache M D L → Result VmError (Option L) → Result VmError (Unit {0}) × Cache M D L
  remembered c r = elim r [
    | ok cache' ↦ (ok tt, record c { memory_cache = cache' })
    | err e ↦ (err e, c)
  ]

  memory_stored :
      (c : Cache M D L) (r : Result VmError (Option L))
      → IsSound engine files forgets limit c
      → ((l : Option L) (j : Bytes) (m : M)
          → r ≡ ok l
          → HeldBy engine files forgets l j m
          → IsGenuine engine limit j m)
      → IsSound engine files forgets limit (remembered c r).1
  memory_stored c (ok l) sound genuine = record {
    same_limit = sound.same_limit;
    pinned = sound.pinned;
    in_memory = λ j m held. genuine l j m refl held;
    on_disk = sound.on_disk;
    apart = sound.apart;
  }
  memory_stored c (err e) sound genuine = sound

  pub memory_store_keeps :
      (k : Bytes) (m : M)
      → IsGenuine engine limit k m
      → Ensures engine files forgets limit (memory_store engine files lru k m) (λ _. Unit)
  unfolding memory_store
  memory_store_keeps k m genuine c sound = (
    memory_stored c (InMemoryCache.store lru c.memory_cache k m (engine.size_of_val m)) sound
        (λ l j m' stored held.
          elim (store_held c.memory_cache l k j m m' (engine.size_of_val m) stored held) [
            | inl (same_key, same_module) ↦ rw (sym same_key, sym same_module) at genuine
            | inr before ↦ sound.in_memory j m' before
          ]),
    λ a h. tt,
  )

  pub pinned_store_keeps :
      (k : Bytes) (m : M) (n : ℕ)
      → IsGenuine engine limit k m
      → Ensures engine files forgets limit (pinned_store engine files lru k m n) (λ _. Unit)
  unfolding pinned_store
  pinned_store_keeps k m n genuine c sound = (
    record {
      same_limit = sound.same_limit;
      pinned = λ j v h. elim (PinnedMemoryCache.get-store c.pinned_memory_cache j k m n v h) [
        | inl (same_key, same_module) ↦ rw (sym same_key, sym same_module) at genuine
        | inr held ↦ sound.pinned j v held
      ];
      in_memory = sound.in_memory;
      on_disk = sound.on_disk;
      apart = sound.apart;
    },
    λ a h. tt,
  )

  pub fs_load_keeps :
      (k : Bytes)
      → IsBytes k
      → Ensures engine files forgets limit
          (fs_load engine files lru k)
          (λ o. (m : M) → o ≡ some m → IsGenuine engine limit k m)
  unfolding fs_load FileSystemCache.load
  fs_load_keeps k bytes c sound = (
    sound,
    λ o e m h. sound.on_disk k m bytes (rw (sound.same_limit) at (found-eq _ m (e ∙ ap ok h))),
  )
