-- ===== src/Vm/Cache/Written.antt =====
-- packages/vm/src/cache.rs: writes to the disk keep the cache sound, and a blob that is loaded has the
-- checksum.
use cosmwasm.Base.{
  and_then, ℕ, ◌≡◌, refl, sym, ◌∙◌, inl, inr, Option, some, [], ◌∷◌, ◌++◌, Result, ok, err,
  if◌then◌else◌, true, false, Bool,
}
use cosmwasm.Bytes.{Bytes, IsBytes}
use native.Mathlib.Decide.{ℕ_discrete}
use mathlib.Core.List.{List-discrete}
use cosmwasm.Vm.Errors.{VmError, integrity_err}
use cosmwasm.Vm.Checksum.{to_hex, to_hex_inj}
use cosmwasm.Vm.Modules.{ok-inj, Engine, Disk, Lru, FilePath, join, or_cache_err, IoError}
use cosmwasm.Vm.Modules.PinnedMemoryCache.{same, eq_of_same}
use cosmwasm.Vm.Modules.FileSystemCache
use cosmwasm.Vm.Modules.FileSystemCache.{FileSystemCache, module_file, latest_modules_path, found}
use cosmwasm.Vm.Cache.{Cache, fs_store, load_wasm, load_wasm_from_disk, save_wasm_to_disk}
use cosmwasm.Vm.Cache.Sound.{IsDisk, IsLru, IsSound, Ensures}

append_cancel_list : (p a b : FilePath) → p ++ a ≡ p ++ b → a ≡ b
append_cancel_list [] a b h = h
append_cancel_list (x ∷ p) a b h = append_cancel_list p a b (cc)

FilePath_discrete : Discrete FilePath
FilePath_discrete = List-discrete (List-discrete ℕ_discrete)

-- Two checksums that name one file are the same.
module_file_inj :
    (fs : FileSystemCache) (a b : Bytes)
    → IsBytes a
    → IsBytes b
    → module_file fs a ≡ module_file fs b
    → a ≡ b
module_file_inj fs a b p q h =
    let e = append_cancel_list (latest_modules_path fs) (to_hex a ∷ []) (to_hex b ∷ []) h in
    to_hex_inj a b p q (cc)

module _ {M D L : Type 0} {engine : Engine M} {files : Disk D M} {lru : Lru L M}
    (disk : IsDisk engine files) (forgets : IsLru lru) (limit : ℕ) where
  on_disk_kept :
      (c : Cache M D L) (d : D)
      → IsSound engine files forgets limit c
      → ((k : Bytes)
          → files.deserialize_from_file d (some limit) (module_file c.fs_cache k)
            ≡ files.deserialize_from_file c.disk (some limit) (module_file c.fs_cache k))
      → IsSound engine files forgets limit (record c { disk = d })
  on_disk_kept c d sound kept = record {
    same_limit = sound.same_limit;
    pinned = sound.pinned;
    in_memory = sound.in_memory;
    on_disk = λ k m bytes h. sound.on_disk k m bytes (sym (kept k) ∙ h);
    apart = sound.apart;
  }

  -- After a module was written, completely or not.
  serialized :
      (c : Cache M D L) (k : Bytes) (m : M) (code : Bytes) (under : Option ℕ)
      → IsSound engine files forgets limit c
      → IsBytes k
      → engine.sha256 code ≡ k
      → engine.new_module under code ≡ ok m
      → IsSound engine files forgets limit
          (record c { disk = (files.serialize_to_file c.disk (module_file c.fs_cache k) m).1 })
  serialized c k m code under sound bytes hashed compiled =
      let p = module_file c.fs_cache k in
      record {
        same_limit = sound.same_limit;
        pinned = sound.pinned;
        in_memory = sound.in_memory;
        on_disk = λ j m' bytes' h. elim (FilePath_discrete p (module_file c.fs_cache j)) [
          | yes one_file ↦
              let e : k ≡ j = module_file_inj c.fs_cache k j bytes bytes' one_file in
              elim (disk.serialize-deserialize_self c.disk p m m' (some limit)
                (rw (sym one_file) at h)) [
                  | inl fresh ↦ record {
                    code = code;
                    hashed = hashed ∙ e;
                    under = under;
                    source = m;
                    compiled = compiled;
                    same_artifact = fresh;
                    limited = disk.deserialize-limit _ _ m' (some limit) h;
                  }
                  | inr before ↦ sound.on_disk j m' bytes' (rw one_file at before)
                ]
          | no apart ↦ sound.on_disk j m' bytes' (
              sym (
                disk.serialize-deserialize_ne c.disk p (module_file c.fs_cache j) m (some limit)
                  apart)
              ∙ h)
        ];
        apart = sound.apart;
      }

  pub fs_store_keeps :
      (k : Bytes) (m : M) (code : Bytes) (under : Option ℕ)
      → IsBytes k
      → engine.sha256 code ≡ k
      → engine.new_module under code ≡ ok m
      → Ensures engine files forgets limit (fs_store engine files lru k m) (λ _. Unit)
  unfolding fs_store FileSystemCache.store
  fs_store_keeps k m code under bytes hashed compiled c sound =
      let dir = latest_modules_path c.fs_cache in
      let made = files.create_dir_all c.disk dir in
      let c1 : Cache M D L = record c { disk = made.1 } in
      let sound1 : IsSound engine files forgets limit c1 =
        on_disk_kept c made.1 sound
          (λ j. disk.create-deserialize c.disk dir (module_file c.fs_cache j) (some limit)) in
      (
        either made.0 _ sound1 (serialized c1 k m code under sound1 bytes hashed compiled),
        λ a h. tt,
      )
    where
      stored :
          Result IoError (Unit {0})
          → Result VmError (Unit {0})
          → D
          → D
          → Result VmError (Unit {0}) × D
      stored o r d1 d2 = elim (or_cache_err "Error creating directory" o) [
        | err e ↦ (err e, d1)
        | ok done ↦ (r, d2)
      ]

      either :
          {d1 d2 : D} (o : Result IoError (Unit {0})) (r : Result VmError (Unit {0}))
          → IsSound engine files forgets limit (record c { disk = d1 })
          → IsSound engine files forgets limit (record c { disk = d2 })
          → IsSound engine files forgets limit (record c { disk = (stored o r d1 d2).1 })
      either (ok done) r s1 s2 = s2
      either (err e) r s1 s2 = s1

  pub load_wasm_keeps :
      (k : Bytes)
      → Ensures engine files forgets limit
          (load_wasm engine files lru k)
          (λ code. engine.sha256 code ≡ k)
  unfolding load_wasm
  load_wasm_keeps k c sound =
      (sound, λ code h. verified (load_wasm_from_disk engine files lru c.wasm_path k c.disk) code h)
    where
      checked :
          (read code : Bytes) (b : Bool)
          → same (engine.sha256 read) k ≡ b
          → Path (Result VmError Bytes) (if b then ok read else err integrity_err) (ok code)
          → engine.sha256 code ≡ k
      checked read code true e h = rw (ok-inj h) at (eq_of_same (engine.sha256 read) k e)
      checked read code false e h = cc

      verified :
          (r : Result VmError Bytes) (code : Bytes)
          → and_then r (λ read. if same (engine.sha256 read) k then ok read else err integrity_err)
            ≡ ok code
          → engine.sha256 code ≡ k
      verified (ok read) code h = checked read code (same (engine.sha256 read) k) refl h
      verified (err e) code h = cc

  pub save_wasm_to_disk_keeps :
      (wasm : Bytes)
      → Ensures engine files forgets limit
          (save_wasm_to_disk engine files lru wasm)
          (λ k. engine.sha256 wasm ≡ k)
  unfolding save_wasm_to_disk
  save_wasm_to_disk_keeps wasm c sound =
      let p = join c.wasm_path (to_hex (engine.sha256 wasm)) in
      let opened = files.open_for_writing c.disk p in
      let written = files.write_all opened.1 p wasm in
      let keeps : (k : Bytes)
          → files.deserialize_from_file opened.1 (some limit) (module_file c.fs_cache k)
            ≡ files.deserialize_from_file c.disk (some limit) (module_file c.fs_cache k) =
        λ k.
          disk.open-deserialize c.disk p (module_file c.fs_cache k) (some limit)
            (sound.apart (to_hex (engine.sha256 wasm)) k) in
      either opened.0 written.0 (on_disk_kept c opened.1 sound keeps) (
        on_disk_kept c written.1 sound (λ k.
          disk.write-deserialize opened.1 p (module_file c.fs_cache k) wasm (some limit)
            (sound.apart (to_hex (engine.sha256 wasm)) k)
          ∙ keeps k))
    where
      finish :
          Result IoError (Unit {0})
          → Result IoError (Unit {0})
          → D
          → D
          → Result VmError Bytes × Cache M D L
      finish o w d1 d2 = elim (or_cache_err "Error opening Wasm file for writing" o) [
        | err e ↦ (err e, record c { disk = d1 })
        | ok done ↦ elim (or_cache_err "Error writing Wasm file" w) [
          | err e ↦ (err e, record c { disk = d2 })
          | ok done ↦ (ok (engine.sha256 wasm), record c { disk = d2 })
        ]
      ]

      either :
          (o w : Result IoError (Unit {0})) {d1 d2 : D}
          → IsSound engine files forgets limit (record c { disk = d1 })
          → IsSound engine files forgets limit (record c { disk = d2 })
          → IsSound engine files forgets limit (finish o w d1 d2).1
            × ((k : Bytes) → (finish o w d1 d2).0 ≡ ok k → engine.sha256 wasm ≡ k)
      either (err e) w s1 s2 = (s1, λ k h. cc)
      either (ok done) (err e) s1 s2 = (s2, λ k h. cc)
      either (ok done) (ok done') s1 s2 = (s2, λ k h. cc)
