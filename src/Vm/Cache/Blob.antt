-- ===== src/Vm/Cache/Blob.antt =====
-- packages/vm/src/cache.rs: the Wasm blobs on disk. A blob is written over what the file had, and
-- the file is not truncated.
use cosmwasm.Base.{
  ◌≡◌, ◌≢◌, refl, sym, ap, ◌∙◌, none, [], ◌++◌, Result, ok, err, if◌then◌else◌, drop, length,
  and_then,
}
use cosmwasm.Bytes.{Bytes}
use cosmwasm.Vm.Errors.{VmError, integrity_err}
use cosmwasm.Vm.Checksum.{to_hex}
use cosmwasm.Vm.Modules.{
  after, ok-inj, Engine, Disk, Lru, FilePath, join, IoError, lift, or_cache_err,
}
use cosmwasm.Vm.Modules.PinnedMemoryCache.{same}
use cosmwasm.Vm.Modules.FileSystemCache
use cosmwasm.Vm.Modules.FileSystemCache.{module_file, latest_modules_path}
use cosmwasm.Vm.Cache.{
  Cache, save_wasm, save_wasm_to_disk, load_wasm, load_wasm_from_disk, fs_store, compile,
}

abbrev pub contents : Result IoError Bytes → Bytes
contents (ok bytes) = bytes
contents (err e) = []

-- A blob that was opened and written is read with what an older, longer file had behind it. The
-- files of the modules are elsewhere.
pub record IsFiles {D M : Type 0} (files : Disk D M) : Type 0 where
  pub open_write-read :
      (d d1 d2 : D) (p : FilePath) (bytes : Bytes)
      → files.open_for_writing d p ≡ (ok tt, d1)
      → files.write_all d1 p bytes ≡ (ok tt, d2)
      → (files.open_for_reading d2 p ≡ ok tt)
        × (files.read_to_end d2 p
            ≡ ok (bytes ++ drop (length bytes) (contents (files.read_to_end d p))))
  pub create_keeps :
      (d : D) (p q : FilePath)
      → (files.open_for_reading (files.create_dir_all d p).1 q ≡ files.open_for_reading d q)
        × (files.read_to_end (files.create_dir_all d p).1 q ≡ files.read_to_end d q)
  pub serialize_keeps :
      (d : D) (p q : FilePath) (m : M)
      → p ≢ q
      → (files.open_for_reading (files.serialize_to_file d p m).1 q ≡ files.open_for_reading d q)
        × (files.read_to_end (files.serialize_to_file d p m).1 q ≡ files.read_to_end d q)

module _ {M D L : Type 0} (engine : Engine M) {files : Disk D M} (lru : Lru L M)
    (law : IsFiles files) where
  -- The blob that is read, and its check.
  abbrev verify : Bytes → Bytes → Result VmError Bytes
  verify checksum code = if same (engine.sha256 code) checksum then ok code else err integrity_err

  -- What a file holds after a blob was written to it.
  abbrev overlaid : Bytes → D → FilePath → Bytes
  overlaid wasm d p = wasm ++ drop (length wasm) (contents (files.read_to_end d p))

  save_wasm_to_disk_reads :
      (c c' : Cache M D L) (wasm k : Bytes)
      → save_wasm_to_disk engine files lru wasm c ≡ (ok k, c')
      → (engine.sha256 wasm ≡ k)
        × (c'.wasm_path ≡ c.wasm_path)
        × (c'.fs_cache ≡ c.fs_cache)
        × (files.open_for_reading c'.disk (join c.wasm_path (to_hex (engine.sha256 wasm))) ≡ ok tt)
        × (files.read_to_end c'.disk (join c.wasm_path (to_hex (engine.sha256 wasm)))
            ≡ ok (overlaid wasm c.disk (join c.wasm_path (to_hex (engine.sha256 wasm)))))
  unfolding save_wasm_to_disk
  save_wasm_to_disk_reads c c' wasm k h =
      let p = join c.wasm_path (to_hex (engine.sha256 wasm)) in
      let opened = files.open_for_writing c.disk p in
      let written = files.write_all opened.1 p wasm in
      let (o, w, hashed, state) = go opened.0 written.0 opened.1 written.1 h in
      let (a, b) =
        law.open_write-read c.disk opened.1 written.1 p wasm (ap (λ r. (r, opened.1)) o)
          (ap (λ r. (r, written.1)) w) in
      (
        hashed,
        ap (λ x. x.wasm_path) (sym state),
        ap (λ x. x.fs_cache) (sym state),
        ap (λ x. files.open_for_reading x.disk p) (sym state) ∙ a,
        ap (λ x. files.read_to_end x.disk p) (sym state) ∙ b,
      )
    where
      finish :
          Result IoError (Unit {0})
          → Result IoError (Unit {0})
          → D
          → D
          → Result VmError Bytes × Cache M D L
      finish o w d1 d2 = elim (or_cache_err "Error opening Wasm file for writing" o) [
        | err e ↦ (err e, record c { disk = d1 })
        | ok done ↦ elim (or_cache_err "Error writing Wasm file" w) [
          | err e ↦ (err e, record c { disk = d2 })
          | ok done ↦ (ok (engine.sha256 wasm), record c { disk = d2 })
        ]
      ]

      go :
          (o w : Result IoError (Unit {0})) (d1 d2 : D)
          → finish o w d1 d2 ≡ (ok k, c')
          → (o ≡ ok tt)
            × (w ≡ ok tt)
            × (engine.sha256 wasm ≡ k)
            × (Path (Cache M D L) (record c { disk = d2 }) c')
      go (err e) w d1 d2 h = cc
      go (ok done) (err e) d1 d2 h = cc
      go (ok done) (ok done') d1 d2 h = (refl, refl, cc, ap (λ x. x.1) h)

  fs_store_reads :
      (c c' : Cache M D L) (k : Bytes) (m : M) (q : FilePath) (u : Unit {0})
      → fs_store engine files lru k m c ≡ (ok u, c')
      → module_file c.fs_cache k ≢ q
      → (c'.wasm_path ≡ c.wasm_path)
        × (files.open_for_reading c'.disk q ≡ files.open_for_reading c.disk q)
        × (files.read_to_end c'.disk q ≡ files.read_to_end c.disk q)
  unfolding fs_store FileSystemCache.store
  fs_store_reads c c' k m q u h apart =
      let dir = latest_modules_path c.fs_cache in
      let made = files.create_dir_all c.disk dir in
      let (a, b) = law.create_keeps c.disk dir q in
      let (a', b') = law.serialize_keeps made.1 (module_file c.fs_cache k) q m apart in
      let state = ap (λ x. x.1) h in
      let (a2, b2) = go made.0 _ a b (a' ∙ a) (b' ∙ b) in
      (
        ap (λ x. x.wasm_path) (sym state),
        ap (λ x. files.open_for_reading x.disk q) (sym state) ∙ a2,
        ap (λ x. files.read_to_end x.disk q) (sym state) ∙ b2,
      )
    where
      stored :
          Result IoError (Unit {0})
          → Result VmError (Unit {0})
          → D
          → D
          → Result VmError (Unit {0}) × D
      stored o r d1 d2 = elim (or_cache_err "Error creating directory" o) [
        | err e ↦ (err e, d1)
        | ok done ↦ (r, d2)
      ]

      go :
          {d1 d2 : D} (o : Result IoError (Unit {0})) (r : Result VmError (Unit {0}))
          → files.open_for_reading d1 q ≡ files.open_for_reading c.disk q
          → files.read_to_end d1 q ≡ files.read_to_end c.disk q
          → files.open_for_reading d2 q ≡ files.open_for_reading c.disk q
          → files.read_to_end d2 q ≡ files.read_to_end c.disk q
          → (files.open_for_reading (stored o r d1 d2).1 q ≡ files.open_for_reading c.disk q)
            × (files.read_to_end (stored o r d1 d2).1 q ≡ files.read_to_end c.disk q)
      go (ok done) r a b a' b' = (a', b')
      go (err e) r a b a' b' = (a, b)

  load_reads :
      (dir : FilePath) (k bytes : Bytes) (d : D)
      → files.open_for_reading d (join dir (to_hex k)) ≡ ok tt
      → files.read_to_end d (join dir (to_hex k)) ≡ ok bytes
      → load_wasm_from_disk engine files lru dir k d ≡ ok bytes
  unfolding load_wasm_from_disk
  load_reads dir k bytes d a b = rw (load_wasm_from_disk, a, b) refl

  -- load_wasm after a successful save_wasm of a blob reads the blob, followed by what an older file
  -- of this name had beyond the blob's length, since the file is not truncated, and fails with
  -- integrity_err unless what it reads has the checksum. The file is not that of the module, and the
  -- disk keeps its laws.
  pub load_wasm-save_wasm :
      (check_wasm : Bytes → Result VmError (Unit {0})) (wasm k : Bytes) (c c' : Cache M D L)
      → save_wasm engine files lru check_wasm wasm c ≡ (ok k, c')
      → module_file c.fs_cache k ≢ join c.wasm_path (to_hex k)
      → (load_wasm engine files lru k c').0
        ≡ verify k (overlaid wasm c.disk (join c.wasm_path (to_hex k)))
  unfolding save_wasm load_wasm compile
  load_wasm-save_wasm check_wasm wasm k c c' h apart =
      after (lift (check_wasm wasm)) _ c h λ _ c1 e1 h1.
        after (lift (engine.new_module none wasm)) _ c1 h1 λ m c2 e2 h2.
          after (save_wasm_to_disk engine files lru wasm) _ c2 h2 λ k3 c3 e3 h3.
            after (fs_store engine files lru k3 m) _ c3 h3 λ u c4 e4 h4.
              let at_start : c2 ≡ c = sym (ap (λ x. x.1) e1 ∙ ap (λ x. x.1) e2) in
              let (hashed, path3, fs3, opens, reads) =
                save_wasm_to_disk_reads c c3 wasm k3 (rw at_start at e3) in
              let same_key : k3 ≡ k = ok-inj (ap (λ x. x.0) h4) in
              let at_end : c4 ≡ c' = ap (λ x. x.1) h4 in
              let q = join c.wasm_path (to_hex k) in
              let (path4, opens4, reads4) = fs_store_reads c3 c4 k3 m q u e4 (λ f. apart (
                ap (λ x. module_file x k) (sym fs3)
                ∙ ap (module_file c3.fs_cache) (sym same_key)
                ∙ f)) in
              let found =
                load_reads c.wasm_path k (overlaid wasm c.disk q) c4.disk
                  (opens4 ∙ (rw (hashed ∙ same_key) at opens))
                  (reads4 ∙ (rw (hashed ∙ same_key) at reads)) in
              ap (λ r. and_then r (verify k))
                (ap (λ x. load_wasm_from_disk engine files lru x.wasm_path k x.disk) (sym at_end)
                  ∙ ap (λ w. load_wasm_from_disk engine files lru w k c4.disk) (path4 ∙ path3)
                  ∙ found)
