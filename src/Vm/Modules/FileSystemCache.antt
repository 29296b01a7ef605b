-- ===== src/Vm/Modules/FileSystemCache.antt =====
-- packages/vm/src/modules/file_system_cache.rs: the modules on disk. The version of wasmer's format
-- is read from the build.
use cosmwasm.Base.{if◌then◌else◌, and_then, ℕ, Option, none, some, [], ◌∷◌, ◌++◌, Result, ok, err}
use cosmwasm.Bytes.{Bytes}
use cosmwasm.Vm.Errors.{VmError, cache_err}
use cosmwasm.Vm.Checksum.{to_hex}
use cosmwasm.Vm.Modules.{
  Metadata, permission_denied, IoError, Disk, FilePath, join, not_found, DeserializeError, io,
  corrupted, or_cache_err,
}

pub record FileSystemCache : Type 0 where
  pub base_path : FilePath
  pub wasmer_module_version : Bytes

-- "v3" and "-wasmer"
abbrev pub module_serialization_version : Bytes
module_serialization_version = 118 ∷ 51 ∷ []

abbrev dash_wasmer : Bytes
dash_wasmer = 45 ∷ 119 ∷ 97 ∷ 115 ∷ 109 ∷ 101 ∷ 114 ∷ []

unfoldable pub latest_modules_path : FileSystemCache → FilePath
latest_modules_path cache =
    join cache.base_path
      (module_serialization_version ++ dash_wasmer ++ cache.wasmer_module_version)

abbrev pub module_file : FileSystemCache → Bytes → FilePath
module_file cache checksum = join (latest_modules_path cache) (to_hex checksum)

-- A module that is not there is no error.
abbrev pub found : {M : Type 0} → Result DeserializeError M → Result VmError (Option M)
found (ok code_module) = ok (some code_module)
found (err (io not_found)) = ok none
found (err (io e)) = err (cache_err "Error opening module file")
found (err corrupted) = err (cache_err "Error deserializing module")

-- A path that exists must be a directory that can be written.
abbrev pub usable : Metadata → Result IoError (Unit {0})
usable found_there =
    if found_there.is_dir
    then if found_there.readonly then err permission_denied else ok tt
    else err permission_denied

module _ {D M : Type 0} (files : Disk D M) where
  unfoldable pub new : Bytes → FilePath → D → Result IoError FileSystemCache × D
  new wasmer_module_version path disk =
      let cache : FileSystemCache = record {
        base_path = path;
        wasmer_module_version = wasmer_module_version;
      } in
      if files.exists disk path
      then (
        and_then (files.metadata disk path)
            (λ found_there. and_then (usable found_there) (λ done. ok cache)),
        disk,
      )
      else let (made, disk') = files.create_dir_all disk path in
        (and_then made (λ done. ok cache), disk')

  unfoldable pub load : FileSystemCache → D → Bytes → Option ℕ → Result VmError (Option M)
  unfolding latest_modules_path to_hex
  load cache disk checksum store =
      found (files.deserialize_from_file disk store (module_file cache checksum))

  unfoldable pub store : FileSystemCache → D → Bytes → M → Result VmError (Unit {0}) × D
  unfolding latest_modules_path to_hex
  store cache disk checksum code_module =
      let (made, disk1) = files.create_dir_all disk (latest_modules_path cache) in
      elim (or_cache_err "Error creating directory" made) [
        | err e ↦ (err e, disk1)
        | ok done ↦
            let (written, disk2) =
              files.serialize_to_file disk1 (module_file cache checksum) code_module in
            (or_cache_err "Error writing module to disk" written, disk2)
      ]
