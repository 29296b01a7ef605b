-- ===== src/Vm/Modules/InMemoryCache.antt =====
-- packages/vm/src/modules/in_memory_cache.rs: the modules that memory holds up to a size.
use cosmwasm.Base.{ℕ, Option, none, some, Result, ok, err, ltb, if◌then◌else◌}
use cosmwasm.Bytes.{Bytes}
use cosmwasm.Vm.Errors.{VmError}
use cosmwasm.Vm.Modules.{Lru, SizedModule, or_cache_err}

-- The field `modules`; a cache of size 0 has none.
abbrev pub InMemoryCache : Type 0 → Type 0
InMemoryCache L = Option L

module _ {L M : Type 0} (lru : Lru L M) where
  unfoldable pub new : ℕ → InMemoryCache L
  new size = if ltb 0 size then some (lru.with_config size) else none

  unfoldable pub store : InMemoryCache L → Bytes → M → ℕ → Result VmError (InMemoryCache L)
  store none checksum code_module size = ok none
  store (some modules) checksum code_module size =
      elim (or_cache_err "put_with_weight" (
        lru.put_with_weight modules checksum (record { code_module = code_module; size = size }))) [
          | ok modules' ↦ ok (some modules')
          | err e ↦ err e
        ]

  -- A lookup makes the entry the most recently used one.
  unfoldable pub load : InMemoryCache L → Bytes → Option (SizedModule M) × InMemoryCache L
  load none checksum = (none, none)
  load (some modules) checksum =
      let (found, modules') = lru.get modules checksum in (found, some modules')
