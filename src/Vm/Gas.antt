-- ===== src/Vm/Gas.antt =====
-- Gas as numbers: `GasInfo` of packages/vm/src/backend.rs, `GasConfig` and `GasState` of
-- packages/vm/src/environment.rs. The numbers are `u64`; sums wrap, as in a release build.
use cosmwasm.Base.{ℕ, ◌+◌, ◌*◌, ◌/◌, ◌%◌, ◌^◌}

pub record GasInfo : Type 0 where
  pub cost : ℕ
  pub externally_used : ℕ

abbrev pub add64 : ℕ → ℕ → ℕ
add64 a b = (a + b) % 2 ^ 64

unfoldable pub with_cost : ℕ → GasInfo
with_cost amount = record { cost = amount; externally_used = 0 }

unfoldable pub with_externally_used : ℕ → GasInfo
with_externally_used amount = record { cost = 0; externally_used = amount }

unfoldable pub free : GasInfo
free = record { cost = 0; externally_used = 0 }

-- `impl AddAssign for GasInfo`
unfoldable pub add_assign : GasInfo → GasInfo → GasInfo
add_assign a b = record {
  cost = add64 a.cost b.cost;
  externally_used = add64 a.externally_used b.externally_used;
}

pub record GasConfig : Type 0 where
  pub secp256k1_verify_cost : ℕ
  pub secp256k1_recover_pubkey_cost : ℕ
  pub ed25519_verify_cost : ℕ
  pub ed25519_batch_verify_cost : ℕ
  pub ed25519_batch_verify_one_pubkey_cost : ℕ

abbrev pub gas_per_us : ℕ
gas_per_us = 1_000_000_000

-- `impl Default for GasConfig`
unfoldable pub default_config : GasConfig
default_config = record {
  secp256k1_verify_cost = 154 * gas_per_us;
  secp256k1_recover_pubkey_cost = 162 * gas_per_us;
  ed25519_verify_cost = 63 * gas_per_us;
  ed25519_batch_verify_cost = 63 * gas_per_us / 2;
  ed25519_batch_verify_one_pubkey_cost = 63 * gas_per_us / 4;
}

pub record GasState : Type 0 where
  pub gas_limit : ℕ
  pub externally_used_gas : ℕ

unfoldable pub with_limit : ℕ → GasState
with_limit gas_limit = record { gas_limit = gas_limit; externally_used_gas = 0 }
