-- ===== src/Vm/Environment/Accounting.antt =====
-- What `process_gas_info` does to the gas of a contract.
use cosmwasm.Base.{
  ℕ, ◌+◌, ◌-◌, ◌^◌, ◌≤◌, ◌<◌, ◌≡◌, some, leb, if◌then◌else◌, arith, refl, ◌⊎◌, inl, inr, Bool-cases,
  leb→le, leb→gt,
}
use cosmwasm.Base.Call.{success, failure}
use cosmwasm.Vm.Errors.{gas_depletion}
use cosmwasm.Vm.Gas.{GasInfo, add64}
use cosmwasm.Vm.Environment.{Environment, Host, process_gas_info}

-- The metering of the Wasm instance reads back the points that were set.
pub record IsMetered {W S Q : Type 0} (host : Host W S Q) : Type 0 where
  pub read_back : (w : W) (n : ℕ) → host.gas_left (host.set_gas w n) ≡ n

module _ {W S Q : Type 0} {host : Host W S Q} (metered : IsMetered host) where
  module _ (e : Environment W S Q) (w : W) (info : GasInfo)
      (running : e.wasm_instance ≡ some w) where
    -- The environment after the call, whatever its result: the instance may use what is left of
    -- its gas, and the external use is counted. Nothing else changes.
    abbrev pub charged : Environment W S Q
    charged = record e {
      gas_state = record {
        gas_limit = e.gas_state.gas_limit;
        externally_used_gas = add64 e.gas_state.externally_used_gas info.externally_used;
      };
      wasm_instance = some (host.set_gas w (host.gas_left w - info.externally_used - info.cost));
    }

    -- With a running instance and amounts whose sum is a `u64`, the call succeeds if the gas left
    -- covers both and else is a gas depletion; either way it leaves `charged`.
    pub process_gas_info_lem :
        info.externally_used + info.cost < 2 ^ 64
        → process_gas_info host info e ≡ (
          if leb (info.externally_used + info.cost) (host.gas_left w)
              then success tt
              else failure gas_depletion,
          charged,
        )
    unfolding process_gas_info
    process_gas_info_lem h = ground arith

    -- For a running instance that gives back the gas that was set, a call with amounts whose sum is a `u64` and an external use that stays
    -- one leaves a running instance, the limit, the storage and the querier. It succeeds, and what is
    -- left, what was used externally and the cost add up to what was left and used externally before;
    -- or it is a gas depletion, less was left than the amounts, and now nothing is left.
    pub process_gas_info_conserves :
        info.externally_used + info.cost < 2 ^ 64
        → e.gas_state.externally_used_gas + info.externally_used < 2 ^ 64
        → (e' : Environment W S Q) × (w' : W) × (e'.wasm_instance ≡ some w')
          × (e'.gas_state.gas_limit ≡ e.gas_state.gas_limit)
          × (e'.storage ≡ e.storage)
          × (e'.querier ≡ e.querier)
          × (((process_gas_info host info e ≡ (success tt, e'))
                × (host.gas_left w' + e'.gas_state.externally_used_gas + info.cost
                    ≡ host.gas_left w + e.gas_state.externally_used_gas))
              ⊎ ((process_gas_info host info e ≡ (failure gas_depletion, e'))
                  × (host.gas_left w < info.externally_used + info.cost)
                  × (host.gas_left w' ≡ 0)))
    process_gas_info_conserves h u =
        let left = host.gas_left w - info.externally_used - info.cost in
        let run = process_gas_info_lem h in
        let back = metered.read_back w left in
        (
          charged,
          host.set_gas w left,
          refl,
          refl,
          refl,
          refl,
          elim (Bool-cases (leb (info.externally_used + info.cost) (host.gas_left w))) [
            | inl t ↦ inl (ground (arith, run), omega (arith, back, leb→le _ _ t))
            | inr f ↦ inr (ground (arith, run), leb→gt _ _ f, omega (arith, back, leb→gt _ _ f))
          ],
        )

    -- Amounts of `u64` whose sum is not a `u64`, and wraps around to at most the gas left of a
    -- running instance, are charged with success.
    pub process_gas_info_wraps :
        2 ^ 64 ≤ info.externally_used + info.cost
        → info.externally_used < 2 ^ 64
        → info.cost < 2 ^ 64
        → host.gas_left w < 2 ^ 64
        → info.externally_used + info.cost ≤ host.gas_left w + 2 ^ 64
        → process_gas_info host info e ≡ (success tt, charged)
    unfolding process_gas_info
    process_gas_info_wraps over hu hc hg fits = ground arith
