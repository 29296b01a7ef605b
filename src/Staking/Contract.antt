-- ===== src/Staking/Contract.antt =====
-- contracts/staking/src/contract.rs: the entry points.
use Prim.Native.String.{String}
use cosmwasm.Base.Call.{Call, success, ◌>>=◌, ◌>>◌, try, run, map_failure}
use cosmwasm.Storage.{Storage}
use cosmwasm.Errors.{StdError}
use cosmwasm.Singleton
use cosmwasm.Singleton.{Singleton}
use cosmwasm.Math.Uint256.{U256}
use cosmwasm.Staking.{Codecs, Chain, invest_info, token_info}
use cosmwasm.Staking.Messages.{
  Response, MessageInfo, InstantiateMsg, ExecuteMsg, StakingError, std, empty_response,
}
use cosmwasm.Staking.Accounts.{refuse, is_none, save_supply}
use cosmwasm.Staking.Handlers.{do_transfer, do_bond, do_unbond}
use cosmwasm.Staking.Rewards.{do_claim, do_reinvest, do_bond_all_tokens}

module _ {S : Type 0} (ops : Storage S) (json : Codecs) (chain : Chain) where
  unfoldable pub instantiate : MessageInfo → InstantiateMsg → S → Call StdError (Response × S)
  unfolding token_info invest_info Singleton.save save_supply
  instantiate info msg storage = do
    validator ← try (chain.query_validator msg.validator)
    refuse (is_none validator) "{} is not in the current validator set"
    token ← run (token_info storage)
    token' ←
        Singleton.save ops json.token token
          (record { name = msg.name; symbol = msg.symbol; decimals = msg.decimals })
    denom ← try chain.query_bonded_denom
    invest ← run (invest_info token'.storage)
    invest' ← Singleton.save ops json.investment invest (record {
      owner = info.sender;
      bond_denom = denom;
      exit_tax = msg.exit_tax;
      validator = msg.validator;
      min_withdrawal = msg.min_withdrawal;
    })
    storage1 ← save_supply ops json invest'.storage (record { issued = 0; bonded = 0; claims = 0 })
    success (empty_response, storage1)

  unfoldable pub execute :
      U256 → String → MessageInfo → ExecuteMsg → S → Call StakingError (Response × S)
  unfolding do_transfer do_bond do_unbond do_claim do_reinvest do_bond_all_tokens
  execute u contract info (ExecuteMsg.transfer recipient sent) storage =
      map_failure std (do_transfer ops json chain info recipient sent storage)
  execute u contract info ExecuteMsg.bond storage =
      map_failure std (do_bond ops json chain u contract info storage)
  execute u contract info (ExecuteMsg.unbond burnt) storage =
      map_failure std (do_unbond ops json chain u contract info burnt storage)
  execute u contract info ExecuteMsg.claim storage =
      map_failure std (do_claim ops json chain contract info storage)
  execute u contract info ExecuteMsg.reinvest storage =
      map_failure std (do_reinvest ops json chain contract storage)
  execute u contract info ExecuteMsg.bond_all_tokens storage =
      do_bond_all_tokens ops json chain contract info storage
