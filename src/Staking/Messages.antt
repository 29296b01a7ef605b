-- ===== src/Staking/Messages.antt =====
-- contracts/staking/src/msg.rs and errors.rs, and the messages of a response.
use Prim.Native.String.{String}
use cosmwasm.Base.{ℕ, List, []}
use cosmwasm.Errors.{StdError}
use cosmwasm.Math.Decimal.{Decimal}
use cosmwasm.Staking.{Coin}

-- The text of an amount is kept as the number.
pub data Value : Type 0 where
  label : String → Value
  amount : ℕ → Value

pub data Message : Type 0 where
  delegate undelegate : String → Coin → Message
  send : String → List Coin → Message
  withdraw_delegator_reward : String → Message
  execute_bond_all_tokens : String → Message

pub record Response : Type 0 where
  pub attributes : List (String × Value)
  pub messages : List Message

pub record MessageInfo : Type 0 where
  pub sender : String
  pub funds : List Coin

pub record InstantiateMsg : Type 0 where
  pub name : String
  pub symbol : String
  pub decimals : ℕ
  pub validator : String
  pub exit_tax : Decimal
  pub min_withdrawal : ℕ

pub data ExecuteMsg : Type 0 where
  transfer : String → ℕ → ExecuteMsg
  bond : ExecuteMsg
  unbond : ℕ → ExecuteMsg
  claim : ExecuteMsg
  reinvest : ExecuteMsg
  bond_all_tokens : ExecuteMsg

pub data StakingError : Type 0 where
  std : StdError → StakingError
  unauthorized : StakingError

abbrev pub empty_response : Response
empty_response = record { attributes = []; messages = [] }
