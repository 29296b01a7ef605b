-- ===== src/Staking.antt =====
-- contracts/staking/src: a contract that issues tokens for a stake. `state.rs` is here, `msg.rs` in
-- the child `Messages`, `contract.rs` in `Accounts`, `Handlers`, `Rewards` and `Contract`. A handler takes the storage and returns the response and
-- the storage after it; after an error the chain drops what was written.
pub mod Messages
pub mod Accounts
pub mod Handlers
pub mod Rewards
pub mod Contract
pub mod Totals
pub mod Effects
pub mod Solvent
pub mod Spares
pub mod Preserve
pub mod Withdraw
pub mod Reach
pub mod Genesis
pub mod Progress
use Prim.Native.String.{String}
use cosmwasm.Base.{ℕ, Option, List, [], ◌∷◌, Outcome}
use cosmwasm.Bytes.{Bytes}
use cosmwasm.Errors.{StdError, StdResult}
use cosmwasm.Serde.{Serde}
use cosmwasm.Bucket
use cosmwasm.Bucket.{Bucket}
use cosmwasm.Singleton
use cosmwasm.Singleton.{Singleton}
use cosmwasm.Math.Decimal.{Decimal}

-- `Coin` of packages/std/src/coins.rs.
pub record Coin : Type 0 where
  pub denom : String
  pub amount : ℕ

pub record InvestmentInfo : Type 0 where
  pub owner : String
  pub bond_denom : String
  pub exit_tax : Decimal
  pub validator : String
  pub min_withdrawal : ℕ

pub record TokenInfo : Type 0 where
  pub name : String
  pub symbol : String
  pub decimals : ℕ

pub record Supply : Type 0 where
  pub issued : ℕ
  pub bonded : ℕ
  pub claims : ℕ

-- `b"total_supply"` and the other names in the storage.
abbrev pub key_investment : Bytes
key_investment = 105 ∷ 110 ∷ 118 ∷ 101 ∷ 115 ∷ 116 ∷ []

abbrev pub key_token_info : Bytes
key_token_info = 116 ∷ 111 ∷ 107 ∷ 101 ∷ 110 ∷ []

abbrev pub key_total_supply : Bytes
key_total_supply = 116 ∷ 111 ∷ 116 ∷ 97 ∷ 108 ∷ 95 ∷ 115 ∷ 117 ∷ 112 ∷ 112 ∷ 108 ∷ 121 ∷ []

abbrev pub prefix_balance : Bytes
prefix_balance = 98 ∷ 97 ∷ 108 ∷ 97 ∷ 110 ∷ 99 ∷ 101 ∷ []

abbrev pub prefix_claims : Bytes
prefix_claims = 99 ∷ 108 ∷ 97 ∷ 105 ∷ 109 ∷ []

module _ {S : Type 0} (storage : S) where
  unfoldable pub balances : Outcome (Bucket S)
  unfolding Bucket.bucket
  balances = Bucket.bucket storage prefix_balance

  unfoldable pub claims : Outcome (Bucket S)
  unfolding Bucket.bucket
  claims = Bucket.bucket storage prefix_claims

  unfoldable pub invest_info : Outcome (Singleton S)
  unfolding Singleton.singleton
  invest_info = Singleton.singleton storage key_investment

  unfoldable pub token_info : Outcome (Singleton S)
  unfolding Singleton.singleton
  token_info = Singleton.singleton storage key_token_info

  unfoldable pub total_supply : Outcome (Singleton S)
  unfolding Singleton.singleton
  total_supply = Singleton.singleton storage key_total_supply

-- The JSON of the stored types.
pub record Codecs : Type 0 where
  pub uint128 : Serde ℕ
  pub supply : Serde Supply
  pub investment : Serde InvestmentInfo
  pub token : Serde TokenInfo

-- What a handler asks of the chain: `deps.api` and `deps.querier`.
pub record Chain : Type 0 where
  pub addr_canonicalize : String → StdResult Bytes
  pub query_validator : String → StdResult (Option String)
  pub query_bonded_denom : StdResult String
  pub query_all_delegations : String → StdResult (List Coin)
  pub query_balance : String → String → StdResult Coin
