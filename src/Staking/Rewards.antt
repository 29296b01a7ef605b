-- ===== src/Staking/Rewards.antt =====
-- contracts/staking/src/contract.rs: `claim`, `reinvest` and `_bond_all_tokens`.
use Prim.Native.String.{String}
use text.Mathlib.Text.{◌==◌ as str_eq}
use cosmwasm.Base.{ℕ, Option, none, some, [], ◌∷◌, Bool, true, false, ltb, min}
use cosmwasm.Base.Call.{Call, success, failure, panic, ◌>>=◌, ◌>>◌, try, try_into, run, map_failure}
use cosmwasm.Storage.{Storage}
use cosmwasm.Errors.{StdError, generic_err, overflow}
use cosmwasm.Math.Uint128
use cosmwasm.Staking.{Coin, InvestmentInfo, Supply, Codecs, Chain}
use cosmwasm.Staking.Messages.{
  label, amount, delegate, send, withdraw_delegator_reward, execute_bond_all_tokens, Response,
  MessageInfo, StakingError, std, unauthorized, empty_response,
}
use cosmwasm.Staking.Accounts.{
  less, refuse, load_invest, load_supply, save_supply, update_claim, load_claim,
}

-- What the closure of `claim` leaves in `to_send`, and the claim that it returns.
abbrev pub to_send_of : ℕ → Option ℕ → ℕ
to_send_of balance none = balance
to_send_of balance (some c) = min balance c

abbrev pub rest_of_claim : ℕ → Option ℕ → Call StdError ℕ
rest_of_claim balance none = failure (generic_err "no claim for this address")
rest_of_claim balance (some c) = less c (min balance c)

-- `balance` is sent with its amount replaced.
abbrev pub claim_response : MessageInfo → Coin → ℕ → Response
claim_response info balance to_send = record {
  attributes =
      ("action", label "claim") ∷ ("from", label info.sender) ∷ ("amount", amount to_send) ∷ [];
  messages = send info.sender (record balance { amount = to_send } ∷ []) ∷ [];
}

-- What the closure of `_bond_all_tokens` makes of the supply, with the amount to bond.
abbrev pub rebond : ℕ → ℕ → Supply → Call StdError (ℕ × Supply)
rebond balance min_withdrawal supply = do
  left ← less balance supply.claims
  less left min_withdrawal
  bonded' ← run (Uint128.add supply.bonded left)
  success (left, record supply { bonded = bonded' })

module _ {S : Type 0} (ops : Storage S) (json : Codecs) where
  unfoldable pub update_supply_bonded : S → ℕ → ℕ → Call StdError (ℕ × S)
  unfolding load_supply save_supply Uint128.checked_sub Uint128.add
  update_supply_bonded storage balance min_withdrawal = do
    supply ← load_supply ops json storage
    r ← rebond balance min_withdrawal supply
    storage1 ← save_supply ops json storage r.1
    success (r.0, storage1)

-- An early `return Err(Unauthorized {}.build())`.
abbrev pub authorize : Bool → Call StakingError (Unit {0})
authorize true = success tt
authorize false = failure unauthorized

-- The `match` of `_bond_all_tokens` on what the update returns.
abbrev pub delegate_rest :
    {S : Type 0}
    → InvestmentInfo
    → Coin
    → S
    → Call StdError (ℕ × S)
    → Call StakingError (Response × S)
delegate_rest invest balance storage (success (bonded, storage1)) = success (
  record {
    attributes = ("action", label "reinvest") ∷ ("bonded", amount bonded) ∷ [];
    messages = delegate invest.validator (record balance { amount = bonded }) ∷ [];
  },
  storage1,
)
delegate_rest invest balance storage (failure (overflow e)) = success (empty_response, storage)
delegate_rest invest balance storage (failure e) = failure (std e)
delegate_rest invest balance storage panic = panic

module _ {S : Type 0} (ops : Storage S) (json : Codecs) (chain : Chain) where
  unfoldable pub do_claim : String → MessageInfo → S → Call StdError (Response × S)
  unfolding load_invest update_claim load_claim load_supply save_supply Uint128.checked_sub
  do_claim contract info storage = do
    invest ← load_invest ops json storage
    balance ← try (chain.query_balance contract invest.bond_denom)
    refuse (ltb balance.amount invest.min_withdrawal)
        "Insufficient balance in contract to process claim"
    sender_raw ← try (chain.addr_canonicalize info.sender)
    old ← load_claim ops json storage sender_raw
    storage1 ← update_claim ops json storage sender_raw (rest_of_claim balance.amount)
    let to_send = to_send_of balance.amount old
    supply ← load_supply ops json storage1
    claims' ← less supply.claims to_send
    storage2 ← save_supply ops json storage1 (record supply { claims = claims' })
    success (claim_response info balance to_send, storage2)

  unfoldable pub do_reinvest : String → S → Call StdError (Response × S)
  unfolding load_invest
  do_reinvest contract storage = do
    invest ← load_invest ops json storage
    success (
      record {
        attributes = [];
        messages =
            withdraw_delegator_reward invest.validator ∷ execute_bond_all_tokens contract ∷ [];
      },
      storage,
    )

  unfoldable pub do_bond_all_tokens : String → MessageInfo → S → Call StakingError (Response × S)
  unfolding load_invest update_supply_bonded
  do_bond_all_tokens contract info storage = do
    authorize (str_eq info.sender contract)
    invest ← map_failure std (load_invest ops json storage)
    balance ← try_into std (chain.query_balance contract invest.bond_denom)
    delegate_rest invest balance storage
        (update_supply_bonded ops json storage balance.amount invest.min_withdrawal)
