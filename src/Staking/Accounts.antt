-- ===== src/Staking/Accounts.antt =====
-- The helpers of contracts/staking/src/contract.rs, and its reads and writes of the storage. A
-- read-only bucket or singleton loads as the writable one does, so the readers share their accessors.
use Prim.Native.String.{String}
use text.Mathlib.Text.{◌==◌ as str_eq}
use cosmwasm.Base.{
  ltb, ℕ, Option, none, some, List, [], ◌∷◌, Bool, true, false, ◌==◌, if◌then◌else◌,
}
use cosmwasm.Base.Call.{Call, success, failure, ◌>>=◌, try, try_into, run}
use cosmwasm.Bytes.{Bytes}
use cosmwasm.Storage.{Storage}
use cosmwasm.Errors.{StdError, generic_err, overflow}
use cosmwasm.Bucket
use cosmwasm.Bucket.{Bucket}
use cosmwasm.Singleton
use cosmwasm.Singleton.{Singleton}
use cosmwasm.Sequence.{or_zero}
use cosmwasm.Math.Uint128
use cosmwasm.Math.Decimal
use cosmwasm.Math.Decimal.{Decimal}
use cosmwasm.Staking.{
  Coin, InvestmentInfo, Supply, Codecs, Chain, balances, claims, invest_info, total_supply,
}

abbrev pub fallback_ratio : Decimal
fallback_ratio = Decimal.decimal_fractional

-- `a.checked_sub(b)?`
abbrev pub less : ℕ → ℕ → Call StdError ℕ
less a b = try_into overflow (Uint128.checked_sub a b)

unfoldable pub add_bonds : String → Call StdError ℕ → List Coin → Call StdError ℕ
unfolding Uint128.add
add_bonds denom acc [] = acc
add_bonds denom acc (d ∷ rest) =
    add_bonds denom
      (acc >>= λ n.
        if str_eq d.denom denom
        then run (Uint128.add n d.amount)
        else failure (generic_err "different denoms in bonds: '{}' vs '{}'"))
      rest

-- An early `return Err(StdError::generic_err(…))`.
abbrev pub refuse : Bool → String → Call StdError (Unit {0})
refuse true message = failure (generic_err message)
refuse false message = success tt

abbrev pub is_none : Option String → Bool
is_none none = true
is_none (some v) = false

-- The sum of all delegations, which must be of one denomination.
unfoldable pub sum_bonds : List Coin → Call StdError ℕ
unfolding add_bonds
sum_bonds [] = success 0
sum_bonds (d ∷ rest) = add_bonds d.denom (success 0) (d ∷ rest)

unfoldable pub assert_bonds : Supply → ℕ → Call StdError (Unit {0})
assert_bonds supply bonded =
    if supply.bonded == bonded
    then success tt
    else failure (generic_err "Stored bonded {}, but query bonded: {}")

abbrev pub find_coin : String → List Coin → Option Coin
find_coin denom [] = none
find_coin denom (c ∷ rest) = if str_eq c.denom denom then some c else find_coin denom rest

unfoldable pub get_bonded : Chain → String → Call StdError ℕ
unfolding sum_bonds
get_bonded chain contract_addr = do
  bonds ← try (chain.query_all_delegations contract_addr)
  sum_bonds bonds

module _ {S : Type 0} (ops : Storage S) (json : Codecs) where
  unfoldable pub load_invest : S → Call StdError InvestmentInfo
  unfolding invest_info Singleton.load
  load_invest storage = do s ← run (invest_info storage); try (Singleton.load ops json.investment s)

  unfoldable pub load_supply : S → Call StdError Supply
  unfolding total_supply Singleton.load
  load_supply storage = do s ← run (total_supply storage); try (Singleton.load ops json.supply s)

  -- `totals.save(&supply)?`
  unfoldable pub save_supply : S → Supply → Call StdError S
  unfolding total_supply Singleton.save
  save_supply storage supply = do
    s ← run (total_supply storage)
    s' ← Singleton.save ops json.supply s supply
    success s'.storage

  -- `balances(deps.storage).update(key, action)?` and the like.
  unfoldable pub update_balance : S → Bytes → (ℕ → Call StdError ℕ) → Call StdError S
  unfolding balances Bucket.update
  update_balance storage key action = do
    accounts ← run (balances storage)
    r ← Bucket.update ops json.uint128 (λ e. e) accounts key (λ balance. action (or_zero balance))
    success r.1.storage

  unfoldable pub update_claim : S → Bytes → (Option ℕ → Call StdError ℕ) → Call StdError S
  unfolding claims Bucket.update
  update_claim storage key action = do
    open_claims ← run (claims storage)
    r ← Bucket.update ops json.uint128 (λ e. e) open_claims key action
    success r.1.storage

  -- The claim before the update, which the closure is given.
  unfoldable pub load_claim : S → Bytes → Call StdError (Option ℕ)
  unfolding claims Bucket.may_load
  load_claim storage key = do
    open_claims ← run (claims storage)
    try (Bucket.may_load ops json.uint128 open_claims key)

  -- `if tax > 0`: the owner's share.
  unfoldable pub pay_tax : S → Bytes → ℕ → Call StdError S
  unfolding update_balance Uint128.add
  pay_tax storage owner_raw tax =
      if ltb 0 tax
      then update_balance storage owner_raw (λ balance. run (Uint128.add balance tax))
      else success storage
