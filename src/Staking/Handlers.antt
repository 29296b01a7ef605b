-- ===== src/Staking/Handlers.antt =====
-- contracts/staking/src/contract.rs: `transfer`, `bond` and `unbond`.
use Prim.Native.String.{String}
use cosmwasm.Base.{ℕ, [], ◌∷◌, Outcome, ok_or, ltb, if◌then◌else◌}
use cosmwasm.Base.Call.{Call, success, ◌>>=◌, ◌>>◌, try, run}
use cosmwasm.Storage.{Storage}
use cosmwasm.Errors.{StdError, generic_err}
use cosmwasm.Sequence.{or_zero}
use cosmwasm.Math.Uint128
use cosmwasm.Math.Uint256.{U256}
use cosmwasm.Math.Decimal
use cosmwasm.Math.Decimal.{Decimal}
use cosmwasm.Staking.{Supply, Codecs, Chain}
use cosmwasm.Staking.Messages.{label, amount, delegate, undelegate, Response, MessageInfo}
use cosmwasm.Staking.Accounts.{
  fallback_ratio, less, refuse, pay_tax, assert_bonds, find_coin, get_bonded, load_invest,
  load_supply, save_supply, update_balance, update_claim,
}

-- What a payment is worth in tokens.
unfoldable pub to_mint_for : U256 → Supply → ℕ → ℕ → Outcome ℕ
unfolding Decimal.mul_uint128 Uint128.multiply_ratio Uint128.is_zero
to_mint_for u supply bonded payment =
    if Uint128.is_zero supply.issued
    then Decimal.mul_uint128 u payment fallback_ratio
    else if Uint128.is_zero bonded
    then Decimal.mul_uint128 u payment fallback_ratio
    else Uint128.multiply_ratio u payment supply.issued bonded

module _ {S : Type 0} (ops : Storage S) (json : Codecs) (chain : Chain) where
  unfoldable pub do_transfer : MessageInfo → String → ℕ → S → Call StdError (Response × S)
  unfolding update_balance Uint128.checked_sub Uint128.add
  do_transfer info recipient sent storage = do
    rcpt_raw ← try (chain.addr_canonicalize recipient)
    sender_raw ← try (chain.addr_canonicalize info.sender)
    storage1 ← update_balance ops json storage sender_raw (λ balance. less balance sent)
    storage2 ← update_balance ops json storage1 rcpt_raw (λ balance. run (Uint128.add balance sent))
    success (
      record {
        attributes =
            ("action", label "transfer")
            ∷ ("from", label info.sender)
            ∷ ("to", label recipient)
            ∷ ("amount", amount sent)
            ∷ [];
        messages = [];
      },
      storage2,
    )

  module _ (u : U256) where
    unfoldable pub do_bond : String → MessageInfo → S → Call StdError (Response × S)
    unfolding load_invest get_bonded load_supply assert_bonds to_mint_for save_supply update_balance
        Uint128.add
    do_bond contract info storage = do
      sender_raw ← try (chain.addr_canonicalize info.sender)
      invest ← load_invest ops json storage
      payment ←
          try (ok_or (find_coin invest.bond_denom info.funds) (generic_err "No {} tokens sent"))
      bonded ← get_bonded chain contract
      supply ← load_supply ops json storage
      assert_bonds supply bonded
      to_mint ← run (to_mint_for u supply bonded payment.amount)
      bonded' ← run (Uint128.add bonded payment.amount)
      issued' ← run (Uint128.add supply.issued to_mint)
      storage1 ← save_supply ops json storage (record supply { bonded = bonded'; issued = issued' })
      storage2 ←
          update_balance ops json storage1 sender_raw (λ balance. run (Uint128.add balance to_mint))
      success (
        record {
          attributes =
              ("action", label "bond")
              ∷ ("from", label info.sender)
              ∷ ("bonded", amount payment.amount)
              ∷ ("minted", amount to_mint)
              ∷ [];
          messages = delegate invest.validator payment ∷ [];
        },
        storage2,
      )

    unfoldable pub do_unbond : String → MessageInfo → ℕ → S → Call StdError (Response × S)
    unfolding load_invest get_bonded load_supply assert_bonds save_supply update_balance
        update_claim pay_tax Uint128.add Uint128.checked_sub Uint128.multiply_ratio
        Decimal.mul_uint128
    do_unbond contract info burnt storage = do
      invest ← load_invest ops json storage
      refuse (ltb burnt invest.min_withdrawal) "Must unbond at least {} {}"
      sender_raw ← try (chain.addr_canonicalize info.sender)
      owner_raw ← try (chain.addr_canonicalize invest.owner)
      tax ← run (Decimal.mul_uint128 u burnt invest.exit_tax)
      storage1 ← update_balance ops json storage sender_raw (λ balance. less balance burnt)
      storage2 ← pay_tax ops json storage1 owner_raw tax
      bonded ← get_bonded chain contract
      remainder ← less burnt tax
      supply ← load_supply ops json storage2
      assert_bonds supply bonded
      unbonded ← run (Uint128.multiply_ratio u remainder bonded supply.issued)
      bonded' ← less bonded unbonded
      issued' ← less supply.issued remainder
      claims' ← run (Uint128.add supply.claims unbonded)
      storage3 ←
          save_supply ops json storage2
            (record { bonded = bonded'; issued = issued'; claims = claims' })
      storage4 ←
          update_claim ops json storage3 sender_raw
            (λ claim. run (Uint128.add (or_zero claim) unbonded))
      success (
        record {
          attributes =
              ("action", label "unbond")
              ∷ ("to", label info.sender)
              ∷ ("unbonded", amount unbonded)
              ∷ ("burnt", amount burnt)
              ∷ [];
          messages =
              undelegate invest.validator (record { denom = invest.bond_denom; amount = unbonded })
              ∷ [];
        },
        storage4,
      )
