-- ===== src/Staking/Genesis.antt =====
-- contracts/staking/src/contract.rs: `instantiate` opens balanced books, and every storage that a
-- sequence of calls leads to is balanced.
use Prim.Native.String.{String}
use cosmwasm.Base.{◌≡◌, refl, ◌∙◌, ap, [], ◌∷◌}
use cosmwasm.Base.Call.{success, try, after}
use cosmwasm.Bytes.{Bytes, strip}
use cosmwasm.Storage.{Storage, IsStorage}
use cosmwasm.Math.Uint256.{U256}
use cosmwasm.LengthPrefixed.{to_length_prefixed, encode_length}
use cosmwasm.Namespace.Subset.{under}
use cosmwasm.Singleton
use cosmwasm.Singleton.{Singleton}
use cosmwasm.Staking.{
  Supply, Codecs, Chain, key_token_info, key_investment, token_info, invest_info,
}
use cosmwasm.Staking.Totals.{total}
use cosmwasm.Staking.Messages.{Response, MessageInfo, InstantiateMsg, ExecuteMsg}
use cosmwasm.Staking.Accounts.{is_none, refuse, save_supply}
use cosmwasm.Staking.Contract.{instantiate, execute}
use cosmwasm.Staking.Solvent.{
  IsCodecs, singleton_effect, save_supply_effect, raw_balance, raw_claims,
}
use cosmwasm.Staking.Preserve.{IsSolvent}
use cosmwasm.Staking.Reach.{execute-IsSolvent}

-- The raw keys, each with its length in front.
abbrev raw_token : Bytes
raw_token = 0 ∷ 5 ∷ key_token_info

abbrev raw_investment : Bytes
raw_investment = 0 ∷ 6 ∷ key_investment

-- `Supply::default()`
abbrev no_supply : Supply
no_supply = record { issued = 0; bonded = 0; claims = 0 }

module _ {S : Type 0} {ops : Storage S} (law : IsStorage ops) {json : Codecs}
    (codecs : IsCodecs json) where
  instantiate-IsSolvent :
      (chain : Chain) (info : MessageInfo) (msg : InstantiateMsg) (s s' : S) (r : Response)
      → law.IsValid s
      → law.view s ≡ []
      → instantiate ops json chain info msg s ≡ success (r, s')
      → IsSolvent law codecs s'
  unfolding under strip total instantiate token_info invest_info Singleton.new to_length_prefixed
      encode_length
  instantiate-IsSolvent chain info msg s s' r valid fresh h =
      after (try (chain.query_validator msg.validator)) _ h λ validator _ h1.
        after (refuse (is_none validator) "{} is not in the current validator set") _ h1 λ _ _ h2.
          let one : Singleton S = record { storage = s; key = raw_token } in
          after
            (Singleton.save ops json.token one
              (record { name = msg.name; symbol = msg.symbol; decimals = msg.decimals }))
            _ h2
            λ one' saved_token h3. after (try chain.query_bonded_denom) _ h3 λ denom _ h4.
              let two : Singleton S = record { storage = one'.storage; key = raw_investment } in
              after
                (Singleton.save ops json.investment two (record {
                  owner = info.sender;
                  bond_denom = denom;
                  exit_tax = msg.exit_tax;
                  validator = msg.validator;
                  min_withdrawal = msg.min_withdrawal;
                }))
                _ h4
                λ two' saved_investment h5.
                  after (save_supply ops json two'.storage no_supply) _ h5 λ s3 saved h6.
                    let (valid1, balance1, claims1, _) =
                      singleton_effect law codecs codecs.token one one' _ refl refl valid
                        saved_token in
                    let (valid2, balance2, claims2, _) =
                      singleton_effect law codecs codecs.investment two two' _ refl refl valid1
                        saved_investment in
                    let (valid3, balance3, claims3, supply) =
                      save_supply_effect law codecs two'.storage s3 no_supply valid2 saved in
                    let e : s3 ≡ s' = cc in
                    let kept : IsSolvent law codecs s3 = record {
                      valid = valid3;
                      supply = no_supply;
                      loaded = supply;
                      issued =
                          balance3
                          ∙ balance2
                          ∙ balance1
                          ∙ ap (λ m. total json.uint128 (under raw_balance m)) fresh;
                      claimed =
                          claims3
                          ∙ claims2
                          ∙ claims1
                          ∙ ap (λ m. total json.uint128 (under raw_claims m)) fresh;
                    } in
                    rw e at kept

-- The storages that the calls of a contract lead to: `instantiate` on an empty storage, then any
-- calls of `execute`, each by any caller, with any funds and any answers of the chain.
pub data Reachable {S : Type 0} {ops : Storage S} (law : IsStorage ops) (json : Codecs) (u : U256)
    : S → Type 0 where
  instantiated :
      (chain : Chain) (info : MessageInfo) (msg : InstantiateMsg) (s s' : S) (r : Response)
      → law.IsValid s
      → law.view s ≡ []
      → instantiate ops json chain info msg s ≡ success (r, s')
      → Reachable law json u s'
  executed :
      (chain : Chain) (contract : String) (info : MessageInfo) (msg : ExecuteMsg) (s s' : S)
      (r : Response)
      → Reachable law json u s
      → execute ops json chain u contract info msg s ≡ success (r, s')
      → Reachable law json u s'

-- After `instantiate` on an empty storage and any sequence of successful calls, by anyone, with any
-- funds and answers of the chain, the contract's books are balanced: the stored supply can be read,
-- the tokens issued are the sum of the balances, and the claims recorded the sum of the open
-- claims. The storage keeps its laws and the JSON of the stored types is read back as written.
pub Reachable-IsSolvent :
    {S : Type 0} {ops : Storage S} (law : IsStorage ops) {json : Codecs} (codecs : IsCodecs json)
    (u : U256) (s : S)
    → Reachable law json u s
    → IsSolvent law codecs s
Reachable-IsSolvent law codecs u s (instantiated chain info msg s0 s' r valid fresh h) =
    instantiate-IsSolvent law codecs chain info msg s0 s r valid fresh h
Reachable-IsSolvent law codecs u s (executed chain contract info msg s0 s' r reached h) =
    execute-IsSolvent law codecs u chain contract info msg s0 s r
      (Reachable-IsSolvent law codecs u s0 reached) h
