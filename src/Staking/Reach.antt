-- ===== src/Staking/Reach.antt =====
-- contracts/staking/src/contract.rs: the books stay balanced over any sequence of calls.
use Prim.Native.String.{String}
use text.Mathlib.Text.{◌==◌ as str_eq}
use cosmwasm.Base.{◌≢◌, ◌≤◌, arith, ok, refl, ℕ, ◌≡◌, sym, ◌∙◌, ap}
use cosmwasm.Base.Call.{
  Call, success, failure, panic, try_into, run, after, eq_of_success, eq_of_map_failure,
  map_failure,
}
use cosmwasm.Storage.{Storage, IsStorage}
use cosmwasm.Errors.{StdError, overflow}
use cosmwasm.Math.Uint128
use cosmwasm.Math.Uint256.{U256}
use cosmwasm.Staking.{Coin, InvestmentInfo, Supply, Codecs, Chain}
use cosmwasm.Staking.Messages.{Response, MessageInfo, ExecuteMsg, std}
use cosmwasm.Staking.Accounts.{load_supply, save_supply, less, load_invest}
use cosmwasm.Staking.Rewards.{
  authorize, delegate_rest, do_reinvest, rebond, update_supply_bonded, do_bond_all_tokens,
}
use cosmwasm.Staking.Contract.{execute}
use cosmwasm.Staking.Solvent.{IsCodecs, save_supply_effect}
use cosmwasm.Bytes.{Bytes}
use cosmwasm.Staking.Spares.{save_supply-Spares, balance_of, claim_of}
use cosmwasm.Staking.Preserve.{IsSolvent, IsKept, do_transfer-IsKept, do_bond-IsKept}
use cosmwasm.Staking.Withdraw.{do_unbond-IsKept, do_claim-IsKept}

-- Only `bonded` changes.
rebond-issued :
    (balance min_withdrawal : ℕ) (supply : Supply) (r : ℕ × Supply)
    → rebond balance min_withdrawal supply ≡ success r
    → (r.1.issued ≡ supply.issued) × (r.1.claims ≡ supply.claims)
rebond-issued balance min_withdrawal supply r h =
    after (less balance supply.claims) _ h λ left _ h1.
      after (less left min_withdrawal) _ h1
        λ _ _ h2. after (run (Uint128.add supply.bonded left)) _ h2 λ bonded _ h3. (cc, cc)

module _ {S : Type 0} {ops : Storage S} (law : IsStorage ops) {json : Codecs}
    (codecs : IsCodecs json) where
  unchanged :
      (chain : Chain) (info : MessageInfo) (s s' : S)
      → s ≡ s'
      → IsSolvent law codecs s
      → IsKept law codecs chain info s s'
  unchanged chain info s s' e solvent = record {
    solvent = rw e at solvent;
    spares = λ j away. record {
      balance = omega (arith, ap (λ x. balance_of ops json x j) e);
      claim = ap (λ x. claim_of ops json x j) (sym e);
    };
  }

  do_reinvest-IsKept :
      (chain : Chain) (contract : String) (info : MessageInfo) (s s' : S) (r : Response)
      → IsSolvent law codecs s
      → do_reinvest ops json chain contract s ≡ success (r, s')
      → IsKept law codecs chain info s s'
  unfolding do_reinvest
  do_reinvest-IsKept chain contract info s s' r solvent h =
      after (load_invest ops json s) _ h λ invest _ h1. unchanged chain info s s' (cc) solvent

  update_supply_bonded-IsKept :
      (chain : Chain) (info : MessageInfo) (balance min_withdrawal n : ℕ) (s s' : S)
      → IsSolvent law codecs s
      → update_supply_bonded ops json s balance min_withdrawal ≡ success (n, s')
      → IsKept law codecs chain info s s'
  unfolding update_supply_bonded
  update_supply_bonded-IsKept chain info balance min_withdrawal n s s' solvent h =
      after (load_supply ops json s) _ h λ supply read h1.
        after (rebond balance min_withdrawal supply) _ h1 λ r done h2.
          after (save_supply ops json s r.1) _ h2 λ s1 saved h3.
            let (valid1, balance1, claims1, supply1) =
              save_supply_effect law codecs s s1 r.1 solvent.valid saved in
            let (issued, claimed) = rebond-issued balance min_withdrawal supply r done in
            let same : solvent.supply ≡ supply = eq_of_success (sym solvent.loaded ∙ read) in
            let e : s1 ≡ s' = cc in
            let balanced : IsSolvent law codecs s1 = record {
              valid = valid1;
              supply = r.1;
              loaded = supply1;
              issued = balance1 ∙ solvent.issued ∙ ap (λ x. x.issued) same ∙ sym issued;
              claimed = claims1 ∙ solvent.claimed ∙ ap (λ x. x.claims) same ∙ sym claimed;
            } in
            let kept : IsKept law codecs chain info s s1 = record {
              solvent = balanced;
              spares = λ j away. save_supply-Spares law codecs s s1 j r.1 solvent.valid saved;
            } in
            rw e at kept

  delegate_rest-IsKept :
      (chain : Chain) (info : MessageInfo) (invest : InvestmentInfo) (balance : Coin)
      (m : Call StdError (ℕ × S)) (s s' : S) (r : Response)
      → IsSolvent law codecs s
      → ((n : ℕ) (s1 : S) → m ≡ success (n, s1) → IsKept law codecs chain info s s1)
      → delegate_rest invest balance s m ≡ success (r, s')
      → IsKept law codecs chain info s s'
  delegate_rest-IsKept chain info invest balance (success (n, s1)) s s' r solvent kept h =
      let e : s1 ≡ s' = cc in rw e at (kept n s1 refl)
  delegate_rest-IsKept chain info invest balance (failure (overflow o)) s s' r solvent kept h =
      unchanged chain info s s' (cc) solvent
  delegate_rest-IsKept chain info invest balance (failure e) s s' r solvent kept h = cc
  delegate_rest-IsKept chain info invest balance panic s s' r solvent kept h = cc

  do_bond_all_tokens-IsKept :
      (chain : Chain) (contract : String) (info : MessageInfo) (s s' : S) (r : Response)
      → IsSolvent law codecs s
      → do_bond_all_tokens ops json chain contract info s ≡ success (r, s')
      → IsKept law codecs chain info s s'
  unfolding do_bond_all_tokens
  do_bond_all_tokens-IsKept chain contract info s s' r solvent h =
      after (authorize (str_eq info.sender contract)) _ h λ _ _ h1.
        after (map_failure std (load_invest ops json s)) _ h1 λ invest _ h2.
          after (try_into std (chain.query_balance contract invest.bond_denom)) _ h2 λ balance _ h3.
            delegate_rest-IsKept chain info invest balance _ s s' r solvent
              (λ n s1 done.
                update_supply_bonded-IsKept chain info balance.amount invest.min_withdrawal n s s1
                  solvent done)
              h3

  pub execute-IsKept :
      (u : U256) (chain : Chain) (contract : String) (info : MessageInfo) (msg : ExecuteMsg)
      (s s' : S) (r : Response)
      → IsSolvent law codecs s
      → execute ops json chain u contract info msg s ≡ success (r, s')
      → IsKept law codecs chain info s s'
  unfolding execute
  execute-IsKept u chain contract info (ExecuteMsg.transfer recipient sent) s s' r solvent h =
      do_transfer-IsKept law codecs chain info recipient sent s s' r solvent
        (eq_of_map_failure std _ h)
  execute-IsKept u chain contract info ExecuteMsg.bond s s' r solvent h =
      do_bond-IsKept law codecs u chain contract info s s' r solvent (eq_of_map_failure std _ h)
  execute-IsKept u chain contract info (ExecuteMsg.unbond burnt) s s' r solvent h =
      do_unbond-IsKept law codecs u chain contract info burnt s s' r solvent
        (eq_of_map_failure std _ h)
  execute-IsKept u chain contract info ExecuteMsg.claim s s' r solvent h =
      do_claim-IsKept law codecs chain contract info s s' r solvent (eq_of_map_failure std _ h)
  execute-IsKept u chain contract info ExecuteMsg.reinvest s s' r solvent h =
      do_reinvest-IsKept chain contract info s s' r solvent (eq_of_map_failure std _ h)
  execute-IsKept u chain contract info ExecuteMsg.bond_all_tokens s s' r solvent h =
      do_bond_all_tokens-IsKept chain contract info s s' r solvent h

  -- A successful call keeps balanced books balanced: whatever the message, the caller, the funds and
  -- the answers of the chain are, the tokens issued stay the sum of the balances, and the claims
  -- recorded the sum of the open claims.
  pub execute-IsSolvent :
      (u : U256) (chain : Chain) (contract : String) (info : MessageInfo) (msg : ExecuteMsg)
      (s s' : S) (r : Response)
      → IsSolvent law codecs s
      → execute ops json chain u contract info msg s ≡ success (r, s')
      → IsSolvent law codecs s'
  execute-IsSolvent u chain contract info msg s s' r solvent h =
      (execute-IsKept u chain contract info msg s s' r solvent h).solvent

  -- No call takes from anyone but its sender: after a successful call on balanced books, an account j
  -- that is not the canonical address of the sender holds at least what it held, and its claim is
  -- unchanged. The storage keeps its laws and the JSON of the stored types is read back as written.
  pub execute-Spares :
      (u : U256) (chain : Chain) (contract : String) (info : MessageInfo) (msg : ExecuteMsg)
      (s s' : S) (r : Response) (j : Bytes)
      → IsSolvent law codecs s
      → execute ops json chain u contract info msg s ≡ success (r, s')
      → chain.addr_canonicalize info.sender ≢ ok j
      → (balance_of ops json s j ≤ balance_of ops json s' j)
        × (claim_of ops json s' j ≡ claim_of ops json s j)
  execute-Spares u chain contract info msg s s' r j solvent h away =
      let kept = (execute-IsKept u chain contract info msg s s' r solvent h).spares j away in
      (kept.balance, kept.claim)
