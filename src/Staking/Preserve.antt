-- ===== src/Staking/Preserve.antt =====
-- contracts/staking/src/contract.rs: the books stay balanced over
-- `transfer` and `bond`.
use cosmwasm.Base.{ok, ◌≢◌, ok_or, ℕ, ◌+◌, ◌≡◌, ◌∙◌, ap, arith}
use cosmwasm.Base.Call.{success, try, run, after}
use cosmwasm.Bytes.{Bytes}
use cosmwasm.Storage.{Storage, IsStorage}
use cosmwasm.Errors.{generic_err}
use cosmwasm.Math.Uint128
use cosmwasm.Math.Uint256.{U256}
use cosmwasm.Staking.{Supply, Codecs, Chain}
use cosmwasm.Staking.Messages.{Response, MessageInfo}
use cosmwasm.Staking.Accounts.{
  less, load_supply, update_balance, save_supply, pay_tax, find_coin, load_invest, get_bonded,
  assert_bonds,
}
use cosmwasm.Staking.Handlers.{do_transfer, do_bond, to_mint_for}
use cosmwasm.Staking.Spares.{
  less-eq, add-eq, not_sender, Spares, Spares-trans, update_balance-Spares, credit-Spares,
  save_supply-Spares,
}
use cosmwasm.Staking.Solvent.{
  IsCodecs, balance_total, claim_total, update_balance_effect, save_supply_effect,
}

module _ {S : Type 0} {ops : Storage S} (law : IsStorage ops) {json : Codecs}
    (codecs : IsCodecs json) where
  -- The tokens issued are those in the accounts, and the claims recorded those open.
  pub record IsSolvent (s : S) : Type 0 where
    pub valid : law.IsValid s
    pub supply : Supply
    pub loaded : load_supply ops json s ≡ success supply
    pub issued : balance_total law codecs s ≡ supply.issued
    pub claimed : claim_total law codecs s ≡ supply.claims

  -- What a successful call of a sender leaves: balanced books, and everyone else's accounts.
  pub record IsKept (chain : Chain) (info : MessageInfo) (s s' : S) : Type 0 where
    pub solvent : IsSolvent s'
    pub spares : (j : Bytes) → chain.addr_canonicalize info.sender ≢ ok j → Spares ops json s s' j

  pub debit_effect :
      (s s' : S) (k : Bytes) (t : ℕ)
      → law.IsValid s
      → update_balance ops json s k (λ balance. less balance t) ≡ success s'
      → law.IsValid s'
        × (balance_total law codecs s' + t ≡ balance_total law codecs s)
        × (claim_total law codecs s' ≡ claim_total law codecs s)
        × (load_supply ops json s' ≡ load_supply ops json s)
  debit_effect s s' k t valid h =
      let (old, new, ran, valid', sum, same, supply) =
        update_balance_effect law codecs s s' k (λ balance. less balance t) valid h in
      (valid', omega (arith, less-eq old t ran), same, supply)

  pub credit_effect :
      (s s' : S) (k : Bytes) (t : ℕ)
      → law.IsValid s
      → update_balance ops json s k (λ balance. run (Uint128.add balance t)) ≡ success s'
      → law.IsValid s'
        × (balance_total law codecs s' ≡ balance_total law codecs s + t)
        × (claim_total law codecs s' ≡ claim_total law codecs s)
        × (load_supply ops json s' ≡ load_supply ops json s)
  credit_effect s s' k t valid h =
      let (old, new, ran, valid', sum, same, supply) =
        update_balance_effect law codecs s s' k (λ balance. run (Uint128.add balance t)) valid h in
      (valid', omega (arith, add-eq old t ran), same, supply)

  pub do_transfer-IsKept :
      (chain : Chain) (info : MessageInfo) (recipient : _) (sent : ℕ) (s s' : S) (r : Response)
      → IsSolvent s
      → do_transfer ops json chain info recipient sent s ≡ success (r, s')
      → IsKept chain info s s'
  unfolding do_transfer
  do_transfer-IsKept chain info recipient sent s s' r solvent h =
      after (try (chain.addr_canonicalize recipient)) _ h λ rcpt _ h1.
        after (try (chain.addr_canonicalize info.sender)) _ h1 λ sender named h2.
          after (update_balance ops json s sender (λ balance. less balance sent)) _ h2
            λ s1 debited h3.
              after (update_balance ops json s1 rcpt (λ balance. run (Uint128.add balance sent))) _
                h3
                λ s2 credited h4.
                  let (valid1, sum1, claims1, supply1) =
                    debit_effect s s1 sender sent solvent.valid debited in
                  let (valid2, sum2, claims2, supply2) =
                    credit_effect s1 s2 rcpt sent valid1 credited in
                  let e : s2 ≡ s' = cc in
                  let balanced : IsSolvent s2 = record {
                    valid = valid2;
                    supply = solvent.supply;
                    loaded = supply2 ∙ supply1 ∙ solvent.loaded;
                    issued = omega (arith, solvent.issued);
                    claimed = claims2 ∙ claims1 ∙ solvent.claimed;
                  } in
                  let kept : IsKept chain info s s2 = record {
                    solvent = balanced;
                    spares = λ j away.
                        let other = not_sender (chain.addr_canonicalize info.sender) named away in
                        Spares-trans ops json s s1 s2 j
                          (update_balance-Spares law codecs s s1 sender j
                            (λ balance. less balance sent) solvent.valid debited other)
                          (credit-Spares law codecs s1 s2 rcpt j sent valid1 credited);
                  } in
                  rw e at kept

  pub do_bond-IsKept :
      (u : U256) (chain : Chain) (contract : _) (info : MessageInfo) (s s' : S) (r : Response)
      → IsSolvent s
      → do_bond ops json chain u contract info s ≡ success (r, s')
      → IsKept chain info s s'
  unfolding do_bond
  do_bond-IsKept u chain contract info s s' r solvent h =
      after (try (chain.addr_canonicalize info.sender)) _ h λ sender named h1.
        after (load_invest ops json s) _ h1 λ invest _ h2.
          after
            (try (ok_or (find_coin invest.bond_denom info.funds) (generic_err "No {} tokens sent")))
            _ h2
            λ payment _ h3. after (get_bonded chain contract) _ h3 λ bonded _ h4.
              after (load_supply ops json s) _ h4 λ supply loaded h5.
                after (assert_bonds supply bonded) _ h5 λ _ _ h6.
                  after (run (to_mint_for u supply bonded payment.amount)) _ h6 λ to_mint _ h7.
                    after (run (Uint128.add bonded payment.amount)) _ h7 λ bonded' _ h8.
                      after (run (Uint128.add supply.issued to_mint)) _ h8 λ issued' sum h9.
                        after
                          (save_supply ops json s
                            (record supply { bonded = bonded'; issued = issued' }))
                          _ h9
                          λ s1 saved h10.
                            after
                              (update_balance ops json s1 sender
                                (λ balance. run (Uint128.add balance to_mint)))
                              _ h10
                              λ s2 credited h11.
                                let (valid1, balance1, claims1, supply1) =
                                  save_supply_effect law codecs s s1 _ solvent.valid saved in
                                let (valid2, balance2, claims2, supply2) =
                                  credit_effect s1 s2 sender to_mint valid1 credited in
                                let same : solvent.supply ≡ supply = cc in
                                let e : s2 ≡ s' = cc in
                                let balanced : IsSolvent s2 = record {
                                  valid = valid2;
                                  supply = record supply { bonded = bonded'; issued = issued' };
                                  loaded = supply2 ∙ supply1;
                                  issued = omega (
                                    arith,
                                    solvent.issued,
                                    add-eq supply.issued to_mint sum,
                                    ap (λ x. x.issued) same,
                                  );
                                  claimed =
                                      claims2 ∙ claims1 ∙ solvent.claimed ∙ ap (λ x. x.claims) same;
                                } in
                                let kept : IsKept chain info s s2 = record {
                                  solvent = balanced;
                                  spares = λ j away.
                                      let other =
                                        not_sender (chain.addr_canonicalize info.sender) named
                                          away in
                                      Spares-trans ops json s s1 s2 j
                                        (save_supply-Spares law codecs s s1 j
                                          (record supply { bonded = bonded'; issued = issued' })
                                          solvent.valid saved)
                                        (credit-Spares law codecs s1 s2 sender j to_mint valid1
                                          credited);
                                } in
                                rw e at kept

  pub pay_tax_effect :
      (s s' : S) (k : Bytes) (t : ℕ)
      → law.IsValid s
      → pay_tax ops json s k t ≡ success s'
      → law.IsValid s'
        × (balance_total law codecs s' ≡ balance_total law codecs s + t)
        × (claim_total law codecs s' ≡ claim_total law codecs s)
        × (load_supply ops json s' ≡ load_supply ops json s)
  unfolding pay_tax
  pay_tax_effect s s' k t valid h = grind (arith, credit_effect s s' k t valid)
