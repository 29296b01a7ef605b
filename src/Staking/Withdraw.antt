-- ===== src/Staking/Withdraw.antt =====
-- contracts/staking/src/contract.rs: the books stay balanced over `unbond` and `claim`.
use cosmwasm.Base.{◌≢◌, ℕ, ◌+◌, ◌≡◌, sym, ◌∙◌, ap, Option, none, some, min, ltb, arith}
use cosmwasm.Base.Call.{eq_of_success, success, try, run, after}
use cosmwasm.Bytes.{Bytes}
use cosmwasm.Storage.{Storage, IsStorage}
use cosmwasm.Errors.{StdError}
use cosmwasm.Sequence.{or_zero}
use cosmwasm.Math.Uint128
use cosmwasm.Math.Decimal
use cosmwasm.Math.Uint256.{U256}
use cosmwasm.Staking.{Supply, Codecs, Chain}
use cosmwasm.Staking.Messages.{Response, MessageInfo}
use cosmwasm.Staking.Accounts.{
  less, load_supply, update_balance, load_claim, save_supply, pay_tax, refuse, load_invest,
  get_bonded, assert_bonds, update_claim,
}
use cosmwasm.Staking.Handlers.{do_unbond}
use cosmwasm.Staking.Rewards.{do_claim, to_send_of, rest_of_claim}
use cosmwasm.Staking.Spares.{
  less-eq, add-eq, not_sender, Spares, Spares-trans, update_balance-Spares, save_supply-Spares,
  update_claim-Spares, pay_tax-Spares,
}
use cosmwasm.Staking.Solvent.{IsCodecs, update_claim_effect, save_supply_effect}
use cosmwasm.Staking.Preserve.{IsSolvent, IsKept, debit_effect, pay_tax_effect}

module _ {S : Type 0} {ops : Storage S} (law : IsStorage ops) {json : Codecs}
    (codecs : IsCodecs json) where
  -- What the writes of `unbond` come to.
  module _ (s s1 s2 s3 s4 : S) (sender owner : Bytes) (burnt tax unbonded : ℕ)
      (after_unbond : Supply) (solvent : IsSolvent law codecs s)
      (debited : update_balance ops json s sender (λ balance. less balance burnt) ≡ success s1)
      (taxed : pay_tax ops json s1 owner tax ≡ success s2)
      (saved : save_supply ops json s2 after_unbond ≡ success s3)
      (claimed : update_claim ops json s3 sender
          (λ claim. run (Uint128.add (or_zero claim) unbonded))
        ≡ success s4) where
    unbond-IsSolvent :
        (remainder : ℕ) (supply : Supply)
        → less burnt tax ≡ success remainder
        → load_supply ops json s2 ≡ success supply
        → less supply.issued remainder ≡ success after_unbond.issued
        → run {E = StdError} (Uint128.add supply.claims unbonded) ≡ success after_unbond.claims
        → IsSolvent law codecs s4
    unbond-IsSolvent remainder supply left loaded burned sum =
        let (valid1, balance1, claims1, supply1) =
          debit_effect law codecs s s1 sender burnt solvent.valid debited in
        let (valid2, balance2, claims2, supply2) =
          pay_tax_effect law codecs s1 s2 owner tax valid1 taxed in
        let (valid3, balance3, claims3, supply3) =
          save_supply_effect law codecs s2 s3 after_unbond valid2 saved in
        let (old, new, _, ran, valid4, claims4, balance4, supply4) =
          update_claim_effect law codecs s3 s4 sender
            (λ claim. run (Uint128.add (or_zero claim) unbonded)) valid3 claimed in
        let same : solvent.supply ≡ supply =
          eq_of_success (sym solvent.loaded ∙ sym supply1 ∙ sym supply2 ∙ loaded) in
        record {
          valid = valid4;
          supply = after_unbond;
          loaded = supply4 ∙ supply3;
          issued = omega (
            arith,
            solvent.issued,
            less-eq supply.issued remainder burned,
            less-eq burnt tax left,
            ap (λ x. x.issued) same,
          );
          claimed = omega (
            arith,
            solvent.claimed,
            add-eq supply.claims unbonded sum,
            add-eq (or_zero old) unbonded ran,
            ap (λ x. x.claims) same,
          );
        }

    unbond-Spares : (j : Bytes) → j ≢ sender → Spares ops json s s4 j
    unbond-Spares j other =
        let (valid1, _, _, _) = debit_effect law codecs s s1 sender burnt solvent.valid debited in
        let (valid2, _, _, _) = pay_tax_effect law codecs s1 s2 owner tax valid1 taxed in
        let (valid3, _, _, _) = save_supply_effect law codecs s2 s3 after_unbond valid2 saved in
        Spares-trans ops json s s1 s4 j
          (update_balance-Spares law codecs s s1 sender j (λ balance. less balance burnt)
            solvent.valid debited other)
          (Spares-trans ops json s1 s2 s4 j
            (pay_tax-Spares law codecs s1 s2 owner j tax valid1 taxed)
            (Spares-trans ops json s2 s3 s4 j
              (save_supply-Spares law codecs s2 s3 j after_unbond valid2 saved)
              (update_claim-Spares law codecs s3 s4 sender j
                (λ claim. run (Uint128.add (or_zero claim) unbonded)) valid3 claimed other)))

  pub do_unbond-IsKept :
      (u : U256) (chain : Chain) (contract : _) (info : MessageInfo) (burnt : ℕ) (s s' : S)
      (r : Response)
      → IsSolvent law codecs s
      → do_unbond ops json chain u contract info burnt s ≡ success (r, s')
      → IsKept law codecs chain info s s'
  unfolding do_unbond
  do_unbond-IsKept u chain contract info burnt s s' r solvent h =
      after (load_invest ops json s) _ h λ invest _ h1.
        after (refuse (ltb burnt invest.min_withdrawal) "Must unbond at least {} {}") _ h1 λ _ _ h2.
          after (try (chain.addr_canonicalize info.sender)) _ h2 λ sender named h3.
            after (try (chain.addr_canonicalize invest.owner)) _ h3 λ owner _ h4.
              after (run (Decimal.mul_uint128 u burnt invest.exit_tax)) _ h4 λ tax _ h5.
                after (update_balance ops json s sender (λ balance. less balance burnt)) _ h5
                  λ s1 debited h6. after (pay_tax ops json s1 owner tax) _ h6 λ s2 taxed h7.
                    after (get_bonded chain contract) _ h7 λ bonded _ h8.
                      after (less burnt tax) _ h8 λ remainder left h9.
                        after (load_supply ops json s2) _ h9 λ supply loaded h10.
                          after (assert_bonds supply bonded) _ h10 λ _ _ h11.
                            after (run (Uint128.multiply_ratio u remainder bonded supply.issued)) _
                              h11
                              λ unbonded _ h12. after (less bonded unbonded) _ h12 λ bonded' _ h13.
                                after (less supply.issued remainder) _ h13 λ issued' burned h14.
                                  after (run (Uint128.add supply.claims unbonded)) _ h14
                                    λ claims' sum h15.
                                      after
                                        (save_supply ops json s2 (record {
                                          bonded = bonded';
                                          issued = issued';
                                          claims = claims';
                                        }))
                                        _ h15
                                        λ s3 saved h16.
                                          after
                                            (update_claim ops json s3 sender
                                              (λ claim. run (Uint128.add (or_zero claim) unbonded)))
                                            _ h16
                                            λ s4 claimed h17.
                                              let e : s4 ≡ s' = cc in
                                              let after_unbond : Supply = record {
                                                bonded = bonded';
                                                issued = issued';
                                                claims = claims';
                                              } in
                                              let kept : IsKept law codecs chain info s s4 =
                                                record {
                                                  solvent =
                                                      unbond-IsSolvent s s1 s2 s3 s4 sender owner
                                                        burnt tax unbonded after_unbond solvent
                                                        debited taxed saved claimed remainder supply
                                                        left loaded burned sum;
                                                  spares = λ j away.
                                                      unbond-Spares s s1 s2 s3 s4 sender owner burnt
                                                        tax unbonded after_unbond solvent debited
                                                        taxed saved claimed j
                                                        (not_sender
                                                          (chain.addr_canonicalize info.sender)
                                                          named away);
                                                } in
                                              rw e at kept

  less-rest_of_claim :
      (balance : ℕ) (old : Option ℕ) {n : ℕ}
      → rest_of_claim balance old ≡ success n
      → n + to_send_of balance old ≡ or_zero old
  less-rest_of_claim balance none h = cc
  less-rest_of_claim balance (some c) h = less-eq c (min balance c) h

  pub do_claim-IsKept :
      (chain : Chain) (contract : _) (info : MessageInfo) (s s' : S) (r : Response)
      → IsSolvent law codecs s
      → do_claim ops json chain contract info s ≡ success (r, s')
      → IsKept law codecs chain info s s'
  unfolding do_claim
  do_claim-IsKept chain contract info s s' r solvent h =
      after (load_invest ops json s) _ h λ invest _ h1.
        after (try (chain.query_balance contract invest.bond_denom)) _ h1 λ balance _ h2.
          after
            (refuse (ltb balance.amount invest.min_withdrawal)
              "Insufficient balance in contract to process claim")
            _ h2
            λ _ _ h3. after (try (chain.addr_canonicalize info.sender)) _ h3 λ sender named h4.
              after (load_claim ops json s sender) _ h4 λ old loaded h5.
                after (update_claim ops json s sender (rest_of_claim balance.amount)) _ h5
                  λ s1 updated h6. after (load_supply ops json s1) _ h6 λ supply read h7.
                    after (less supply.claims (to_send_of balance.amount old)) _ h7
                      λ claims' paid h8.
                        after (save_supply ops json s1 (record supply { claims = claims' })) _ h8
                          λ s2 saved h9.
                            let (old', new, loaded', ran, valid1, claims1, balance1, supply1) =
                              update_claim_effect law codecs s s1 sender
                                (rest_of_claim balance.amount) solvent.valid updated in
                            let (valid2, balance2, claims2, supply2) =
                              save_supply_effect law codecs s1 s2 _ valid1 saved in
                            let same : solvent.supply ≡ supply =
                              eq_of_success (sym solvent.loaded ∙ sym supply1 ∙ read) in
                            let seen : old' ≡ old = eq_of_success (sym loaded' ∙ loaded) in
                            let e : s2 ≡ s' = cc in
                            let balanced : IsSolvent law codecs s2 = record {
                              valid = valid2;
                              supply = record supply { claims = claims' };
                              loaded = supply2;
                              issued =
                                  balance2 ∙ balance1 ∙ solvent.issued ∙ ap (λ x. x.issued) same;
                              claimed = omega (
                                arith,
                                solvent.claimed,
                                less-eq supply.claims (to_send_of balance.amount old) paid,
                                less-rest_of_claim balance.amount old' ran,
                                ap or_zero seen,
                                ap (to_send_of balance.amount) seen,
                                ap (λ x. x.claims) same,
                              );
                            } in
                            let kept : IsKept law codecs chain info s s2 = record {
                              solvent = balanced;
                              spares = λ j away.
                                  let other =
                                    not_sender (chain.addr_canonicalize info.sender) named away in
                                  Spares-trans ops json s s1 s2 j
                                    (update_claim-Spares law codecs s s1 sender j
                                      (rest_of_claim balance.amount) solvent.valid updated other)
                                    (save_supply-Spares law codecs s1 s2 j
                                      (record supply { claims = claims' }) valid1 saved);
                            } in
                            rw e at kept
