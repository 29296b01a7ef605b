-- ===== src/Staking/Spares.antt =====
-- contracts/staking/src/contract.rs: what a call leaves to the accounts of everyone else.
use cosmwasm.Base.{ℕ, ◌+◌, ◌≤◌, ◌≡◌, ◌≢◌, sym, ◌∙◌, ap, Option, ◌∷◌, ◌++◌, ok, err, arith}
use cosmwasm.Base.Call.{Call, success, try, run, after, eq_of_try}
use native.Mathlib.Decide.{ℕ_discrete}
use mathlib.Core.List.{List-discrete}
use cosmwasm.Storage.Access.{get-set_ne}
use cosmwasm.Bytes.{Bytes}
use cosmwasm.Bytes.Prefix.{append_cancel}
use cosmwasm.Storage.{Storage, IsStorage}
use cosmwasm.Errors.{StdError, StdResult}
use cosmwasm.LengthPrefixed.{to_length_prefixed, encode_length}
use cosmwasm.Bucket
use cosmwasm.Bucket.{Bucket}
use cosmwasm.Singleton
use cosmwasm.Singleton.{Singleton}
use cosmwasm.Singleton.Laws
use cosmwasm.Sequence.{or_zero}
use cosmwasm.Math.Uint128
use cosmwasm.Staking.{Supply, Codecs, balances, claims, total_supply}
use cosmwasm.Staking.Totals.{worth?}
use cosmwasm.Staking.Effects.{update_effect, update_stored, may_deserialize-worth}
use cosmwasm.Staking.Accounts.{less, update_balance, update_claim, save_supply, pay_tax}
use cosmwasm.Staking.Solvent.{
  IsCodecs, raw_balance, raw_claims, raw_supply, supply-ne-balance, supply-ne-claims,
}

pub less-eq : (a b : ℕ) {n : ℕ} → less a b ≡ success n → n + b ≡ a
unfolding Uint128.checked_sub
less-eq a b h = ground arith

pub add-eq : (a b : ℕ) {n : ℕ} → run {E = StdError} (Uint128.add a b) ≡ success n → n ≡ a + b
unfolding Uint128.add
add-eq a b h = ground arith

-- An account that is not the sender's.
pub not_sender :
    (canonical : StdResult Bytes) {k j : Bytes}
    → try canonical ≡ success k
    → canonical ≢ ok j
    → j ≢ k
not_sender canonical named away same = away (eq_of_try canonical named ∙ ap ok (sym same))

abbrev first : Bytes → ℕ
first (a ∷ b ∷ rest) = b
first short = 0

balance-ne-claims : (j k : Bytes) → raw_balance ++ j ≢ raw_claims ++ k
balance-ne-claims j k e = absurd (omega (arith, ap first e))

Bytes_discrete : Discrete Bytes
Bytes_discrete = List-discrete ℕ_discrete

abbrev worth_of : StdResult ℕ → ℕ
worth_of (ok n) = n
worth_of (err e) = 0

module _ {S : Type 0} (ops : Storage S) (json : Codecs) where
  -- What an account holds, and what it has claimed.
  abbrev pub balance_of : S → Bytes → ℕ
  balance_of s k = worth? json.uint128 (ops.get s (raw_balance ++ k))

  abbrev pub claim_of : S → Bytes → ℕ
  claim_of s k = worth? json.uint128 (ops.get s (raw_claims ++ k))

  -- The account k has lost nothing.
  pub record Spares (s s' : S) (k : Bytes) : Type 0 where
    pub balance : balance_of s k ≤ balance_of s' k
    pub claim : claim_of s' k ≡ claim_of s k

  pub Spares-trans : (s s' s'' : S) (k : Bytes) → Spares s s' k → Spares s' s'' k → Spares s s'' k
  Spares-trans s s' s'' k a b = record {
    balance = omega (arith, a.balance, b.balance);
    claim = b.claim ∙ a.claim;
  }

module _ {S : Type 0} {ops : Storage S} (law : IsStorage ops) {json : Codecs}
    (codecs : IsCodecs json) where
  pub update_balance-Spares :
      (s s' : S) (k j : Bytes) (action : ℕ → Call StdError ℕ)
      → law.IsValid s
      → update_balance ops json s k action ≡ success s'
      → j ≢ k
      → Spares ops json s s' j
  unfolding update_balance balances Bucket.bucket Bucket.new to_length_prefixed encode_length
  update_balance-Spares s s' k j action valid h n =
      let b : Bucket S = record { storage = s; prefix = raw_balance } in
      after (Bucket.update ops json.uint128 (λ e. e) b k (λ balance. action (or_zero balance))) _ h
        λ r updated last.
          let (old, loaded, ran, valid', sum, others, gets) =
            update_effect law codecs.uint128 b r.1 k (λ balance. action (or_zero balance)) r.0 valid
              updated in
          let e : r.1.storage ≡ s' = cc in
          let same =
            ap (worth? json.uint128)
              (gets (raw_balance ++ j) (λ f. n (append_cancel raw_balance j k f))) in
          let claim =
            ap (worth? json.uint128)
              (gets (raw_claims ++ j) (λ f. balance-ne-claims k j (sym f))) in
          let kept : Spares ops json s r.1.storage j = record {
            balance = omega (arith, same);
            claim = claim;
          } in
          rw e at kept

  pub credit-Spares :
      (s s' : S) (k j : Bytes) (t : ℕ)
      → law.IsValid s
      → update_balance ops json s k (λ balance. run (Uint128.add balance t)) ≡ success s'
      → Spares ops json s s' j
  unfolding update_balance balances Bucket.may_load Bucket.bucket Bucket.new to_length_prefixed
      encode_length
  credit-Spares s s' k j t valid h =
      let action : Option ℕ → Call StdError ℕ = λ balance. run (Uint128.add (or_zero balance) t) in
      let b : Bucket S = record { storage = s; prefix = raw_balance } in
      elim (Bytes_discrete j k) [
        | no n ↦ update_balance-Spares s s' k j (λ balance. run (Uint128.add balance t)) valid h n
        | yes same ↦
            after (Bucket.update ops json.uint128 (λ e. e) b k action) _ h λ r updated last.
              let (old, loaded, ran, valid', sum, others, gets) =
                update_effect law codecs.uint128 b r.1 k action r.0 valid updated in
              let (bytes, here, read) =
                update_stored law codecs.uint128 b r.1 k action r.0 valid updated in
              let before : balance_of ops json s k ≡ or_zero old =
                may_deserialize-worth json.uint128 (ops.get s (raw_balance ++ k)) old loaded in
              let now : balance_of ops json r.1.storage k ≡ r.0 =
                ap (worth? json.uint128) here ∙ ap worth_of read in
              let claim =
                ap (worth? json.uint128)
                  (gets (raw_claims ++ k) (λ f. balance-ne-claims k k (sym f))) in
              let e : r.1.storage ≡ s' = cc in
              let kept : Spares ops json s r.1.storage k = record {
                balance = omega (arith, before, now, add-eq (or_zero old) t ran);
                claim = claim;
              } in
              rw (e, sym same) at kept
      ]

  pub update_claim-Spares :
      (s s' : S) (k j : Bytes) (action : Option ℕ → Call StdError ℕ)
      → law.IsValid s
      → update_claim ops json s k action ≡ success s'
      → j ≢ k
      → Spares ops json s s' j
  unfolding update_claim claims Bucket.bucket Bucket.new to_length_prefixed encode_length
  update_claim-Spares s s' k j action valid h n =
      let b : Bucket S = record { storage = s; prefix = raw_claims } in
      after (Bucket.update ops json.uint128 (λ e. e) b k action) _ h λ r updated last.
        let (old, loaded, ran, valid', sum, others, gets) =
          update_effect law codecs.uint128 b r.1 k action r.0 valid updated in
        let e : r.1.storage ≡ s' = cc in
        let same = ap (worth? json.uint128) (gets (raw_balance ++ j) (balance-ne-claims j k)) in
        let claim =
          ap (worth? json.uint128)
            (gets (raw_claims ++ j) (λ f. n (append_cancel raw_claims j k f))) in
        let kept : Spares ops json s r.1.storage j = record {
          balance = omega (arith, same);
          claim = claim;
        } in
        rw e at kept

  pub save_supply-Spares :
      (s s' : S) (j : Bytes) (supply : Supply)
      → law.IsValid s
      → save_supply ops json s supply ≡ success s'
      → Spares ops json s s' j
  unfolding save_supply total_supply Singleton.new to_length_prefixed encode_length
  save_supply-Spares s s' j supply valid h =
      let one : Singleton S = record { storage = s; key = raw_supply } in
      after (Singleton.save ops json.supply one supply) _ h λ one' saved last.
        let (bytes, e, done, _) =
          Singleton.Laws.eq_of_save law codecs.supply one one' supply saved in
        let gets =
          get-set_ne law s raw_supply bytes valid (codecs.supply.nonempty supply bytes e)
            one'.storage done in
        let e' : one'.storage ≡ s' = cc in
        let same =
          ap (worth? json.uint128) (gets (raw_balance ++ j) (λ f. supply-ne-balance j (sym f))) in
        let claim =
          ap (worth? json.uint128) (gets (raw_claims ++ j) (λ f. supply-ne-claims j (sym f))) in
        let kept : Spares ops json s one'.storage j = record {
          balance = omega (arith, same);
          claim = claim;
        } in
        rw e' at kept

  pub pay_tax-Spares :
      (s s' : S) (k j : Bytes) (t : ℕ)
      → law.IsValid s
      → pay_tax ops json s k t ≡ success s'
      → Spares ops json s s' j
  unfolding pay_tax
  pay_tax-Spares s s' k j t valid h = grind (arith, credit-Spares s s' k j t valid)
