-- ===== src/Staking/Solvent.antt =====
-- The accounts of contracts/staking/src/contract.rs as three numbers: the sum of the balances, the
-- sum of the claims, and the stored supply.
use cosmwasm.Base.{ok, ℕ, ◌+◌, ◌≡◌, ◌≢◌, refl, ◌∙◌, ap, Option, none, ◌∷◌, ◌++◌, arith}
use cosmwasm.Base.Call.{Call, success, try, eq_of_>>=}
use cosmwasm.Bytes.{Bytes, strip}
use cosmwasm.Storage.{Storage, IsStorage}
use cosmwasm.Storage.Access.{view-set, set-IsValid, get-set_self}
use cosmwasm.Errors.{StdError}
use cosmwasm.Serde.{Serde, IsSerde}
use cosmwasm.TypeHelpers.{must_deserialize}
use cosmwasm.LengthPrefixed.{to_length_prefixed, encode_length}
use cosmwasm.Namespace.Subset.{under, under-insert_other}
use cosmwasm.Bucket
use cosmwasm.Bucket.{Bucket}
use cosmwasm.Singleton
use cosmwasm.Singleton.{Singleton}
use cosmwasm.Singleton.Laws
use cosmwasm.Sequence.{or_zero}
use cosmwasm.Staking.{
  Supply, Codecs, balances, claims, total_supply, prefix_balance, prefix_claims, key_total_supply,
}
use cosmwasm.Staking.Totals.{total}
use cosmwasm.Staking.Effects.{bucket_total, update_effect}
use cosmwasm.Staking.Accounts.{load_supply, save_supply, update_balance, update_claim, load_claim}

pub record IsCodecs (json : Codecs) : Type 0 where
  pub uint128 : IsSerde json.uint128
  pub supply : IsSerde json.supply
  pub investment : IsSerde json.investment
  pub token : IsSerde json.token

-- The raw keys, each with its length in front.
abbrev pub raw_balance : Bytes
raw_balance = 0 ∷ 7 ∷ prefix_balance

abbrev pub raw_claims : Bytes
raw_claims = 0 ∷ 5 ∷ prefix_claims

abbrev pub raw_supply : Bytes
raw_supply = 0 ∷ 12 ∷ key_total_supply

abbrev second : Bytes → ℕ
second (a ∷ b ∷ rest) = b
second short = 0

away_balance : (k : Bytes) → strip raw_claims (raw_balance ++ k) ≡ none
unfolding strip
away_balance k = refl

away_claims : (k : Bytes) → strip raw_balance (raw_claims ++ k) ≡ none
unfolding strip
away_claims k = refl

away_supply_balance : strip raw_balance raw_supply ≡ none
unfolding strip
away_supply_balance = refl

away_supply_claims : strip raw_claims raw_supply ≡ none
unfolding strip
away_supply_claims = refl

pub supply-ne-balance : (k : Bytes) → raw_supply ≢ raw_balance ++ k
supply-ne-balance k e = absurd (omega (arith, ap second e))

pub supply-ne-claims : (k : Bytes) → raw_supply ≢ raw_claims ++ k
supply-ne-claims k e = absurd (omega (arith, ap second e))

module _ {S : Type 0} {ops : Storage S} (law : IsStorage ops) {json : Codecs}
    (codecs : IsCodecs json) where
  abbrev pub balance_total : S → ℕ
  balance_total s = bucket_total law codecs.uint128 raw_balance s

  abbrev pub claim_total : S → ℕ
  claim_total s = bucket_total law codecs.uint128 raw_claims s

  load_supply-get :
      (s s' : S)
      → ops.get s' raw_supply ≡ ops.get s raw_supply
      → load_supply ops json s' ≡ load_supply ops json s
  unfolding load_supply total_supply Singleton.new to_length_prefixed encode_length
  load_supply-get s s' h = ap (λ o. try (must_deserialize json.supply o)) h

  pub update_balance_effect :
      (s s' : S) (k : Bytes) (action : ℕ → Call StdError ℕ)
      → law.IsValid s
      → update_balance ops json s k action ≡ success s'
      → (old new : ℕ) × (action old ≡ success new)
        × law.IsValid s'
        × (balance_total s' + old ≡ balance_total s + new)
        × (claim_total s' ≡ claim_total s)
        × (load_supply ops json s' ≡ load_supply ops json s)
  unfolding update_balance balances Bucket.new to_length_prefixed encode_length
  update_balance_effect s s' k action valid h =
      let b : Bucket S = record { storage = s; prefix = raw_balance } in
      let (r, updated, last) = eq_of_>>= _ _ h in
      let (old, loaded, ran, valid', sum, others, gets) =
        update_effect law codecs.uint128 b r.1 k (λ balance. action (or_zero balance)) r.0 valid
          updated in
      let e : r.1.storage ≡ s' = cc in
      (
        or_zero old,
        r.0,
        ran,
        rw e at valid',
        rw e at sum,
        rw e at (ap (total json.uint128) (others raw_claims (away_balance k))),
        rw e at (load_supply-get s r.1.storage (gets raw_supply (λ f. supply-ne-balance k f))),
      )

  pub update_claim_effect :
      (s s' : S) (k : Bytes) (action : Option ℕ → Call StdError ℕ)
      → law.IsValid s
      → update_claim ops json s k action ≡ success s'
      → (old : Option ℕ) × (new : ℕ) × (load_claim ops json s k ≡ success old)
        × (action old ≡ success new)
        × law.IsValid s'
        × (claim_total s' + or_zero old ≡ claim_total s + new)
        × (balance_total s' ≡ balance_total s)
        × (load_supply ops json s' ≡ load_supply ops json s)
  unfolding update_claim load_claim claims Bucket.new to_length_prefixed encode_length
  update_claim_effect s s' k action valid h =
      let b : Bucket S = record { storage = s; prefix = raw_claims } in
      let (r, updated, last) = eq_of_>>= _ _ h in
      let (old, loaded, ran, valid', sum, others, gets) =
        update_effect law codecs.uint128 b r.1 k action r.0 valid updated in
      let e : r.1.storage ≡ s' = cc in
      (
        old,
        r.0,
        ap try loaded,
        ran,
        rw e at valid',
        rw e at sum,
        rw e at (ap (total json.uint128) (others raw_balance (away_claims k))),
        rw e at (load_supply-get s r.1.storage (gets raw_supply (λ f. supply-ne-claims k f))),
      )

  -- A singleton outside the two buckets leaves them as they are.
  pub singleton_effect :
      {A : Type 0} {c : Serde A} (good : IsSerde c) (one one' : Singleton S) (a : A)
      → strip raw_balance one.key ≡ none
      → strip raw_claims one.key ≡ none
      → law.IsValid one.storage
      → Singleton.save ops c one a ≡ success one'
      → law.IsValid one'.storage
        × (balance_total one'.storage ≡ balance_total one.storage)
        × (claim_total one'.storage ≡ claim_total one.storage)
        × (must_deserialize c (ops.get one'.storage one.key) ≡ ok a)
  unfolding must_deserialize
  singleton_effect {c = c} good one one' a far_balance far_claims valid saved =
      let (bytes, e, done, k) = Singleton.Laws.eq_of_save law good one one' a saved in
      let full = good.nonempty a bytes e in
      let inserted = view-set law one.storage one.key bytes valid full one'.storage done in
      let same : (q : Bytes)
          → strip q one.key ≡ none
          → under q (law.view one'.storage) ≡ under q (law.view one.storage) =
        λ q n.
          ap (under q) inserted ∙ under-insert_other q one.key bytes (law.view one.storage) n in
      (
        set-IsValid law one.storage one.key bytes valid full one'.storage done,
        ap (total json.uint128) (same raw_balance far_balance),
        ap (total json.uint128) (same raw_claims far_claims),
        ap (must_deserialize c)
              (get-set_self law one.storage one.key bytes valid full one'.storage done)
            ∙ good.read_back a bytes e,
      )

  pub save_supply_effect :
      (s s' : S) (supply : Supply)
      → law.IsValid s
      → save_supply ops json s supply ≡ success s'
      → law.IsValid s'
        × (balance_total s' ≡ balance_total s)
        × (claim_total s' ≡ claim_total s)
        × (load_supply ops json s' ≡ success supply)
  unfolding save_supply load_supply total_supply Singleton.new to_length_prefixed encode_length
  save_supply_effect s s' supply valid h =
      let one : Singleton S = record { storage = s; key = raw_supply } in
      let (r, saved, last) = eq_of_>>= _ _ h in
      let (valid', balance, claim, read) =
        singleton_effect codecs.supply one r supply away_supply_balance away_supply_claims valid
          saved in
      let e : r.storage ≡ s' = cc in
      (rw e at valid', rw e at balance, rw e at claim, rw e at (ap try read))
