-- ===== src/Staking/Progress.antt =====
-- contracts/staking/src/contract.rs: with balanced books the subtractions of `claim` cannot fail.
use cosmwasm.Base.{
  and_then, ℕ, ◌-◌, ◌≤◌, ◌≡◌, refl, sym, ◌∙◌, ap, Option, some, [], ◌∷◌, ◌++◌, ok, min, ge→ltb,
  arith,
}
use cosmwasm.Base.Call.{Call, success, try, eq_of_try, eq_of_success, after}
use cosmwasm.Bytes.{Bytes}
use cosmwasm.BTreeMap
use cosmwasm.BTreeMap.{BTreeMap}
use cosmwasm.Storage.{Storage, IsStorage}
use cosmwasm.Errors.{StdError}
use cosmwasm.Storage.Access.{set_returns, get-set_ne}
use cosmwasm.LengthPrefixed.{to_length_prefixed, encode_length}
use cosmwasm.Bucket
use cosmwasm.Bucket.{Bucket}
use cosmwasm.Bucket.Laws.{save_succeeds}
use cosmwasm.Singleton
use cosmwasm.Singleton.{Singleton}
use cosmwasm.Singleton.Laws
use cosmwasm.TypeHelpers.{may_deserialize}
use cosmwasm.Serde.{Serde}
use cosmwasm.Math.Uint128
use cosmwasm.Staking.{claims, total_supply, Coin, Supply, InvestmentInfo, Codecs, Chain}
use cosmwasm.Staking.Totals.{total, held}
use cosmwasm.Staking.Messages.{MessageInfo, Response, send, label, amount}
use cosmwasm.Staking.Accounts.{less, load_invest, load_claim, update_claim, save_supply}
use cosmwasm.Staking.Rewards.{do_claim, claim_response, rest_of_claim}
use cosmwasm.Staking.Solvent.{
  IsCodecs, claim_total, update_claim_effect, raw_claims, raw_supply, supply-ne-claims,
}
use cosmwasm.Namespace.Subset.{under}
use cosmwasm.Staking.Effects.{held-may_load, update_effect, update_stored}
use cosmwasm.Staking.Preserve.{IsSolvent}

less_runs : (a b : ℕ) → b ≤ a → less a b ≡ success (a - b)
unfolding Uint128.checked_sub
less_runs a b h = ground arith

held-total : (c : Serde ℕ) (k : Bytes) (m : BTreeMap) → held c k m ≤ total c m
unfolding held total BTreeMap.get
held-total c k [] = omega arith
held-total c k ((j, v) ∷ m) = ground (arith, held-total c k m)

module _ {S : Type 0} {ops : Storage S} (law : IsStorage ops) {json : Codecs}
    (codecs : IsCodecs json) where
  update_claim_runs :
      (s : S) (k bytes : Bytes) (old : Option ℕ) (new : ℕ) (action : Option ℕ → Call StdError ℕ)
      → law.IsValid s
      → load_claim ops json s k ≡ success old
      → action old ≡ success new
      → json.uint128.to_vec new ≡ ok bytes
      → (s' : S) × (update_claim ops json s k action ≡ success s')
  unfolding update_claim claims Bucket.update Bucket.bucket Bucket.new to_length_prefixed
      encode_length load_claim
  update_claim_runs s k bytes old new action valid loaded ran written =
      let b : Bucket S = record { storage = s; prefix = raw_claims } in
      let (b', saved) = save_succeeds law codecs.uint128 b k new bytes valid written in
      let found : Bucket.may_load ops json.uint128 b k ≡ ok old = eq_of_try _ loaded in
      (b'.storage, rw (found, ran, saved) refl)

  save_supply_runs :
      (s : S) (supply : Supply) (bytes : Bytes)
      → law.IsValid s
      → json.supply.to_vec supply ≡ ok bytes
      → (s' : S) × (save_supply ops json s supply ≡ success s')
  unfolding save_supply total_supply Singleton.save Singleton.new to_length_prefixed encode_length
  save_supply_runs s supply bytes valid written =
      let (s', done) =
        set_returns law s raw_supply bytes valid (codecs.supply.nonempty supply bytes written) in
      (s', rw (written, done) refl)

  update_claim-load_claim :
      (s s' : S) (k : Bytes) (action : Option ℕ → Call StdError ℕ) (old : Option ℕ) (new : ℕ)
      → law.IsValid s
      → update_claim ops json s k action ≡ success s'
      → load_claim ops json s k ≡ success old
      → action old ≡ success new
      → load_claim ops json s' k ≡ success (some new)
  unfolding update_claim claims Bucket.update Bucket.may_load may_deserialize Bucket.bucket
      Bucket.new to_length_prefixed encode_length load_claim
  update_claim-load_claim s s' k action old new valid h loaded ran =
      let b : Bucket S = record { storage = s; prefix = raw_claims } in
      after (Bucket.update ops json.uint128 (λ e. e) b k action) _ h λ r updated last.
        let (old', found, ran', _, _, _, _) =
          update_effect law codecs.uint128 b r.1 k action r.0 valid updated in
        let (bytes, here, read) =
          update_stored law codecs.uint128 b r.1 k action r.0 valid updated in
        let same : old' ≡ old = eq_of_success (sym (ap try found) ∙ loaded) in
        let written : r.0 ≡ new = eq_of_success (sym ran' ∙ ap action same ∙ ran) in
        let e : r.1.storage ≡ s' = cc in
        rw e at (
          ap (λ o. try (may_deserialize json.uint128 o)) here
          ∙ ap (λ x. try (and_then x (λ t. ok (some t)))) read
          ∙ ap (λ t. success (some t)) written)

  save_supply-load_claim :
      (s s' : S) (supply : Supply) (k : Bytes)
      → law.IsValid s
      → save_supply ops json s supply ≡ success s'
      → load_claim ops json s' k ≡ load_claim ops json s k
  unfolding save_supply total_supply Singleton.new to_length_prefixed encode_length load_claim
      claims Bucket.may_load Bucket.bucket Bucket.new
  save_supply-load_claim s s' supply k valid h =
      let one : Singleton S = record { storage = s; key = raw_supply } in
      after (Singleton.save ops json.supply one supply) _ h λ one' saved last.
        let (bytes, e, done, _) =
          Singleton.Laws.eq_of_save law codecs.supply one one' supply saved in
        let e' : one'.storage ≡ s' = cc in
        rw e' at (
          ap (λ o. try (may_deserialize json.uint128 o))
            (get-set_ne law s raw_supply bytes valid (codecs.supply.nonempty supply bytes e)
              one'.storage done (raw_claims ++ k) (λ f. supply-ne-claims k (sym f))))

  -- An open claim is part of the sum.
  load_claim-total :
      (s : S) (k : Bytes) (c : ℕ)
      → load_claim ops json s k ≡ success (some c)
      → c ≤ claim_total law codecs s
  unfolding load_claim claims Bucket.bucket Bucket.new to_length_prefixed encode_length
  load_claim-total s k c loaded =
      let b : Bucket S = record { storage = s; prefix = raw_claims } in
      omega (
        arith,
        held-may_load law codecs.uint128 b k (some c) (eq_of_try _ loaded),
        held-total json.uint128 k (under raw_claims (law.view s)),
      )

  -- Where the books are balanced, a claim is paid: if the investment can be read, the contract's
  -- balance is known and is at least the minimal withdrawal, the caller's address can be
  -- canonicalized, the caller has a claim c, and amounts and supplies can be serialized, then `claim`
  -- succeeds, its one message sends the caller the smaller of the balance and c in the denomination
  -- of the balance, its attributes name the caller and that amount, and the rest of c is left as the
  -- claim.
  -- The storage keeps its laws and the JSON of the stored types is read back as written.
  pub do_claim_pays :
      (chain : Chain) (contract : _) (info : MessageInfo) (s : S) (invest : InvestmentInfo)
      (balance : Coin) (k : Bytes) (c : ℕ)
      → IsSolvent law codecs s
      → ((n : ℕ) → (b : Bytes) × (json.uint128.to_vec n ≡ ok b))
      → ((x : Supply) → (b : Bytes) × (json.supply.to_vec x ≡ ok b))
      → load_invest ops json s ≡ success invest
      → chain.query_balance contract invest.bond_denom ≡ ok balance
      → invest.min_withdrawal ≤ balance.amount
      → chain.addr_canonicalize info.sender ≡ ok k
      → load_claim ops json s k ≡ success (some c)
      → (s' : S) × (r : Response) × (do_claim ops json chain contract info s ≡ success (r, s'))
        × (r.messages
            ≡ send info.sender
                (record { denom = balance.denom; amount = min balance.amount c } ∷ [])
              ∷ [])
        × (r.attributes
            ≡ ("action", label "claim")
              ∷ ("from", label info.sender)
              ∷ ("amount", amount (min balance.amount c))
              ∷ [])
        × (load_claim ops json s' k ≡ success (some (c - min balance.amount c)))
  unfolding do_claim
  do_claim_pays chain contract info s invest balance k c solvent write write_supply invested queried
        enough named claimed =
      let paid = min balance.amount c in
      let small : paid ≤ c = ground arith in
      let rest : less c paid ≡ success (c - paid) = less_runs c paid small in
      let (s1, updated) =
        update_claim_runs s k (write (c - paid)).0 (some c) (c - paid)
          (rest_of_claim balance.amount) solvent.valid claimed rest (write (c - paid)).1 in
      let (_, _, _, _, valid1, _, _, read) =
        update_claim_effect law codecs s s1 k (rest_of_claim balance.amount) solvent.valid
          updated in
      let supply = solvent.supply in
      let covered : paid ≤ supply.claims =
        omega (arith, load_claim-total s k c claimed, solvent.claimed) in
      let after_claim : Supply = record supply { claims = supply.claims - paid } in
      let (s2, saved) =
        save_supply_runs s1 after_claim (write_supply after_claim).0 valid1
          (write_supply after_claim).1 in
      (
        s2,
        claim_response info balance paid,
        rw
            (
              invested,
              queried,
              ge→ltb balance.amount invest.min_withdrawal enough,
              named,
              claimed,
              updated,
              read ∙ solvent.loaded,
              less_runs supply.claims paid covered,
              saved,
            )
            refl,
        refl,
        refl,
        save_supply-load_claim s1 s2 after_claim k valid1 saved
            ∙ update_claim-load_claim s s1 k (rest_of_claim balance.amount) (some c) (c - paid)
                solvent.valid updated claimed rest,
      )
