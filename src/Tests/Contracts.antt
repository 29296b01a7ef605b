-- ===== src/Tests/Contracts.antt =====
-- The theorems on the staking contract, over a memory storage.
use cosmwasm.Base.{◌≤◌, arith, ◌≡◌, refl, some, [], ◌∷◌}
use cosmwasm.Base.Call.{Call, success}
use cosmwasm.Errors.{StdError}
use cosmwasm.BTreeMap
use cosmwasm.Bytes.{cmp}
use cosmwasm.LengthPrefixed.{to_length_prefixed, encode_length}
use cosmwasm.Memory
use cosmwasm.Memory.{MemoryStorage, memory_storage, memory_storage-IsStorage}
use cosmwasm.Staking.Messages.{
  Response, label, amount, send, delegate, undelegate, ExecuteMsg, empty_response,
}
use cosmwasm.Staking.Contract.{instantiate, execute}
use cosmwasm.Staking.Handlers.{do_bond, do_transfer, do_unbond}
use cosmwasm.Staking.Accounts.{load_invest, load_claim}
use cosmwasm.Staking.Rewards.{do_claim}
use cosmwasm.Staking.Progress.{do_claim_pays}
use cosmwasm.Staking.Reach.{execute-Spares}
use cosmwasm.Staking.Spares.{balance_of, claim_of}
use cosmwasm.Staking.Genesis.{Reachable, instantiated, executed, Reachable-IsSolvent}
use cosmwasm.Staking.Preserve.{IsSolvent}
use cosmwasm.Tests.Fixtures.{words, unary}
use cosmwasm.Tests.Accounts.{
  investment, codecs, codecs-IsCodecs, chain_with, stake, from_user, opening,
}

abbrev fresh : MemoryStorage
fresh = record { entries = [] }

abbrev state_of : Call StdError (Response × MemoryStorage) → MemoryStorage
state_of (success (r, s)) = s
state_of failed = fresh

unfoldable opened : MemoryStorage
unfolding instantiate memory_storage Memory.set BTreeMap.insert
opened =
    state_of
      (instantiate memory_storage codecs (chain_with []) (from_user "creator" []) opening fresh)

unfoldable bonded : MemoryStorage
unfolding opened do_bond memory_storage Memory.set Memory.get BTreeMap.insert
bonded = state_of (
    do_bond memory_storage codecs (chain_with []) words "contract" (from_user "bob" (stake 10 ∷ []))
      opened)

fresh-IsValid : memory_storage-IsStorage.IsValid fresh
unfolding memory_storage-IsStorage
fresh-IsValid = record { sorted = tt }

fresh-empty : memory_storage-IsStorage.view fresh ≡ []
unfolding memory_storage-IsStorage
fresh-empty = refl

instantiates :
    instantiate memory_storage codecs (chain_with []) (from_user "creator" []) opening fresh
    ≡ success (empty_response, opened)
unfolding opened to_length_prefixed encode_length
instantiates = refl

abbrev bond_response : Response
bond_response = record {
  attributes =
      ("action", label "bond")
      ∷ ("from", label "bob")
      ∷ ("bonded", amount 10)
      ∷ ("minted", amount 10)
      ∷ [];
  messages = delegate "val" (stake 10) ∷ [];
}

bonds :
    execute memory_storage codecs
      (chain_with [])
      words
      "contract"
      (from_user "bob" (stake 10 ∷ []))
      ExecuteMsg.bond
      opened
    ≡ success (bond_response, bonded)
unfolding bonded execute to_length_prefixed encode_length BTreeMap.get cmp
bonds = refl

bonded-Reachable : Reachable memory_storage-IsStorage codecs words bonded
bonded-Reachable =
    executed (chain_with []) "contract" (from_user "bob" (stake 10 ∷ [])) ExecuteMsg.bond opened
      bonded bond_response
      (instantiated (chain_with []) (from_user "creator" []) opening fresh opened empty_response
        fresh-IsValid fresh-empty instantiates)
      bonds

Reachable-IsSolvent_example : IsSolvent memory_storage-IsStorage codecs-IsCodecs bonded
Reachable-IsSolvent_example =
    Reachable-IsSolvent memory_storage-IsStorage codecs-IsCodecs words bonded bonded-Reachable

-- Bob, whose address is 2, sends 3 of his 10 tokens to the creator, whose address is 1.
unfoldable sent : MemoryStorage
unfolding bonded do_transfer memory_storage Memory.set Memory.get BTreeMap.insert
sent =
    state_of
      (do_transfer memory_storage codecs (chain_with []) (from_user "bob" []) "creator" 3 bonded)

abbrev transfer_response : Response
transfer_response = record {
  attributes =
      ("action", label "transfer")
      ∷ ("from", label "bob")
      ∷ ("to", label "creator")
      ∷ ("amount", amount 3)
      ∷ [];
  messages = [];
}

transfers :
    execute memory_storage codecs
      (chain_with [])
      words
      "contract"
      (from_user "bob" [])
      (ExecuteMsg.transfer "creator" 3)
      bonded
    ≡ success (transfer_response, sent)
unfolding sent execute to_length_prefixed encode_length BTreeMap.get cmp
transfers = refl

execute-Spares_example :
    (balance_of memory_storage codecs bonded (1 ∷ [])
      ≤ balance_of memory_storage codecs sent (1 ∷ []))
    × (claim_of memory_storage codecs sent (1 ∷ [])
        ≡ claim_of memory_storage codecs bonded (1 ∷ []))
execute-Spares_example =
    execute-Spares memory_storage-IsStorage codecs-IsCodecs words (chain_with []) "contract"
      (from_user "bob" []) (ExecuteMsg.transfer "creator" 3) bonded sent transfer_response (1 ∷ [])
      (Reachable-IsSolvent memory_storage-IsStorage codecs-IsCodecs words bonded bonded-Reachable)
      transfers (λ e. cc)

-- Bob unbonds 6 of them.
unfoldable unbonded : MemoryStorage
unfolding bonded do_unbond memory_storage Memory.set Memory.get BTreeMap.insert
unbonded = state_of (
    do_unbond memory_storage codecs (chain_with (stake 10 ∷ [])) words "contract"
      (from_user "bob" []) 6 bonded)

abbrev unbond_response : Response
unbond_response = record {
  attributes =
      ("action", label "unbond")
      ∷ ("to", label "bob")
      ∷ ("unbonded", amount 6)
      ∷ ("burnt", amount 6)
      ∷ [];
  messages = undelegate "val" (stake 6) ∷ [];
}

unbonds :
    execute memory_storage codecs
      (chain_with (stake 10 ∷ []))
      words
      "contract"
      (from_user "bob" [])
      (ExecuteMsg.unbond 6)
      bonded
    ≡ success (unbond_response, unbonded)
unfolding unbonded execute to_length_prefixed encode_length BTreeMap.get cmp
unbonds = refl

unbonded-IsSolvent : IsSolvent memory_storage-IsStorage codecs-IsCodecs unbonded
unbonded-IsSolvent = Reachable-IsSolvent memory_storage-IsStorage codecs-IsCodecs words unbonded (
    executed (chain_with (stake 10 ∷ [])) "contract" (from_user "bob" []) (ExecuteMsg.unbond 6)
      bonded unbonded unbond_response bonded-Reachable unbonds)

unbonded_invest : load_invest memory_storage codecs unbonded ≡ success investment
unfolding unbonded load_invest to_length_prefixed encode_length BTreeMap.get cmp
unbonded_invest = refl

unbonded_claim : load_claim memory_storage codecs unbonded (2 ∷ []) ≡ success (some 6)
unfolding unbonded load_claim to_length_prefixed encode_length BTreeMap.get cmp
unbonded_claim = refl

-- The contract holds 100, so the claim is paid in full.
do_claim_pays_example :
    (s' : MemoryStorage) × (r : Response) × (do_claim memory_storage codecs
        (chain_with [])
        "contract"
        (from_user "bob" [])
        unbonded
      ≡ success (r, s'))
    × (r.messages ≡ send "bob" (stake 6 ∷ []) ∷ [])
    × (r.attributes ≡ ("action", label "claim") ∷ ("from", label "bob") ∷ ("amount", amount 6) ∷ [])
    × (load_claim memory_storage codecs s' (2 ∷ []) ≡ success (some 0))
do_claim_pays_example =
    do_claim_pays memory_storage-IsStorage codecs-IsCodecs (chain_with []) "contract"
      (from_user "bob" []) unbonded investment (stake 100) (2 ∷ []) 6 unbonded-IsSolvent
      (λ n. (unary n, refl)) (λ x. (x.issued ∷ x.bonded ∷ x.claims ∷ [], refl)) unbonded_invest refl
      (omega arith) refl unbonded_claim
