-- ===== src/Staking/Totals.antt =====
-- Sums over a map of amounts, as the buckets of contracts/staking/src/state.rs hold them.
use cosmwasm.Base.{ℕ, ◌+◌, ◌≡◌, Option, none, some, [], ◌∷◌, ok, err, arith}
use cosmwasm.Bytes.{Bytes}
use cosmwasm.BTreeMap
use cosmwasm.BTreeMap.{BTreeMap, IsSorted, Above}
use cosmwasm.BTreeMap.Laws.{get-Above, Above-trans}
use cosmwasm.Serde.{Serde}

module _ (c : Serde ℕ) where
  -- What an entry is worth; one that cannot be read is worth nothing.
  abbrev pub worth : Bytes → ℕ
  worth bytes = elim (c.from_slice bytes) [ ok n ↦ n | err e ↦ 0 ]

  unfoldable pub total : BTreeMap → ℕ
  total [] = 0
  total ((k, v) ∷ m) = worth v + total m

  abbrev pub worth? : Option Bytes → ℕ
  worth? none = 0
  worth? (some v) = worth v

  unfoldable pub held : Bytes → BTreeMap → ℕ
  held k m = worth? (BTreeMap.get k m)

  -- A write changes the sum by what it changes at its key.
  pub total-insert :
      (k v : Bytes) (m : BTreeMap)
      → IsSorted m
      → total (BTreeMap.insert k v m) + held k m ≡ total m + worth v
  unfolding total held BTreeMap.insert BTreeMap.get
  total-insert k v [] s = omega arith
  total-insert k v ((j, w) ∷ m) s =
      ground (arith, total-insert k v m s.1, get-Above k m, Above-trans k j m)
