-- ===== src/Sequence.antt =====
-- packages/storage/src/sequence.rs: a counter in a singleton of type `u64`. An addition past
-- `u64::MAX` panics, as it does in a debug build and in the contracts, whose release profile sets
-- `overflow-checks = true`.
pub mod Count
use cosmwasm.Base.{
  ℕ, ◌+◌, ◌^◌, Option, none, some, Outcome, returns, panics, Result, ok, err, and_then, ltb,
  if◌then◌else◌,
}
use cosmwasm.Base.Call.{Call, success, ◌>>=◌, try, run}
use cosmwasm.Bytes.{Bytes}
use cosmwasm.Storage.{Storage}
use cosmwasm.Errors.{StdError, StdResult}
use cosmwasm.Serde.{Serde}
use cosmwasm.Singleton
use cosmwasm.Singleton.{Singleton}

-- `Option::unwrap_or_default` at a number.
abbrev pub or_zero : Option ℕ → ℕ
or_zero none = 0
or_zero (some n) = n

-- `val + 1` on `u64`.
unfoldable pub increment : ℕ → Outcome ℕ
increment n = if ltb (n + 1) (2 ^ 64) then returns (n + 1) else panics

unfoldable pub sequence : {S : Type 0} → S → Bytes → Outcome (Singleton S)
sequence storage key = Singleton.new storage key

module _ {S : Type 0} (ops : Storage S) (u64_codec : Serde ℕ) where
  unfoldable pub currval : Singleton S → StdResult ℕ
  currval seq = and_then (Singleton.may_load ops u64_codec seq) (λ v. ok (or_zero v))

  unfoldable pub nextval : Singleton S → Call StdError (ℕ × Singleton S)
  unfolding currval increment
  nextval seq = do
    current ← try (currval seq)
    val ← run (increment current)
    seq' ← Singleton.save ops u64_codec seq val
    success (val, seq')
